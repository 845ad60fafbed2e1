-- ===== src/Releaseutil/Filter.antt =====
-- pkg/releaseutil/filter.go. A `*Release` that may be nil is an `Option Release`.
use helm.Common.{Bool, true, false, Option, none, some, List, [], ◌∷◌, if◌then◌else◌, not}
use helm.Release.{Release, Status, status_eq}

abbrev pub FilterFunc : Type 0
FilterFunc = Option Release → Bool

-- FilterFunc.Check
unfoldable pub check : FilterFunc → Option Release → Bool
check fn none = false
check fn (some rls) = fn (some rls)

-- FilterFunc.Filter
unfoldable pub filter : FilterFunc → List (Option Release) → List (Option Release)
unfolding check
filter fn [] = []
filter fn (rel ∷ rels) = if check fn rel then rel ∷ filter fn rels else filter fn rels

unfoldable pub any : List FilterFunc → FilterFunc
any [] rls = false
any (f ∷ filters) rls = if f rls then true else any filters rls

unfoldable pub all : List FilterFunc → FilterFunc
all [] rls = true
all (f ∷ filters) rls = if not (f rls) then false else all filters rls

unfoldable pub status_filter : Status → FilterFunc
status_filter status none = true
status_filter status (some rls) = status_eq rls.info.code status
