-- ===== src/Storage/Store.antt =====
-- pkg/storage/storage.go: the history of each release over a driver. `Log` has no effect here.
pub mod Prune
pub mod History
use mathlib.Core.List.{reverse}
use helm.Common.{
  ℕ, zero, suc, ◌+◌, ◌-◌, Bytes, codes, Bool, true, false, ltb, leb, ◌==◌, if◌then◌else◌, Option,
  some, List, [], ◌∷◌, ◌++◌, length,
}
use helm.Common.Decimal.{Int32, itoa}
use helm.Release.{Release, Status, deployed, deleted}
use helm.Result.{
  Error, Result, ok, err, Exec, bind, no_deployed, no_revision, deletion_errors, mentions,
}
use helm.Releaseutil.Filter.{FilterFunc, check, any, all, status_filter}
use helm.Releaseutil.Sorter.{sort_by_revision, reverse_by}
use helm.Storage.Driver.{Driver}
use helm.Storage.Labels.{Labels}

-- makeKey: `fmt.Sprintf("%s.v%d", rlsname, version)`
unfoldable pub make_key : Bytes → Int32 → Bytes
make_key rlsname version = rlsname ++ b'.' ∷ b'v' ∷ itoa version

-- The versions to prune, oldest first: the loop over the sorted history, `deleted` releases of
-- which are marked so far. `Deployed` returns no nil release without an error, so the case of a
-- nil `last_deployed` does not arise.
unfoldable pub to_delete : ℕ → ℕ → Int32 → ℕ → List Release → List Release
to_delete total max last marked [] = []
to_delete total max last marked (rel ∷ h) =
    let kept = to_delete total max last marked h in
    let pruned = rel ∷ to_delete total max last (suc marked) h in
    if total - marked == max then [] else (if rel.version == last then kept else pruned)

-- The status of the loop that deletes: no error, the only one, or their number and the first.
unfoldable pub summary : List Error → Result (Unit {0})
summary [] = ok tt
summary (e ∷ []) = err e
summary (e ∷ f ∷ es) = err (deletion_errors (length (e ∷ f ∷ es)) e)

abbrev pub or_no_deployed : Bytes → Result (List Release) → Result (List Release)
or_no_deployed name (ok ls) = ok ls
or_no_deployed name (err e) =
    if mentions (codes "not found") e then err (no_deployed name) else err e

abbrev pub first : Error → List Release → Result Release
first e [] = err e
first e (r ∷ rs) = ok r

abbrev pub latest : Bytes → Result (List Release) → Result Release
latest name (ok ls) = first (no_deployed name) (reverse_by sort_by_revision ls)
latest name (err e) = if mentions (codes "not found") e then err (no_deployed name) else err e

module _ (D : Driver) where
  -- A store: the driver's state, and MaxHistory, where 0 stands for "0 or less".
  pub record Store : Type 0 where
    pub max_history : ℕ
    pub db : D.State

  abbrev pub on_db {ℓ} : {A : Type ℓ} → Result A × D.State → Store → Result A × Store
  on_db (r, db') s = (r, record s { db = db' })

  -- Storage.Get
  unfoldable pub get : Bytes → Int32 → Store → Result Release
  get name version s = D.get (make_key name version) s.db

  -- Storage.Update
  unfoldable pub update : Release → Exec Store (Unit {0})
  update rls s = on_db (D.update (make_key rls.name rls.version) rls s.db) s

  -- Storage.Delete
  unfoldable pub delete : Bytes → Int32 → Exec Store Release
  delete name version s = on_db (D.delete (make_key name version) s.db) s

  unfoldable pub list_releases : Store → Result (List Release)
  list_releases s = D.list (λ _. true) s.db

  unfoldable pub list_deleted : Store → Result (List Release)
  unfolding check status_filter
  list_deleted s = D.list (λ rls. check (status_filter deleted) (some rls)) s.db

  unfoldable pub list_deployed : Store → Result (List Release)
  unfolding check status_filter
  list_deployed s = D.list (λ rls. check (status_filter deployed) (some rls)) s.db

  unfoldable pub list_filter_all : List FilterFunc → Store → Result (List Release)
  unfolding check all
  list_filter_all fns s = D.list (λ rls. check (all fns) (some rls)) s.db

  unfoldable pub list_filter_any : List FilterFunc → Store → Result (List Release)
  unfolding check any
  list_filter_any fns s = D.list (λ rls. check (any fns) (some rls)) s.db

  abbrev named : Bytes → Labels
  named name = (codes "NAME", name) ∷ (codes "OWNER", codes "TILLER") ∷ []

  abbrev named_deployed : Bytes → Labels
  named_deployed name =
      (codes "NAME", name)
      ∷ (codes "OWNER", codes "TILLER")
      ∷ (codes "STATUS", codes "DEPLOYED")
      ∷ []

  -- Storage.DeployedAll
  unfoldable pub deployed_all : Bytes → Store → Result (List Release)
  deployed_all name s = or_no_deployed name (D.query (named_deployed name) s.db)

  -- Storage.Deployed
  unfoldable pub deployed_release : Bytes → Store → Result Release
  unfolding deployed_all reverse_by sort_by_revision
  deployed_release name s = latest name (deployed_all name s)

  -- Storage.History
  unfoldable pub history : Bytes → Store → Result (List Release)
  history name s = D.query (named name) s.db

  -- Storage.Last
  unfoldable pub last : Bytes → Store → Result Release
  unfolding history reverse_by sort_by_revision
  last name s = bind (history name s) λ h. first (no_revision name) (reverse_by sort_by_revision h)

  abbrev pub with_error : List Error → Result Release → List Error
  with_error es (ok _) = es
  with_error es (err e) = es ++ e ∷ []

  -- The loop of removeLeastRecent over `deleteReleaseVersion`: it goes on after an error.
  unfoldable pub delete_all : Bytes → List Release → List Error → Store → List Error × Store
  unfolding delete
  delete_all name [] errors s = (errors, s)
  delete_all name (rel ∷ rels) errors s =
      let (r, s') = delete name rel.version s in delete_all name rels (with_error errors r) s'

  unfoldable pub prune : Bytes → ℕ → List Release → Release → Store → Result (Unit {0}) × Store
  unfolding delete_all to_delete summary sort_by_revision
  prune name max h last_deployed s =
      let victims = to_delete (length h) max last_deployed.version 0 (sort_by_revision h) in
      let (errors, s') = delete_all name victims [] s in (summary errors, s')

  abbrev pub prune_after : Bytes → ℕ → List Release → Result Release → Exec Store (Unit {0})
  prune_after name max h (err e) s = (err e, s)
  prune_after name max h (ok last_deployed) s = prune name max h last_deployed s

  abbrev pub prune_long : Bytes → ℕ → Result (List Release) → Exec Store (Unit {0})
  prune_long name max (err e) s = (err e, s)
  prune_long name max (ok h) s =
      if leb (length h) max then (ok tt, s) else prune_after name max h (deployed_release name s) s

  -- Storage.removeLeastRecent. `max` is a Go int, and not negative in the calls.
  unfoldable pub remove_least_recent : Bytes → ℕ → Exec Store (Unit {0})
  unfolding history deployed_release prune
  remove_least_recent name max s = prune_long name max (history name s) s

  abbrev pub make_room : Bytes → Store → Store
  make_room name s =
      if ltb 0 s.max_history then (remove_least_recent name (s.max_history - 1) s).1 else s

  -- Storage.Create: an error of the pruning is dropped.
  unfoldable pub create : Release → Exec Store (Unit {0})
  unfolding remove_least_recent make_key
  create rls s =
      let s' = make_room rls.name s in on_db (D.create (make_key rls.name rls.version) rls s'.db) s'
