-- ===== src/Storage/Store/History.antt =====
-- The release that Last and Deployed find.
use helm.Common.{Bytes, codes, Bool, true, false, if◌then◌else◌, List, [], ◌∷◌, ◌≡◌, refl, sym}
use helm.Release.{Release}
use helm.Result.{Result, ok, err, Error, no_revision, no_deployed, bind, mentions}
use helm.Releaseutil.Sorter.{reverse_by, sort_by_revision}
use helm.Releaseutil.Latest.{IsLatest, reverse_by-IsLatest, reverse_by-nil}
use helm.Storage.Driver.{Driver}
use helm.Common.Sort.{sort}
use helm.Storage.Store.{
  Store, first, history, deployed_all, last, deployed_release, latest, or_no_deployed,
}

-- The answer is the latest release of the history, the error where there is none, or the error of
-- the lookup.
abbrev pub IsLastOf : Error → Result (List Release) → Result Release → Type 0
IsLastOf missing (err e) x = x ≡ err e
IsLastOf missing (ok []) x = x ≡ err missing
IsLastOf missing (ok (q ∷ h)) x = (r : Release) × (x ≡ ok r) × IsLatest (q ∷ h) r

first-IsLastOf :
    (missing : Error) (h l : List Release)
    → reverse_by sort_by_revision h ≡ l
    → IsLastOf missing (ok h) (first missing l)
unfolding reverse_by sort_by_revision sort
first-IsLastOf missing [] l e = rw (sym e) (refl)
first-IsLastOf missing (q ∷ h) [] e = absurd (reverse_by-nil q h e)
first-IsLastOf missing (q ∷ h) (r ∷ rest) e = (r, refl, reverse_by-IsLatest (q ∷ h) rest r e)

module _ (D : Driver) (name : Bytes) (s : Store D) where
  last_of :
      (x : Result (List Release))
      → IsLastOf
          (no_revision name)
          x
          (bind x λ h. first (no_revision name) (reverse_by sort_by_revision h))
  last_of (err e) = refl
  last_of (ok h) = first-IsLastOf (no_revision name) h (reverse_by sort_by_revision h) refl

  -- `Last` returns the release of the greatest revision in the history of the name, an error where
  -- the history is empty, and the driver's error where it has one.
  pub last-IsLastOf : IsLastOf (no_revision name) (history D name s) (last D name s)
  unfolding last
  last-IsLastOf = last_of (history D name s)

  no_deployed_of :
      (b : Bool) (e : Error)
      → IsLastOf
          (no_deployed name)
          (if b then err (no_deployed name) else err e)
          (if b then err (no_deployed name) else err e)
  no_deployed_of true e = refl
  no_deployed_of false e = refl

  latest_of :
      (x : Result (List Release))
      → IsLastOf (no_deployed name) (or_no_deployed name x) (latest name x)
  latest_of (err e) = no_deployed_of (mentions (codes "not found") e) e
  latest_of (ok h) = first-IsLastOf (no_deployed name) h (reverse_by sort_by_revision h) refl

  -- `Deployed` returns the release of the greatest revision among the deployed ones of the name.
  -- Where there is none, also where the driver reports that by an error with "not found", the error
  -- says that the name has no deployed releases; any other error is the driver's.
  pub deployed_release-IsLastOf :
      IsLastOf
        (no_deployed name)
        (or_no_deployed name (deployed_all D name s))
        (deployed_release D name s)
  unfolding deployed_release
  deployed_release-IsLastOf = latest_of (deployed_all D name s)
