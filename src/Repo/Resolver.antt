-- ===== src/Repo/Resolver.antt =====
-- pkg/resolver/resolver.go: the versions that the dependencies of a chart are locked to.
use helm.Repo.Index.{ChartVersion, Entries, entry, satisfies}
pub mod Locks
use helm.Common.Text.{has_prefix}
use helm.Kube.Api.{wrap}
use helm.Result.{Error, external, quote, message, Result, ok, err, bind}
use helm.Common.{
  if◌then◌else◌, Bytes, codes, ◌++◌, List, ◌&&◌, true, none, Bool, some, [], Option, false, ◌∷◌,
  not,
}
use helm.Repo.Semver.{Semver}

-- chartutil.Dependency; the conditions, tags and values of a dependency are not read here
pub record Dependency : Type 0 where
  pub name : Bytes
  pub version : Bytes
  pub repository : Bytes

-- chartutil.RequirementsLock, without its time
pub record RequirementsLock : Type 0 where
  pub digest : Bytes
  pub dependencies : List Dependency

-- os.Stat: an entry, none, or another error
pub data Stat : Type 0 where
  there not_exist : Stat
  stat_error : Error → Stat

-- The file system, the libraries, and what is in the helm home.
pub record Files : Type 0 where
  pub stat : Bytes → Stat
  -- filepath.Abs and filepath.Join
  pub abs : Bytes → Result Bytes
  pub join : Bytes → Bytes → Bytes
  -- repo.LoadIndexFile of the cached index of a repository: its entries
  pub load_index : Bytes → Result Entries

abbrev pub file_scheme : Bytes
file_scheme = codes "file://"

-- strings.TrimPrefix
unfoldable pub trim_prefix : Bytes → Bytes → Bytes
trim_prefix [] s = s
trim_prefix (p ∷ ps) [] = []
trim_prefix (p ∷ ps) (c ∷ s) = if has_prefix (c ∷ s) (p ∷ ps) then trim_both ps s else c ∷ s
  where
    trim_both : Bytes → Bytes → Bytes
    trim_both [] s = s
    trim_both (p ∷ ps) [] = []
    trim_both (p ∷ ps) (c ∷ s) = trim_both ps s

module _ (files : Files) (semver : Semver) (chartpath : Bytes) (repo_names : Bytes → Bytes) where
  abbrev pub stat_path : Bytes → Stat → Result Bytes
  stat_path path there = ok path
  stat_path path not_exist = err (external (codes "directory " ++ (path ++ codes " not found")))
  stat_path path (stat_error e) = err e

  -- GetLocalPath
  unfoldable pub get_local_path : Bytes → Result Bytes
  unfolding has_prefix trim_prefix
  get_local_path repo =
      let p = trim_prefix file_scheme repo in
      bind (if has_prefix p (codes "/") then files.abs p else ok (files.join chartpath p))
        λ path. stat_path path (files.stat path)

  abbrev pub has_url : ChartVersion → Bool
  has_url cv = elim cv.urls [ [] ↦ false | u ∷ us ↦ true ]

  -- an entry that is legitimate and meets the constraint
  abbrev pub is_usable : Bytes → ChartVersion → Bool
  is_usable constraint cv = has_url cv && satisfies semver constraint cv

  unfoldable pub first_version : Bytes → List ChartVersion → Option Bytes
  first_version constraint [] = none
  first_version constraint (cv ∷ vs) =
      let rest = first_version constraint vs in
      if is_usable constraint cv then some cv.version else rest

  -- A dependency is locked, or misses a version.
  pub data Locked : Type 0 where
    locked : Dependency → Locked
    missing : Locked

  abbrev pub version_locked : Dependency → Option Bytes → Locked
  version_locked d none = missing
  version_locked d (some v) = locked (record d { version = v })

  abbrev pub lock_entries : Dependency → Option (List ChartVersion) → Result Locked
  lock_entries d none =
      err (external (d.name ++ (codes " chart not found in repo " ++ d.repository)))
  lock_entries d (some vs) = ok (version_locked d (first_version d.version vs))

  abbrev pub lock_cached : Dependency → Bytes → Result Locked
  lock_cached d [] = ok (locked d)
  lock_cached d (c ∷ cache) =
      bind
        (wrap (codes "no cached repo found. (try 'helm repo update'). ")
          (files.load_index (c ∷ cache)))
        λ es. lock_entries d (entry d.name es)

  abbrev pub lock_constrained : Dependency → Option Error → Result Locked
  lock_constrained d (some e) = err (
      external (
        codes "dependency "
        ++ (quote d.name ++ (codes " has an invalid version/constraint format: " ++ message e))))
  lock_constrained d none = lock_cached d (repo_names d.name)

  abbrev pub lock_in : Dependency → Bytes → Result Locked
  lock_in d [] = bind (get_local_path (files.join (codes "charts") d.name)) λ p. ok (locked d)
  lock_in d (c ∷ repository) =
      if has_prefix (c ∷ repository) file_scheme
      then bind (get_local_path (c ∷ repository)) (λ p. ok (locked d))
      else lock_constrained d (semver.constraint_error d.version)

  -- one round of the loop
  unfoldable pub lock_one : Dependency → Result Locked
  unfolding has_prefix get_local_path entry first_version
  lock_one d = lock_in d d.repository

  abbrev pub with_locked :
      Dependency → Locked → List Dependency × List Bytes → List Dependency × List Bytes
  with_locked d (locked l) (ls, ms) = (l ∷ ls, ms)
  with_locked d missing (ls, ms) = (d ∷ ls, d.name ∷ ms)

  -- the dependencies as they are locked, and the names of those without a version
  unfoldable pub lock_all : List Dependency → Result (List Dependency × List Bytes)
  unfolding lock_one
  lock_all [] = ok ([], [])
  lock_all (d ∷ ds) =
      let rest = lock_all ds in bind (lock_one d) λ l. bind rest λ x. ok (with_locked d l x)

  -- strings.Join(missing, ", ")
  unfoldable pub join_names : List Bytes → Bytes
  join_names [] = []
  join_names (n ∷ []) = n
  join_names (n ∷ m ∷ ms) = n ++ (codes ", " ++ join_names (m ∷ ms))

  abbrev pub verdict : Bytes → List Dependency × List Bytes → Result RequirementsLock
  verdict digest (ls, []) = ok (record { digest = digest; dependencies = ls })
  verdict digest (ls, m ∷ ms) = err (
      external (
        codes "Can't get a valid version for repositories "
        ++ (join_names (m ∷ ms)
            ++ codes ". Try changing the version constraint in requirements.yaml")))

  -- Resolver.Resolve
  unfoldable pub resolve : List Dependency → Bytes → Result RequirementsLock
  unfolding lock_all join_names
  resolve reqs digest = bind (lock_all reqs) (verdict digest)
