-- ===== src/Repo/Resolver/Locks.antt =====
-- Resolve of pkg/resolver/resolver.go: what the dependencies are locked to.
use helm.Repo.Index.{ChartVersion, Entries, entry}
use helm.Common.Text.{has_prefix}
use helm.Result.{Result, ok, err}
use helm.Common.{Bytes, All, ◌⊎◌, some, List, [], ◌∷◌, ◌++◌, Bool, ◌≡◌, false, true}
use helm.Repo.Semver.{Semver}
use helm.Repo.Resolver.{locked, missing, Files, file_scheme, is_usable, Locked, Dependency}

module _ (files : Files) (semver : Semver) (chartpath : Bytes) (repo_names : Bytes → Bytes) where
  abbrev usable : Bytes → ChartVersion → Bool
  usable = is_usable files semver chartpath repo_names

  -- the version is that of the first entry with a URL that meets the constraint
  abbrev pub IsFirst : Bytes → List ChartVersion → Bytes → Type 0
  IsFirst constraint vs v =
      (before after : List ChartVersion) × (cv : ChartVersion) × (vs ≡ before ++ cv ∷ after)
      × All (λ w. usable constraint w ≡ false) before
      × (usable constraint cv ≡ true)
      × (cv.version ≡ v)

  -- The version wanted is not looked up: the repository is local, or has no cache.
  abbrev pub IsUnresolved : Dependency → Type 0
  IsUnresolved d =
      (d.repository ≡ [])
      ⊎ ((has_prefix d.repository file_scheme ≡ true) ⊎ (repo_names d.name ≡ []))

  -- A lock keeps the name and the repository of a dependency. Its version is the wanted one, where
  -- the repository is local or has no cache; or the first that is usable in the cached index.
  abbrev pub IsLockOf : Dependency → Dependency → Type 0
  IsLockOf d l =
      (l.name ≡ d.name)
      × (l.repository ≡ d.repository)
      × (((l.version ≡ d.version) × IsUnresolved d)
          ⊎ ((es : Entries) × (vs : List ChartVersion) × (files.load_index (repo_names d.name)
                ≡ ok es)
              × (entry d.name es ≡ some vs)
              × IsFirst d.version vs l.version))

  abbrev pub AllLockOf : List Dependency → List Dependency → Type 0
  AllLockOf [] [] = Unit
  AllLockOf (d ∷ ds) (l ∷ ls) = IsLockOf d l × AllLockOf ds ls
  AllLockOf _ _ = ⊥

  -- the lock of one dependency, if there is one
  abbrev IsLockedAs : Dependency → Locked files semver chartpath repo_names → Type 0
  IsLockedAs d (locked l) = IsLockOf d l
  IsLockedAs d missing = Unit

  abbrev Locks : Dependency → Result (Locked files semver chartpath repo_names) → Type 0
  Locks d (ok l) = IsLockedAs d l
  Locks d (err e) = Unit

  -- the locks that are right where none is missing
  abbrev AllLocked : List Dependency → Result (List Dependency × List Bytes) → Type 0
  AllLocked ds (ok (ls, ms)) = ms ≡ [] → AllLockOf ds ls
  AllLocked ds (err e) = Unit
