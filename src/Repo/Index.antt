-- ===== src/Repo/Index.antt =====
-- pkg/repo/index.go: the index of a chart repository. Its entries are a map, as an association
-- list with distinct names. Of the metadata of a chart only the name and the version are read.

pub mod Merge
pub mod Union
pub mod Greatest
use helm.Common.Sort.{sort}
use helm.Common.Text.{eqb}
use helm.Result.{Error, external, Result, ok, err}
use helm.Release.{Timestamp}
use helm.Common.{
  if◌then◌else◌, Bytes, codes, ◌++◌, false, ◌∷◌, List, Option, true, none, some, [], ◌&&◌, Bool,
  not,
}
use helm.Repo.Semver.{Semver}

pub record ChartVersion : Type 0 where
  pub name : Bytes
  pub version : Bytes
  pub urls : List Bytes
  pub created : Timestamp
  pub removed : Bool
  pub digest : Bytes

abbrev pub Entries : Type 0
Entries = List (Bytes × List ChartVersion)

-- `i.Entries[name]`
unfoldable pub entry : Bytes → Entries → Option (List ChartVersion)
unfolding eqb
entry name [] = none
entry name ((n, vs) ∷ es) = let rest = entry name es in if eqb n name then some vs else rest

-- nil for a missing name
abbrev pub or_nil : Option (List ChartVersion) → List ChartVersion
or_nil none = []
or_nil (some vs) = vs

-- `i.Entries[name] = append(i.Entries[name], cv)`
unfoldable pub append_entry : Bytes → ChartVersion → Entries → Entries
unfolding eqb
append_entry name cv [] = (name, cv ∷ []) ∷ []
append_entry name cv ((n, vs) ∷ es) =
    let rest = append_entry name cv es in
    if eqb n name then (n, vs ++ cv ∷ []) ∷ es else (n, vs) ∷ rest

-- The libraries that Add uses: filepath.Split (the file), urlutil.URLJoin and path.Join.
pub record Paths : Type 0 where
  pub split_file : Bytes → Bytes
  pub url_join : Bytes → Bytes → Option Bytes
  pub path_join : Bytes → Bytes → Bytes

abbrev pub joined_url : Paths → Bytes → Bytes → Option Bytes → Bytes
joined_url paths base file none = paths.path_join base file
joined_url paths base file (some u) = u

-- the URL of a file
unfoldable pub url_of : Paths → Bytes → Bytes → Bytes
url_of paths filename [] = filename
url_of paths filename (c ∷ base) =
    let file = paths.split_file filename in
    joined_url paths (c ∷ base) file (paths.url_join (c ∷ base) file)

-- IndexFile.Add, for the name and the version of the metadata, at a time
unfoldable pub add :
    Paths → Timestamp → (name version filename base_url digest : Bytes) → Entries → Entries
unfolding append_entry url_of
add paths now name version filename base_url digest es =
    append_entry name
      (record {
        name = name;
        version = version;
        urls = url_of paths filename base_url ∷ [];
        created = now;
        removed = false;
        digest = digest;
      })
      es

abbrev pub err_no_chart_version : Error
err_no_chart_version = external (codes "no chart version found")

abbrev pub err_no_chart_name : Error
err_no_chart_name = external (codes "no chart name found")

-- the first entry with the version itself, unless it is empty
unfoldable pub exact : Bytes → List ChartVersion → Option ChartVersion
unfolding eqb
exact [] vs = none
exact (c ∷ version) [] = none
exact (c ∷ version) (cv ∷ vs) =
    let rest = exact (c ∷ version) vs in if eqb (c ∷ version) cv.version then some cv else rest

module _ (semver : Semver) where
  abbrev pub is_some_error : Option Error → Bool
  is_some_error none = false
  is_some_error (some e) = true

  -- ChartVersions.Less
  unfoldable pub less : ChartVersion → ChartVersion → Bool
  less a b =
      if is_some_error (semver.version_error a.version)
      then true
      else (if is_some_error (semver.version_error b.version)
          then false
          else semver.less_than a.version b.version)

  -- sort.Sort(sort.Reverse(versions))
  unfoldable pub sort_versions : List ChartVersion → List ChartVersion
  unfolding less sort
  sort_versions vs = sort (λ a b. less b a) vs

  -- IndexFile.SortEntries
  unfoldable pub sort_entries : Entries → Entries
  unfolding sort_versions
  sort_entries [] = []
  sort_entries ((n, vs) ∷ es) = (n, sort_versions vs) ∷ sort_entries es

  -- a version that can be read and meets the constraint
  abbrev pub satisfies : Bytes → ChartVersion → Bool
  satisfies constraint cv =
      not (is_some_error (semver.version_error cv.version)) && semver.check constraint cv.version

  unfoldable pub first_satisfying : Bytes → List ChartVersion → Option ChartVersion
  first_satisfying constraint [] = none
  first_satisfying constraint (cv ∷ vs) =
      let rest = first_satisfying constraint vs in if satisfies constraint cv then some cv else rest

  -- the constraint of a version, where the empty one takes all
  abbrev pub constraint_of : Bytes → Bytes
  constraint_of [] = codes "*"
  constraint_of (c ∷ version) = c ∷ version

  -- the error of the constraint; that of "*" is dropped
  abbrev pub constraint_failure : Bytes → Option Error
  constraint_failure [] = none
  constraint_failure (c ∷ version) = semver.constraint_error (c ∷ version)

  abbrev pub chosen :
      Bytes → Bytes → Option ChartVersion → Option ChartVersion → Result ChartVersion
  chosen name version (some cv) _ = ok cv
  chosen name version none (some cv) = ok cv
  chosen name version none none =
      err (external (codes "No chart version found for " ++ (name ++ (codes "-" ++ version))))

  abbrev pub get_checked : Bytes → Bytes → List ChartVersion → Option Error → Result ChartVersion
  get_checked name version vs (some e) = err e
  get_checked name version vs none =
      chosen name version (exact version vs) (first_satisfying (constraint_of version) vs)

  abbrev pub get_among : Bytes → Bytes → Option (List ChartVersion) → Result ChartVersion
  get_among name version none = err err_no_chart_name
  get_among name version (some []) = err err_no_chart_version
  get_among name version (some (cv ∷ vs)) =
      get_checked name version (cv ∷ vs) (constraint_failure version)

  -- IndexFile.Get
  unfoldable pub get : Bytes → Bytes → Entries → Result ChartVersion
  unfolding entry exact first_satisfying
  get name version es = get_among name version (entry name es)

  abbrev pub succeeded : Result ChartVersion → Bool
  succeeded (ok cv) = true
  succeeded (err e) = false

  -- IndexFile.Has
  unfoldable pub has : Bytes → Bytes → Entries → Bool
  unfolding get
  has name version es = succeeded (get name version es)

  -- one round of Merge
  unfoldable pub merge_one : ChartVersion → Entries → Entries
  unfolding has append_entry
  merge_one cv es = if not (has cv.name cv.version es) then append_entry cv.name cv es else es

  unfoldable pub merge_versions : List ChartVersion → Entries → Entries
  unfolding merge_one
  merge_versions [] es = es
  merge_versions (cv ∷ cvs) es = merge_versions cvs (merge_one cv es)

  -- IndexFile.Merge: the entries of an index, into another's
  unfoldable pub merge : Entries → Entries → Entries
  unfolding merge_versions
  merge [] es = es
  merge ((n, cvs) ∷ f) es = merge f (merge_versions cvs es)
