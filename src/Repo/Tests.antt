-- ===== src/Repo/Tests.antt =====
-- The theorems on repositories, applied to a small index. A version is one digit, and a constraint
-- of one digit is met from there on.
use helm.Repo.Index.Greatest.{after, IsGreatest, get-IsGreatest}
use helm.Repo.Index.Merge.{Keeps}
use helm.Repo.Index.Union.{IsMerged, IsHad, merge-IsUnion}
use helm.Common.Sort.{IsWeakOrder}
use helm.Result.{Error, external, ok}
use helm.Common.{
  ltb, leb, Bytes, codes, All, List, [], ◌≡◌, ◌++◌, false, ℕ, Option, some, none, arith, ◌∷◌, refl,
}
use helm.Repo.Semver.{Semver}
use helm.Repo.Index.{get, ChartVersion, Entries, sort_entries, merge, entry}
use helm.Repo.Resolver.{there, Dependency, Files}

abbrev digit : Bytes → ℕ
digit (c ∷ []) = c
digit _ = 0

abbrev unreadable : Bytes → Option Error
unreadable (c ∷ []) = none
unreadable _ = some (external (codes "Invalid Semantic Version"))

abbrev digits : Semver
digits = record {
  version_error = unreadable;
  constraint_error = unreadable;
  less_than = λ v w. ltb (digit v) (digit w);
  check = λ c v. leb (digit c) (digit v);
}

abbrev chart : Bytes → ChartVersion
chart version = record {
  name = codes "web";
  version = version;
  urls = codes "http://charts" ∷ [];
  created = 1;
  removed = false;
  digest = [];
}

abbrev versions : List ChartVersion
versions = chart (codes "3") ∷ chart (codes "7") ∷ chart (codes "5") ∷ []

abbrev index : Entries
index = (codes "web", versions) ∷ []

abbrev other_index : Entries
other_index = (codes "web", chart (codes "9") ∷ chart (codes "5") ∷ []) ∷ []

merge-IsUnion_example :
    Keeps index (merge digits other_index index)
    × All (λ x. All (IsMerged digits (merge digits other_index index)) x.1) other_index
    × (All (λ x. All (IsHad digits index) x.1) other_index → merge digits other_index index ≡ index)
merge-IsUnion_example = merge-IsUnion digits other_index index

digits-IsWeakOrder : IsWeakOrder (after digits)
digits-IsWeakOrder = record { asym = λ a b h. ground arith; trans = λ a b c h k. ground arith }

get-IsGreatest_example :
    (cv : ChartVersion) × (get digits (codes "web") (codes "4") (sort_entries digits index) ≡ ok cv)
    × IsGreatest digits (codes "4") cv versions
unfolding entry
get-IsGreatest_example =
    get-IsGreatest digits digits-IsWeakOrder (codes "web") (codes "4") index versions refl
      (refl, (refl, (refl, tt))) refl (refl, (refl, (refl, tt))) λ h. cc

abbrev files : Files
files = record {
  stat = λ path. there;
  abs = λ path. ok path;
  join = λ a b. a ++ codes "/" ++ b;
  load_index = λ repository. ok index;
}

abbrev dependency : Bytes → Dependency
dependency version = record {
  name = codes "web";
  version = version;
  repository = codes "http://charts";
}
