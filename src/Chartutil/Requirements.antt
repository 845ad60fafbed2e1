-- ===== src/Chartutil/Requirements.antt =====
-- ProcessRequirementsTags and ProcessRequirementsConditions of pkg/chartutil/requirements.go: which
-- dependencies of a chart the values enable. A condition is the list of its runes.
pub mod Decisions
pub mod Laws
use helm.Common.{
  ℕ, Bytes, codes, Bool, true, false, if◌then◌else◌, Option, none, some, List, [], ◌∷◌, ◌++◌, ◌&&◌,
  ◌||◌, not,
}
use helm.Common.Text.{contains}
use helm.Common.Words.{trim_space, split1}
use helm.Chartutil.Value.{Value, Fields, bool, null, lookup}
use helm.Chartutil.Paths.{PathResult, found, no_value, zero_length, table_at, path_value}

-- Dependency, with the fields that are read here
pub record Dependency : Type 0 where
  pub name : Bytes
  pub condition : Bytes
  pub tags : List Bytes
  pub enabled : Bool

-- the paths of a condition
unfoldable pub condition_paths : Bytes → List Bytes
unfolding contains trim_space split1
condition_paths [] = []
condition_paths (c ∷ cond) =
    if contains (c ∷ cond) (codes ",")
    then split1 b',' (trim_space (c ∷ cond))
    else trim_space (c ∷ cond) ∷ []

-- What the value at a path says: a Boolean decides, no value or null is passed over, and the search
-- ends at any other value.
abbrev pub verdict : PathResult → Option Bool → Option Bool
verdict (found (bool b)) next = some b
verdict (found null) next = next
verdict (found v) next = none
verdict no_value next = next
verdict zero_length next = next

-- the loop over the paths of a condition
unfoldable pub decide : Fields → Bytes → List Bytes → Option Bool
unfolding path_value
decide cvals cpath [] = none
decide cvals cpath ([] ∷ conds) = decide cvals cpath conds
decide cvals cpath ((c ∷ s) ∷ conds) =
    verdict (path_value cvals (cpath ++ c ∷ s)) (decide cvals cpath conds)

abbrev pub enable : Option Bool → Dependency → Dependency
enable none r = r
enable (some b) r = record r { enabled = b }

abbrev pub process_condition : Fields → Bytes → Dependency → Dependency
process_condition cvals cpath r = enable (decide cvals cpath (condition_paths r.condition)) r

-- ProcessRequirementsConditions
unfoldable pub process_requirements_conditions : Fields → Bytes → List Dependency → List Dependency
unfolding decide condition_paths
process_requirements_conditions cvals cpath [] = []
process_requirements_conditions cvals cpath (r ∷ reqs) =
    process_condition cvals cpath r ∷ process_requirements_conditions cvals cpath reqs

abbrev pub is_bool : Bool → Option Value → Bool
is_bool true (some (bool true)) = true
is_bool false (some (bool false)) = true
is_bool b v = false

-- some tag has the value
unfoldable pub has_tag : Bool → Fields → List Bytes → Bool
unfolding lookup
has_tag b vt [] = false
has_tag b vt (k ∷ tags) = is_bool b (lookup k vt) || has_tag b vt tags

abbrev pub enable_by : Bool → Bool → Dependency → Dependency
enable_by has_true has_false r =
    if not has_true && has_false
    then record r { enabled = false }
    else (if has_true || (not has_true && not has_false) then record r { enabled = true } else r)

abbrev pub process_tags : Fields → Dependency → Dependency
process_tags vt r = elim r.tags [
  | [] ↦ r
  | k ∷ tags ↦ enable_by (has_tag true vt (k ∷ tags)) (has_tag false vt (k ∷ tags)) r
]

unfoldable pub process_all : Fields → List Dependency → List Dependency
unfolding has_tag
process_all vt [] = []
process_all vt (r ∷ reqs) = process_tags vt r ∷ process_all vt reqs

-- without a table `tags` nothing is done
abbrev pub process_tagged : Option Fields → List Dependency → List Dependency
process_tagged none reqs = reqs
process_tagged (some vt) reqs = process_all vt reqs

-- ProcessRequirementsTags
unfoldable pub process_requirements_tags : Fields → List Dependency → List Dependency
unfolding process_all table_at
process_requirements_tags cvals reqs = process_tagged (table_at cvals (codes "tags")) reqs
