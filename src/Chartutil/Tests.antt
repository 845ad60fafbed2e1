-- ===== src/Chartutil/Tests.antt =====
-- Runs of the coalescing and of the paths on small values, and the laws at them.
use helm.Common.Text.{eqb}
use helm.Common.{
  Bytes, codes, if◌then◌else◌, ◌==◌, Option, none, some, List, [], ◌∷◌, ◌≡◌, refl, ◌≢◌, false,
}
use helm.Result.{Result, ok, err, external}
use helm.Common.Words.{split1, join1, is_space}
use helm.Chartutil.Requirements.{
  Dependency, process_requirements_conditions, process_requirements_tags, decide, condition_paths,
  has_tag,
}
use helm.Common.{map, true, false}
use helm.Chartutil.Value.{bool, Fields, null, text, table, end, field, lookup, Distinct, assign}
use helm.Chartutil.Tables.{coalesce_tables, merge_into, copy_rest, copy_value, coalesce_source}
use helm.Chartutil.Tables.Laws.{coalesced}
use helm.Chartutil.Coalesce.{
  Chart, chart, no_charts, sub, coalesce_all, coalesce_globals, entries, global_key, coalesce,
  coalesce_values, claim,
}
use helm.Chartutil.Coalesce.Laws.{coalesce_all-lookup, coalesce_globals-lookup}
use helm.Chartutil.Paths.{
  path_value, found, no_value, table_at, descend, initial, table_lookup, last,
}
use helm.Chartutil.Paths.Laws.{follow, path_value-join1, lacks}

abbrev a_key : Bytes
a_key = codes "a"

abbrev b_key : Bytes
b_key = codes "b"

abbrev inner : Fields
inner = field b_key (text (codes "x")) end

abbrev user : Fields
user = field a_key (table inner) (field b_key null end)

abbrev defaults : Fields
defaults =
    field a_key (table (field (codes "c") (text (codes "y")) end))
      (field b_key (text (codes "z")) (field (codes "d") (text (codes "w")) end))

-- the values file "d" and the request "u" are parsed to these
abbrev read_values : Bytes → Result Fields
read_values [] = err (external (codes "empty"))
read_values (c ∷ s) = if c == b'u' then ok user else (if c == b's' then ok inner else ok defaults)

abbrev parent : Chart
parent =
    chart (codes "p") (some (codes "d"))
      (sub (chart (codes "s") (some (codes "s")) no_charts) no_charts)

merge_into_run : lookup b_key (merge_into defaults user) ≡ some null
unfolding lookup merge_into eqb assign
merge_into_run = refl

-- A subchart whose globals are no table gets none of the values meant for it.
coalesce_globals_run : coalesce_globals (field global_key (text (codes "x")) inner) user ≡ none
unfolding coalesce_globals lookup eqb
coalesce_globals_run = refl

path_value_run : path_value user (codes "a.b") ≡ found (text (codes "x"))
unfolding path_value split1 table_at descend join1 initial table_lookup lookup eqb last
path_value_run = refl

path_value_table : path_value user (codes "a") ≡ no_value
unfolding path_value split1 lookup eqb
path_value_table = refl

user-Distinct : Distinct user
unfolding Distinct lookup eqb
user-Distinct = (refl, (refl, tt))

defaults-Distinct : Distinct defaults
unfolding Distinct lookup eqb
defaults-Distinct = (refl, (refl, (refl, tt)))

a_key-Unclaimed : eqb (codes "s") a_key ≡ false
unfolding eqb
a_key-Unclaimed = refl

abbrev coalesced_run : Option Fields
coalesced_run = some (
    field a_key (table (field (codes "c") (text (codes "y")) inner)) (
      field (codes "d") (text (codes "w")) (
        field (codes "s")
          (table (field b_key (text (codes "x")) (field global_key (table end) end))) end)))

coalesce_all_ok : coalesce_all read_values parent (some (codes "u")) ≡ ok coalesced_run
unfolding coalesce_all coalesce coalesce_values claim lookup coalesce_tables copy_rest copy_value
    coalesce_source eqb assign coalesce_globals
coalesce_all_ok = refl

coalesce_all-lookup_example :
    lookup a_key (entries coalesced_run) ≡ coalesced (lookup a_key user) (lookup a_key defaults)
coalesce_all-lookup_example =
    coalesce_all-lookup read_values (codes "p") b'd' [] (codes "u")
      (sub (chart (codes "s") (some (codes "s")) no_charts) no_charts) user defaults coalesced_run
      a_key refl refl user-Distinct defaults-Distinct (a_key-Unclaimed, tt) coalesce_all_ok

joined-filled : join1 b'.' (a_key ∷ b_key ∷ []) ≢ []
unfolding join1
joined-filled h = cc

path_value-join1_example :
    path_value user (join1 b'.' (a_key ∷ b_key ∷ [])) ≡ follow user a_key (b_key ∷ [])
unfolding lacks
path_value-join1_example = path_value-join1 user a_key (b_key ∷ []) (refl, (refl, tt)) joined-filled

coalesce_globals-lookup_example :
    (fs : Fields) × (coalesce_globals inner (field global_key (table user) end) ≡ some fs)
    × ((k : Bytes) → eqb global_key k ≡ false → lookup k fs ≡ lookup k inner)
    × ((g : Fields) × (lookup global_key fs ≡ some (table g))
        × ((k : Bytes) → lookup k g ≡ coalesced (lookup k user) (lookup k end)))
unfolding lookup eqb Distinct
coalesce_globals-lookup_example =
    coalesce_globals-lookup inner (field global_key (table user) end) end user refl refl tt
      user-Distinct

abbrev switches : Fields
switches =
    field (codes "tags") (table (field (codes "front") (bool false) end))
      (field (codes "web") (table (field (codes "enabled") (bool true) end)) end)

abbrev dependencies : List Dependency
dependencies =
    (record {
      name = codes "web";
      condition = codes "web.enabled";
      tags = codes "front" ∷ [];
      enabled = true;
    })
    ∷ (record { name = codes "db"; condition = []; tags = codes "front" ∷ []; enabled = true })
    ∷ []

enabled_run :
    map
      (λ r. r.enabled)
      (process_requirements_conditions switches []
        (process_requirements_tags switches dependencies))
    ≡ true ∷ false ∷ []
unfolding decide condition_paths is_space table_at descend join1 table_lookup initial lookup eqb
    last has_tag process_requirements_conditions process_requirements_tags
enabled_run = refl
