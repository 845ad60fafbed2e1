-- ===== src/Chartutil/Coalesce.antt =====
-- CoalesceValues and its helpers of pkg/chartutil/values.go: the values of a chart and of the charts
-- it depends on, under the values of a request. ReadValues, which parses YAML, is a parameter. A nil
-- map is `none`; where an error is returned, the map beside it is not kept.
pub mod Laws
use helm.Common.{
  Bytes, codes, Bool, true, false, if◌then◌else◌, Option, none, some, ◌++◌, [], ◌∷◌, List,
}
use helm.Common.Text.{eqb}
use helm.Result.{Error, Result, ok, err, external, bind}
use helm.Chartutil.Value.{Value, Items, Fields, null, table, end, field, lookup, assign}
use helm.Chartutil.Tables.{coalesce_tables}

-- what is read of a chart: its name, its values file, and its dependencies
mutual
  pub data Chart : Type 0 where
    chart : (name : Bytes) → (raw : Option Bytes) → (dependencies : Charts) → Chart

  pub data Charts : Type 0 where
    no_charts : Charts
    sub : Chart → Charts → Charts

abbrev pub chart_name : Chart → Bytes
chart_name (chart name raw deps) = name

abbrev pub global_key : Bytes
global_key = codes "global"

-- Go's panic on a write to a nil map
abbrev pub nil_map : Error
nil_map = external (codes "assignment to entry in nil map")

abbrev pub type_mismatch : Bytes → Error
type_mismatch name = external (codes "type mismatch on " ++ name)

-- the fields of a nil or a given map
abbrev pub entries : Option Fields → Fields
entries none = end
entries (some fs) = fs

-- the globals of the destination: none where they are no table
abbrev pub globals_of : Option Value → Option Fields
globals_of none = some end
globals_of (some (table g)) = some g
globals_of (some v) = none

-- coalesceGlobals: `dg`, which is nil, where the destination's globals are no table, and `dg` alone
-- where the source's are none
unfoldable pub coalesce_globals : Fields → Fields → Option Fields
coalesce_globals dest src = elim (globals_of (lookup global_key dest)) [
  | none ↦ none
  | some dg ↦ elim (globals_of (lookup global_key src)) [
    | none ↦ some dg
    | some sg ↦ some (assign global_key (table (coalesce_tables sg dg)) dest)
  ]
]

module _ (read_values : Bytes → Result Fields) where
  abbrev parsed : Option Fields → Result Fields → Result (Option Fields)
  parsed v (ok nv) = ok (some (coalesce_tables (entries v) nv))
  parsed v (err e) = err e

  -- coalesceValues, for the chart's values file
  unfoldable pub coalesce_values : Option Bytes → Option Fields → Result (Option Fields)
  coalesce_values none v = ok v
  coalesce_values (some []) v = ok v
  coalesce_values (some raw) v = parsed v (read_values raw)

  -- the subchart's part of `dest`, created where it is missing
  unfoldable pub claim : Bytes → Option Fields → Result (Fields × Fields)
  claim name none = err nil_map
  claim name (some dest) = elim (lookup name dest) [
    | none ↦ ok (end, assign name (table end) dest)
    | some v ↦ elim v [ table dv ↦ ok (dv, dest) | _ ↦ err (type_mismatch name) ]
  ]

  unfoldable mutual
    -- coalesce
    pub coalesce : Chart → Option Fields → Result (Option Fields)
    coalesce (chart name raw deps) dest = bind (coalesce_values raw dest) (coalesce_deps deps)

    -- coalesceDeps
    pub coalesce_deps : Charts → Option Fields → Result (Option Fields)
    coalesce_deps no_charts dest = ok dest
    coalesce_deps (sub c deps) dest = bind (claim (chart_name c) dest) λ (dv, dest').
        bind (coalesce c (coalesce_globals dv dest'))
          λ r. coalesce_deps deps (some (assign (chart_name c) (table (entries r)) dest'))

  -- CoalesceValues
  unfoldable pub coalesce_all : Chart → Option Bytes → Result (Option Fields)
  coalesce_all (chart name raw deps) none = coalesce_deps deps (some end)
  coalesce_all c (some vals) = bind (read_values vals) λ evals. coalesce c (some evals)
