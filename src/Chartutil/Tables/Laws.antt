-- ===== src/Chartutil/Tables/Laws.antt =====
-- What coalesceTables and MergeInto of pkg/chartutil/values.go leave under each key.
use helm.Common.{Bytes, if◌then◌else◌, Option, none, some, ◌≡◌, refl, arith, sym}
use helm.Common.Text.{eqb, eqb_iff}
use helm.Chartutil.Value.{
  Value, Fields, null, table, end, field, lookup, Distinct, lookup-assign, is_null,
}
use helm.Chartutil.Tables.{
  coalesce_tables, coalesce_source, coalesce_value, copy_rest, merge_into, merge_value, copy_value,
}

-- What the documentation of CoalesceValues says of one key: a value of the destination wins, tables
-- are coalesced, and null in the destination removes the key.
abbrev pub coalesced : Option Value → Option Value → Option Value
coalesced none y = y
coalesced (some null) y = none
coalesced (some (table d)) (some (table s)) = some (table (coalesce_tables d s))
coalesced (some w) y = some w

-- a value of the destination as the second loop sees it
abbrev kept : Option Value → Option Value
kept none = none
kept (some w) = if is_null w then none else some w

abbrev or_else : Option Value → Option Value → Option Value
or_else none y = y
or_else (some w) y = some w

lookup-copy_value :
    (k j : Bytes) (v : Value) (rv : Fields)
    → lookup k (copy_value j v rv) ≡ or_else (lookup k rv) (if eqb j k then kept (some v) else none)
unfolding copy_value
lookup-copy_value k j v rv = ground (arith, lookup-assign j k v rv, eqb_iff j k)

lookup-copy_rest :
    (k : Bytes) (dst rv : Fields)
    → Distinct dst
    → lookup k (copy_rest dst rv) ≡ or_else (lookup k rv) (kept (lookup k dst))
unfolding lookup copy_rest Distinct
lookup-copy_rest k end rv h = ground arith
lookup-copy_rest k (field j v dst) rv (fresh, h) =
    ground
      (arith, lookup-copy_rest k dst (copy_value j v rv) h, lookup-copy_value k j v rv, eqb_iff j k)

lookup-coalesce_value :
    (k j : Bytes) (d : Option Value) (v : Value) (rv : Fields)
    → lookup k (coalesce_value j d v rv)
      ≡ (if eqb j k then or_else (coalesced d (some v)) (lookup k rv) else lookup k rv)
unfolding coalesce_value coalesce_tables
lookup-coalesce_value k j none v rv = lookup-assign j k v rv
lookup-coalesce_value k j (some null) v rv = ground arith
lookup-coalesce_value k j (some (table d)) (table s) rv = lookup-assign j k _ rv
lookup-coalesce_value k j (some w) v rv = lookup-assign j k _ rv

abbrev round : Option Value → Option Value → Option Value → Option Value
round d none r = r
round d (some v) r = or_else (coalesced d (some v)) r

lookup-coalesce_source :
    (k : Bytes) (dst src rv : Fields)
    → Distinct src
    → lookup k (coalesce_source dst src rv) ≡ round (lookup k dst) (lookup k src) (lookup k rv)
unfolding lookup coalesce_source Distinct
lookup-coalesce_source k dst end rv h = refl
lookup-coalesce_source k dst (field j v src) rv (fresh, h) = ground (
  arith,
  lookup-coalesce_source k dst src (coalesce_value j (lookup j dst) v rv) h,
  lookup-coalesce_value k j (lookup j dst) v rv,
  eqb_iff j k,
)

round-kept : (d s : Option Value) → or_else (round d s none) (kept d) ≡ coalesced d s
round-kept none none = refl
round-kept none (some v) = refl
round-kept (some null) s = ground arith
round-kept (some (table d)) none = refl
round-kept (some (table d)) (some (table s)) = refl
round-kept (some (table d)) (some v) = refl
round-kept (some w) s = ground arith

pub lookup-coalesce_tables :
    (k : Bytes) (dst src : Fields)
    → Distinct dst
    → Distinct src
    → lookup k (coalesce_tables dst src) ≡ coalesced (lookup k dst) (lookup k src)
unfolding coalesce_tables lookup
lookup-coalesce_tables k dst src hd hs = cc (
  lookup-copy_rest k dst (coalesce_source dst src end) hd,
  lookup-coalesce_source k dst src end hs,
  round-kept (lookup k dst) (lookup k src),
)

-- What is found after MergeInto: the source wins, and tables are merged.
abbrev pub merged : Option Value → Option Value → Option Value
merged d none = d
merged (some (table d)) (some (table s)) = some (table (merge_into d s))
merged d (some v) = some v

lookup-merge_value :
    (k j : Bytes) (d : Option Value) (v : Value) (dst : Fields)
    → lookup k (merge_value j d v dst) ≡ (if eqb j k then merged d (some v) else lookup k dst)
unfolding merge_value
lookup-merge_value k j none v dst = lookup-assign j k _ dst
lookup-merge_value k j (some (table d)) (table s) dst = lookup-assign j k _ dst
lookup-merge_value k j (some w) v dst = lookup-assign j k _ dst

merged-none : (d : Option Value) → merged d none ≡ d
merged-none none = refl
merged-none (some v) = ground arith

pub lookup-merge_into :
    (k : Bytes) (dst src : Fields)
    → Distinct src
    → lookup k (merge_into dst src) ≡ merged (lookup k dst) (lookup k src)
unfolding lookup merge_into Distinct
lookup-merge_into k dst end h = sym (merged-none (lookup k dst))
lookup-merge_into k dst (field j v src) (fresh, h) = ground (
  arith,
  lookup-merge_into k (merge_value j (lookup j dst) v dst) src h,
  lookup-merge_value k j (lookup j dst) v dst,
  eqb_iff j k,
)
