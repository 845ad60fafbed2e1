-- ===== src/Chartutil/Tables.antt =====
-- coalesceTables and MergeInto of pkg/chartutil/values.go.
pub mod Laws
use helm.Common.{Bytes, Bool, true, false, if◌then◌else◌, Option, none, some}
use helm.Chartutil.Value.{Value, Items, Fields, null, table, end, field, lookup, assign, is_null}

-- One round of the second loop of coalesceTables: what is in `dst` and not yet in `rv` is copied,
-- unless it is nil.
unfoldable pub copy_value : Bytes → Value → Fields → Fields
copy_value k v rv =
    if is_null v then rv else elim (lookup k rv) [ none ↦ assign k v rv | some w ↦ rv ]

unfoldable pub copy_rest : Fields → Fields → Fields
copy_rest end rv = rv
copy_rest (field k v dst) rv = copy_rest dst (copy_value k v rv)

unfoldable mutual
  -- the first loop of coalesceTables, over the source
  pub coalesce_source : Fields → Fields → Fields → Fields
  coalesce_source dst end rv = rv
  coalesce_source dst (field k v src) rv =
      coalesce_source dst src (coalesce_value k (lookup k dst) v rv)

  -- one round: `rv[key]` for the value in `dst`, if any, and the value in the source
  pub coalesce_value : Bytes → Option Value → Value → Fields → Fields
  coalesce_value k none v rv = assign k v rv
  coalesce_value k (some null) v rv = rv
  coalesce_value k (some (table d)) (table s) rv =
      assign k (table (copy_rest d (coalesce_source d s end))) rv
  coalesce_value k (some w) v rv = assign k w rv

-- coalesceTables
unfoldable pub coalesce_tables : Fields → Fields → Fields
coalesce_tables dst src = copy_rest dst (coalesce_source dst src end)

unfoldable mutual
  -- MergeInto, on `dst`
  pub merge_into : Fields → Fields → Fields
  merge_into dst end = dst
  merge_into dst (field k v src) = merge_into (merge_value k (lookup k dst) v dst) src

  -- one round, for what `dst` has of the key
  pub merge_value : Bytes → Option Value → Value → Fields → Fields
  merge_value k (some (table d)) (table s) dst = assign k (table (merge_into d s)) dst
  merge_value k _ v dst = assign k v dst
