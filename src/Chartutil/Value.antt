-- ===== src/Chartutil/Value.antt =====
-- The values of a chart, as YAML is read into Go (Values and interface{} of
-- pkg/chartutil/values.go), and Go's operations on them as maps. A map is the list of its entries,
-- and iteration takes the order of that list.
use helm.Common.{
  Bytes, Bool, true, false, if◌then◌else◌, Option, none, some, ◌≡◌, refl, arith, Bool-cases, inl,
  inr,
}
use helm.Common.Text.{eqb, eqb_iff}

mutual
  pub data Value : Type 0 where
    null : Value
    bool : Bool → Value
    -- a number by its decimal text
    number : Bytes → Value
    text : Bytes → Value
    list : Items → Value
    -- a `map[string]interface{}`, and one of the named type `Values`
    table : Fields → Value
    values : Fields → Value

  pub data Items : Type 0 where
    nil : Items
    cons : Value → Items → Items

  pub data Fields : Type 0 where
    end : Fields
    field : Bytes → Value → Fields → Fields

-- `fs[k]`
unfoldable pub lookup : Bytes → Fields → Option Value
lookup k end = none
lookup k (field k' v fs) = if eqb k' k then some v else lookup k fs

-- `fs[k] = v`
unfoldable pub assign : Bytes → Value → Fields → Fields
assign k v end = field k v end
assign k v (field k' v' fs) =
    let rest = assign k v fs in if eqb k' k then field k' v fs else field k' v' rest

-- istable
abbrev pub istable : Value → Bool
istable (table fs) = true
istable _ = false

-- `v == nil`
abbrev pub is_null : Value → Bool
is_null null = true
is_null _ = false

abbrev pub or_else : Option Value → Option Value → Option Value
or_else none y = y
or_else (some v) y = some v

pub lookup-assign :
    (k k' : Bytes) (v : Value) (fs : Fields)
    → lookup k' (assign k v fs) ≡ (if eqb k k' then some v else lookup k' fs)
unfolding lookup assign
lookup-assign k k' v end = refl
lookup-assign k k' v (field j w fs) =
    ground (arith, lookup-assign k k' v fs, eqb_iff j k, eqb_iff k k', eqb_iff j k')

-- No key stands twice: what every Go map has.
unfoldable pub Distinct : Fields → Type 0
Distinct end = Unit
Distinct (field k v fs) = (lookup k fs ≡ none) × Distinct fs

assign-fresh :
    (k j : Bytes) (v : Value) (fs : Fields)
    → lookup j fs ≡ none
    → eqb j k ≡ false
    → lookup j (assign k v fs) ≡ none
assign-fresh k j v fs h e =
    let ne : eqb k j ≡ false = ground (arith, eqb_iff k j, eqb_iff j k) in
    rw (lookup-assign k j v fs, ne) h

pub assign-Distinct : (k : Bytes) (v : Value) (fs : Fields) → Distinct fs → Distinct (assign k v fs)
unfolding assign Distinct lookup
assign-Distinct k v end h = (refl, tt)
assign-Distinct k v (field j w fs) (fresh, h) = elim (Bool-cases (eqb j k)) [
  | inl e ↦ rw e (fresh, h)
  | inr e ↦ rw e (assign-fresh k j v fs fresh e, assign-Distinct k v fs h)
]
