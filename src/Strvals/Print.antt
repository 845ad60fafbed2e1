-- ===== src/Strvals/Print.antt =====
-- The text of `--set` for given paths and values, with special runes escaped, and what its parse by
-- pkg/strvals/parser.go is to give.
pub mod Runs
pub mod Parse
use helm.Common.{
  ℕ, Bytes, Bool, true, false, if◌then◌else◌, Option, none, some, List, [], ◌∷◌, ◌++◌,
}
use helm.Chartutil.Value.{Value, Fields, table, lookup, assign}
use helm.Strvals.Runes.{in_map, typed_val}
use helm.Strvals.Parser.{target_map}

-- the runes that end a key or a value, start a list, or escape another rune
abbrev pub special : ℕ → Bool
special c = in_map c (92 ∷ b'=' ∷ b'[' ∷ b',' ∷ b'.' ∷ b'{' ∷ [])

unfoldable pub escape : Bytes → Bytes
escape [] = []
escape (c ∷ s) = if special c then 92 ∷ c ∷ escape s else c ∷ escape s

-- a key that is not empty
abbrev pub Key : Type 0
Key = ℕ × Bytes

abbrev pub key_text : Key → Bytes
key_text (c, k) = c ∷ k

-- the keys before the last, the last, and the text of the value
pub record Entry : Type 0 where
  pub first : Key
  pub inner : List Key
  pub value : Bytes

unfoldable pub print_path : Key → List Key → Bytes → Bytes
print_path k [] v = escape (key_text k) ++ b'=' ∷ escape v
print_path k (q ∷ ps) v = escape (key_text k) ++ b'.' ∷ print_path q ps v

unfoldable pub print : List Entry → Bytes
print [] = []
print (e ∷ []) = print_path e.first e.inner e.value
print (e ∷ e' ∷ es) = print_path e.first e.inner e.value ++ b',' ∷ print (e' ∷ es)

abbrev pub nest : Key → Fields → Option Fields → Option Fields
nest k vals none = none
nest k vals (some fs) = some (assign (key_text k) (table fs) vals)

-- in the map of a key
abbrev pub under : Key → Fields → Option Fields → (Fields → Option Fields) → Option Fields
under k vals none next = none
under k vals (some fs) next = nest k vals (next fs)

-- The value under the path, through tables that are there or made new; nothing where a key of the
-- path has a value that is no table.
unfoldable pub put : Key → List Key → Value → Fields → Option Fields
put k [] v vals = some (assign (key_text k) v vals)
put k (q ∷ ps) v vals = under k vals (target_map (lookup (key_text k) vals)) (put q ps v)

abbrev pub continue : Option Fields → (Fields → Option Fields) → Option Fields
continue none next = none
continue (some vals) next = next vals

-- all entries, one after the other
unfoldable pub put_all : Bool → List Entry → Fields → Option Fields
put_all st [] vals = some vals
put_all st (e ∷ es) vals =
    continue (put e.first e.inner (typed_val e.value st) vals) (put_all st es)
