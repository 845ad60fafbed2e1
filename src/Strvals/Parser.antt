-- ===== src/Strvals/Parser.antt =====
-- The parser of pkg/strvals/parser.go: key and listItem, which call each other, and the loop of
-- parse. A step gives its error, what is left of the text, and the map or list after it; after a
-- panic or an error the parse ends. The fuel is for nested calls: parse gives one more than the
-- length of the text.
pub mod Reads
pub mod Fuel
use helm.Common.{
  ℕ, zero, suc, Bytes, codes, Bool, true, false, if◌then◌else◌, Option, none, some, List, [], ◌∷◌,
  ◌==◌, ltb, ◌&&◌, length,
}
use helm.Chartutil.Value.{
  Value, Items, Fields, null, text, list, table, nil, end, field, lookup, assign,
}
use helm.Strvals.Runes.{runes_until, typed_val}
use helm.Strvals.Values.{
  Outcome, done, eof, panicked, out_of_fuel, failed, ParseError, no_value, comma_end, no_map_value,
  bad_index, unexpected_data, conversion, set, set_index, item_at, items_length, position, Index,
  key_index, val, ValList, list_read, list_eof, not_list, list_stuck, list_failed, RunesToVal,
  val_list,
}

abbrev pub Step : Type 0 → Type 0
Step A = Outcome × Bytes × A

-- the rune that ended a key or an index
pub data Token : Type 0 where
  at_end open_bracket equals comma dot : Token

abbrev pub token : Option ℕ → Token
token none = at_end
token (some r) =
    if r == b'['
    then open_bracket
    else (if r == b'=' then equals else (if r == b',' then comma else dot))

-- `err` where no value is given: io.EOF without a key, and an error with one
abbrev pub end_of_key : Bytes → Outcome
end_of_key [] = eof
end_of_key (c ∷ k) = failed (no_value (c ∷ k))

-- the list of a key: a new one, or the one that is there; a type assertion panics on another value
abbrev pub target_list : Option Value → Option Items
target_list none = some nil
target_list (some (list vs)) = some vs
target_list (some v) = none

-- the same of the map of a key
abbrev pub target_map : Option Value → Option Fields
target_map none = some end
target_map (some (table fs)) = some fs
target_map (some v) = none

-- `data[kk]` after the list: `set` skips an empty key, but a list of that key that was long enough
-- has been changed in place
unfoldable pub store_list : Bytes → Items → Items → Fields → Fields
store_list [] old new vals = elim (lookup [] vals) [
  | none ↦ vals
  | some v ↦ if items_length old == items_length new then assign [] (list new) vals else vals
]
store_list (c ∷ k) old new vals = assign (c ∷ k) (list new) vals

-- `data[k]` after the map: `set` skips an empty key, but a map that was there has been changed in
-- place
unfoldable pub store_map : Bytes → Fields → Fields → Fields
store_map [] inner vals = elim (lookup [] vals) [
  | none ↦ vals
  | some v ↦ assign [] (table inner) vals
]
store_map (c ∷ k) inner vals = assign (c ∷ k) (table inner) vals

abbrev if_stuck : Outcome → Outcome → Outcome
if_stuck out_of_fuel o = out_of_fuel
if_stuck p o = o

-- the map after its keys: an error that says so where it stayed empty
abbrev pub close_map : Bytes → Fields → Step Fields → Step Fields
close_map k vals (panicked, rest, inner) = (panicked, rest, vals)
close_map k vals (o, rest, end) = (if_stuck o (failed (no_map_value k)), rest, vals)
close_map k vals (o, rest, field j v fs) = (o, rest, store_map k (field j v fs) vals)

abbrev pub close_list : Bytes → Items → Fields → Step Items → Step Fields
close_list k old vals (o, rest, new) = (o, rest, store_list k old new vals)

-- an index, or the error that there is none
abbrev pub with_index : {A : Type 0} → A → Option Index × Bytes → (Index → Bytes → Step A) → Step A
with_index x (none, rest) next = (failed bad_index, rest, x)
with_index x (some i, rest) next = next i rest

abbrev pub or_panic : {A B : Type 0} → A → Bytes → Option B → (B → Step A) → Step A
or_panic x rest none next = (panicked, rest, x)
or_panic x rest (some b) next = next b

-- `setIndex` with the error of the step before it
abbrev pub put_index : Items → Index → Outcome → Bytes → Value → Step Items
put_index vs i o rest v = or_panic vs rest (set_index vs i v) λ vs'. (o, rest, vs')

abbrev pub put_list : Items → Index → Step Items → Step Items
put_list vs i (panicked, rest, inner) = (panicked, rest, vs)
put_list vs i (o, rest, inner) = put_index vs i o rest (list inner)

abbrev pub put_map : Items → Index → Step Fields → Step Items
put_map vs i (panicked, rest, inner) = (panicked, rest, vs)
put_map vs i (o, rest, inner) = put_index vs i o rest (table inner)

-- the list in a list: nil, also for an item that is nil, or the one that is there
abbrev pub inner_list : Value → Option Items
inner_list null = some nil
inner_list (list vs) = some vs
inner_list v = none

-- the map in a list: an empty one for an item that is none
abbrev pub inner_map : Value → Fields
inner_map (table fs) = fs
inner_map v = end

-- the first item of a list at a negative index panics
abbrev pub nested_list : Items → Index → Option Items
nested_list vs i = elim (position i) [ none ↦ none | some n ↦ inner_list (item_at n vs) ]

abbrev pub nested_map : Items → Index → Option Fields
nested_map vs i = elim (position i) [ none ↦ none | some n ↦ some (inner_map (item_at n vs)) ]

abbrev pub set_value : Bytes → Fields → Option Value × Outcome × Bytes → Step Fields
set_value k vals (none, o, rest) = (o, rest, vals)
set_value k vals (some v, o, rest) = (o, rest, set vals k v)

-- listItem returns the error of runesUntil, which is nil, at the end of the text
abbrev pub set_item_value : Items → Index → Option Value × Outcome × Bytes → Step Items
set_item_value vs i (none, o, rest) = (o, rest, vs)
set_item_value vs i (some v, eof, rest) = put_index vs i done rest v
set_item_value vs i (some v, o, rest) = put_index vs i o rest v

abbrev pub key_stop : List ℕ
key_stop = b'=' ∷ b'[' ∷ b',' ∷ b'.' ∷ []

abbrev pub item_stop : List ℕ
item_stop = b'[' ∷ b'.' ∷ b'=' ∷ []

abbrev pub parse_body : (Bytes → Fields → Outcome × Fields) → Step Fields → Outcome × Fields
parse_body next (done, rest, vals) = next rest vals
parse_body next (eof, rest, vals) = (done, vals)
parse_body next (o, rest, vals) = (o, vals)

module _ (runes_to_val : RunesToVal) where
  abbrev converted : Value × Option Bytes → Bytes → Option Value × Outcome × Bytes
  converted (v, none) rest = (some v, done, rest)
  converted (v, some e) rest = (some v, failed (conversion e), rest)

  abbrev pub taken : Bytes → ValList → Option Value × Outcome × Bytes
  taken s (list_read vs rest) = (some (list vs), done, rest)
  taken s list_eof = (some (text []), eof, [])
  taken s not_list = converted (runes_to_val (val s).0) (val s).1
  taken s list_stuck = (none, out_of_fuel, s)
  taken s (list_failed e) = (none, failed e, s)

  -- what follows `=`: the value to set, if any, the error, and what is left
  unfoldable pub read_value : ℕ → Bytes → Option Value × Outcome × Bytes
  read_value fuel s = taken s (val_list runes_to_val fuel s)

  -- the body of key after runesUntil, by the calls of itself and of listItem
  abbrev pub key_body :
      ℕ
      → (Bytes → Fields → Step Fields)
      → (Bytes → Items → Index → Step Items)
      → Fields
      → Bytes
      → Bytes
      → Token
      → Step Fields
  key_body fuel keys items vals k rest at_end = (end_of_key k, rest, vals)
  key_body fuel keys items vals k rest open_bracket = with_index vals (key_index rest) λ i rest'.
      or_panic vals rest' (target_list (lookup k vals))
        λ vs. close_list k vs vals (items rest' vs i)
  key_body fuel keys items vals k rest equals = set_value k vals (read_value fuel rest)
  key_body fuel keys items vals k rest comma = (failed (comma_end k), rest, set vals k (text []))
  key_body fuel keys items vals k rest dot =
      or_panic vals rest (target_map (lookup k vals)) λ inner. close_map k vals (keys rest inner)

  -- the same of listItem
  abbrev pub item_body :
      ℕ
      → (Bytes → Fields → Step Fields)
      → (Bytes → Items → Index → Step Items)
      → Items
      → Index
      → Bytes
      → Bytes
      → Token
      → Step Items
  item_body fuel keys items vs i (c ∷ k) rest t = (failed (unexpected_data (c ∷ k)), rest, vs)
  item_body fuel keys items vs i [] rest at_end = (eof, rest, vs)
  item_body fuel keys items vs i [] rest equals = set_item_value vs i (read_value fuel rest)
  item_body fuel keys items vs i [] rest open_bracket =
      with_index vs (key_index rest)
        λ j rest'. or_panic vs rest' (nested_list vs i) λ inner. put_list vs i (items rest' inner j)
  item_body fuel keys items vs i [] rest comma = (failed (unexpected_data (b',' ∷ [])), rest, nil)
  item_body fuel keys items vs i [] rest dot =
      or_panic vs rest (nested_map vs i) λ inner. put_map vs i (keys rest inner)

  unfoldable mutual
    -- key
    pub key : ℕ → Bytes → Fields → Step Fields
    key zero s vals = (out_of_fuel, s, vals)
    key (suc fuel) s vals =
        let (k, last, rest) = runes_until key_stop s in
        key_body fuel (key fuel) (list_item fuel) vals k rest (token last)

    -- listItem
    pub list_item : ℕ → Bytes → Items → Index → Step Items
    list_item zero s vs i = (out_of_fuel, s, vs)
    list_item (suc fuel) s vs i =
        let (k, last, rest) = runes_until item_stop s in
        item_body fuel (key fuel) (list_item fuel) vs i k rest (token last)

  -- the loop of parse
  unfoldable pub rounds : ℕ → Bytes → Fields → Outcome × Fields
  rounds zero s vals = (out_of_fuel, vals)
  rounds (suc fuel) s vals = parse_body (rounds fuel) (key (suc fuel) s vals)

  -- parse, of a text into a map: ParseIntoFile and, on an empty map, ParseFile
  unfoldable pub parse_into_file : Bytes → Fields → Outcome × Fields
  parse_into_file s vals = rounds (suc (length s)) s vals

-- the function that newParser makes
abbrev pub to_value : Bool → RunesToVal
to_value st rs = (typed_val rs st, none)

-- ParseInto, ParseIntoString
unfoldable pub parse_into : Bytes → Fields → Outcome × Fields
parse_into s dest = parse_into_file (to_value false) s dest

unfoldable pub parse_into_string : Bytes → Fields → Outcome × Fields
parse_into_string s dest = parse_into_file (to_value true) s dest

-- Parse, ParseString
abbrev pub parse : Bytes → Outcome × Fields
parse s = parse_into s end

abbrev pub parse_string : Bytes → Outcome × Fields
parse_string s = parse_into_string s end
