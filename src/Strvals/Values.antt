-- ===== src/Strvals/Values.antt =====
-- set, setIndex, keyIndex, val and valList of pkg/strvals/parser.go. Memory is taken as unbounded.
use helm.Common.{
  ℕ, zero, suc, Bytes, Bool, true, false, if◌then◌else◌, Option, none, some, [], ◌∷◌, ◌==◌, leb,
  ◌&&◌,
}
use helm.Common.Decimal.{atoi}
use helm.Chartutil.Value.{Value, Items, Fields, null, nil, cons, assign}
use helm.Strvals.Runes.{Run, runes_until}

-- what a function of the parser can return beside its value; io.EOF and a panic are told apart from
-- the other errors, as the code does
pub data ParseError : Type 0 where
  no_value comma_end no_map_value : (key : Bytes) → ParseError
  bad_index unterminated_list : ParseError
  unexpected_data : Bytes → ParseError
  -- an error of runesToVal, which a caller of ParseIntoFile gives
  conversion : Bytes → ParseError

pub data Outcome : Type 0 where
  done eof panicked out_of_fuel : Outcome
  failed : ParseError → Outcome

-- set
unfoldable pub set : Fields → Bytes → Value → Fields
set vals [] val = vals
set vals (c ∷ key) val = assign (c ∷ key) val vals

unfoldable pub items_length : Items → ℕ
items_length nil = 0
items_length (cons v vs) = suc (items_length vs)

unfoldable pub append_item : Items → Value → Items
append_item nil v = cons v nil
append_item (cons w vs) v = cons w (append_item vs v)

-- the item at an index, and null beyond the end
unfoldable pub item_at : ℕ → Items → Value
item_at n nil = null
item_at zero (cons v vs) = v
item_at (suc n) (cons v vs) = item_at n vs

-- setIndex for an index that is not negative: a list that is too short is filled up with nil
unfoldable pub set_item : ℕ → Value → Items → Items
set_item zero v nil = cons v nil
set_item (suc n) v nil = cons null (set_item n v nil)
set_item zero v (cons w vs) = cons v vs
set_item (suc n) v (cons w vs) = cons w (set_item n v vs)

-- An index is an int. A negative one makes Go panic on the access; `index + 1` wraps around for the
-- largest int, and then `make` panics.
abbrev pub Index : Type 0
Index = Bool × ℕ

abbrev pub position : Index → Option ℕ
position (true, n) = if n == 0 then some 0 else none
position (false, n) = some n

abbrev set_at : Option ℕ → Value → Items → Option Items
set_at none val vs = none
set_at (some n) val vs =
    if leb (items_length vs) n && n == 9223372036854775807 then none else some (set_item n val vs)

-- setIndex: nothing where it panics
unfoldable pub set_index : Items → Index → Value → Option Items
set_index vs i val = set_at (position i) val vs

-- keyIndex: the index and what is left of the text
unfoldable pub key_index : Bytes → Option Index × Bytes
key_index s =
    let (v, last, rest) = runes_until (b']' ∷ []) s in
    (elim last [ none ↦ none | some r ↦ atoi v ], rest)

-- val: the runes up to a comma or to the end, and what is left
unfoldable pub val : Bytes → Bytes × Bytes
val s = let (v, last, rest) = runes_until (b',' ∷ []) s in (v, rest)

-- what valList returns, and what is left of the text
pub data ValList : Type 0 where
  list_read : Items → Bytes → ValList
  list_eof not_list list_stuck : ValList
  list_failed : ParseError → ValList

-- a comma after the list is consumed
unfoldable pub skip_comma : Bytes → Bytes
skip_comma [] = []
skip_comma (r ∷ s) = if r == b',' then s else r ∷ s

-- a function that gives the value of a text, and its error if any
abbrev pub RunesToVal : Type 0
RunesToVal = Bytes → Value × Option Bytes

module _ (runes_to_val : RunesToVal) where
  abbrev pub finish : Items → Bytes → Value × Option Bytes → ValList
  finish vs rest (v, none) = list_read (append_item vs v) (skip_comma rest)
  finish vs rest (v, some e) = list_failed (conversion e)

  abbrev pub proceed : (Items → Bytes → ValList) → Items → Bytes → Value × Option Bytes → ValList
  proceed next vs rest (v, none) = next (append_item vs v) rest
  proceed next vs rest (v, some e) = list_failed (conversion e)

  -- one round of the loop of valList, and the rounds after it
  unfoldable pub list_round : (Items → Bytes → ValList) → Items → Run → ValList
  list_round next vs (rs, none, rest) = list_failed unterminated_list
  list_round next vs (rs, some r, rest) =
      if r == b'}' then finish vs rest (runes_to_val rs) else proceed next vs rest (runes_to_val rs)

  unfoldable pub list_rounds : ℕ → Items → Bytes → ValList
  list_rounds zero vs s = list_stuck
  list_rounds (suc fuel) vs s = list_round (list_rounds fuel) vs (runes_until (b',' ∷ b'}' ∷ []) s)

  -- valList; where the text does not start with `{`, nothing is consumed
  unfoldable pub val_list : ℕ → Bytes → ValList
  val_list fuel [] = list_eof
  val_list fuel (r ∷ s) = if r == b'{' then list_rounds fuel nil s else not_list
