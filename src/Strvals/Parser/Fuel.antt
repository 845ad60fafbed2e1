-- ===== src/Strvals/Parser/Fuel.antt =====
-- The fuel of key, listItem and parse of pkg/strvals/parser.go.
use helm.Common.{
  ℕ, zero, suc, Bytes, Option, none, some, [], ◌∷◌, length, ◌<◌, ◌≤◌, ◌≢◌, arith, subst,
}
use helm.Chartutil.Value.{Value, Items, Fields, end, field, table, list, lookup}
use helm.Strvals.Runes.{runes_until, Run}
use helm.Strvals.Values.{
  Outcome, done, eof, panicked, out_of_fuel, failed, set_index, key_index, RunesToVal,
}
use helm.Strvals.Parser.Reads.{
  Leaves, runes_until-Leaves, key_index-leaves, ValueFinishes, IsRunning, read_value-Finishes,
}
use helm.Strvals.Parser.{
  Token, at_end, open_bracket, equals, comma, dot, parse_body, Step, token, key, list_item, rounds,
  parse_into_file, set_value, set_item_value, put_index, put_list, put_map, close_map, or_panic,
  Index, with_index, parse_body, item_body, key_body, Token, key_stop, nested_list, item_stop,
  target_list, nested_map, target_map,
}

-- A value leaves no more than there was, and its fuel was enough.
abbrev Finishes : Outcome → ℕ → ℕ → Type 0
Finishes done m n = m < n
Finishes out_of_fuel m n = ⊥
Finishes o m n = Unit

-- the same of a step
abbrev StepFinishes : {A : Type 0} → Step A → ℕ → Type 0
StepFinishes (o, rest, x) n = Finishes o (length rest) n

Finishes-weaken : (o : Outcome) (m n n' : ℕ) → n ≤ n' → Finishes o m n → Finishes o m n'
Finishes-weaken done m n n' le h = omega arith
Finishes-weaken out_of_fuel m n n' le h = h
Finishes-weaken eof m n n' le h = tt
Finishes-weaken panicked m n n' le h = tt
Finishes-weaken (failed e) m n n' le h = tt

StepFinishes-weaken :
    {A : Type 0} (x : Step A) (n n' : ℕ) → n ≤ n' → StepFinishes x n → StepFinishes x n'
StepFinishes-weaken (o, rest, x) n n' le h = Finishes-weaken o (length rest) n n' le h

running-Finishes : (o : Outcome) (l m n : ℕ) → m < n → (l ≤ m) × IsRunning o → Finishes o l n
running-Finishes done l m n lt h = omega (arith, h.0)
running-Finishes out_of_fuel l m n lt h = absurd h.1
running-Finishes eof l m n lt h = tt
running-Finishes panicked l m n lt h = tt
running-Finishes (failed e) l m n lt h = tt

with_index-Finishes :
    {A : Type 0} (x : A) (s : Bytes) (next : Index → Bytes → Step A) (n : ℕ)
    → ((i : Index) (rest : Bytes) → length rest ≤ length s → StepFinishes (next i rest) n)
    → StepFinishes (with_index x (key_index s) next) n
with_index-Finishes x s next n h = go (key_index s) (key_index-leaves s)
  where
    go : (p : Option Index × Bytes) → length p.1 ≤ length s → StepFinishes (with_index x p next) n
    go (none, rest) le = tt
    go (some i, rest) le = h i rest le

or_panic-Finishes :
    {A B : Type 0} (x : A) (rest : Bytes) (b : Option B) (next : B → Step A) (n : ℕ)
    → ((y : B) → StepFinishes (next y) n)
    → StepFinishes (or_panic x rest b next) n
or_panic-Finishes x rest none next n h = tt
or_panic-Finishes x rest (some y) next n h = h y

close_map-Finishes :
    (k : Bytes) (vals : Fields) (x : Step Fields) (n : ℕ)
    → StepFinishes x n
    → StepFinishes (close_map k vals x) n
close_map-Finishes k vals (done, rest, end) n h = tt
close_map-Finishes k vals (out_of_fuel, rest, end) n h = h
close_map-Finishes k vals (o, rest, end) n h = tt
close_map-Finishes k vals (panicked, rest, inner) n h = tt
close_map-Finishes k vals (o, rest, field j v fs) n h = h

put_index-Finishes :
    (vs : Items) (i : Index) (o : Outcome) (rest : Bytes) (v : Value) (n : ℕ)
    → Finishes o (length rest) n
    → StepFinishes (put_index vs i o rest v) n
put_index-Finishes vs i o rest v n h = or_panic-Finishes vs rest (set_index vs i v) _ n λ vs'. h

put_list-Finishes :
    (vs : Items) (i : Index) (x : Step Items) (n : ℕ)
    → StepFinishes x n
    → StepFinishes (put_list vs i x) n
put_list-Finishes vs i (panicked, rest, inner) n h = tt
put_list-Finishes vs i (o, rest, inner) n h = put_index-Finishes vs i o rest (list inner) n h

put_map-Finishes :
    (vs : Items) (i : Index) (x : Step Fields) (n : ℕ)
    → StepFinishes x n
    → StepFinishes (put_map vs i x) n
put_map-Finishes vs i (panicked, rest, inner) n h = tt
put_map-Finishes vs i (o, rest, inner) n h = put_index-Finishes vs i o rest (table inner) n h

set_item_value-Finishes :
    (vs : Items) (i : Index) (v : Option Value) (o : Outcome) (rest : Bytes) (n : ℕ)
    → length rest < n
    → Finishes o (length rest) n
    → StepFinishes (set_item_value vs i (v, o, rest)) n
set_item_value-Finishes vs i none o rest n lt h = h
set_item_value-Finishes vs i (some v) eof rest n lt h = put_index-Finishes vs i done rest v n lt
set_item_value-Finishes vs i (some v) o rest n lt h = put_index-Finishes vs i o rest v n h

set_value-Finishes :
    (k : Bytes) (vals : Fields) (x : Option Value × Outcome × Bytes) (m n : ℕ)
    → m < n
    → ValueFinishes x m
    → StepFinishes (set_value k vals x) n
set_value-Finishes k vals (none, o, rest) m n lt h = running-Finishes o (length rest) m n lt h
set_value-Finishes k vals (some v, o, rest) m n lt h = running-Finishes o (length rest) m n lt h

set_item-Finishes :
    (vs : Items) (i : Index) (x : Option Value × Outcome × Bytes) (m n : ℕ)
    → m < n
    → ValueFinishes x m
    → StepFinishes (set_item_value vs i x) n
set_item-Finishes vs i (v, o, rest) m n lt h =
    set_item_value-Finishes vs i v o rest n (omega (arith, h.0))
      (running-Finishes o (length rest) m n lt h)

module _ (runes_to_val : RunesToVal) (fuel n : ℕ) (keys : Bytes → Fields → Step Fields)
    (items : Bytes → Items → Index → Step Items) where
  -- the calls on a shorter text end
  module _ (le : n < suc fuel)
      (hk : (s : Bytes) (vals : Fields) → length s < fuel → StepFinishes (keys s vals) (length s))
      (hi : (s : Bytes) (vs : Items) (i : Index)
        → length s < fuel
        → StepFinishes (items s vs i) (length s)) where
    key_body-Finishes :
        (vals : Fields) (k rest : Bytes) (t : Token)
        → length rest < n
        → StepFinishes (key_body runes_to_val fuel keys items vals k rest t) n
    key_body-Finishes vals [] rest at_end lt = tt
    key_body-Finishes vals (c ∷ k) rest at_end lt = tt
    key_body-Finishes vals k rest open_bracket lt = with_index-Finishes vals rest _ n λ i rest' sh.
        or_panic-Finishes vals rest' (target_list (lookup k vals)) _ n λ vs.
          StepFinishes-weaken (items rest' vs i) (length rest') n (omega arith)
            (hi rest' vs i (omega arith))
    key_body-Finishes vals k rest equals lt =
        set_value-Finishes k vals _ (length rest) n lt
          (read_value-Finishes runes_to_val fuel rest (omega arith))
    key_body-Finishes vals k rest comma lt = tt
    key_body-Finishes vals k rest dot lt =
        or_panic-Finishes vals rest (target_map (lookup k vals)) _ n λ inner.
          close_map-Finishes k vals (keys rest inner) n (
            StepFinishes-weaken (keys rest inner) (length rest) n (omega arith)
              (hk rest inner (omega arith)))

    item_body-Finishes :
        (vs : Items) (i : Index) (k rest : Bytes) (t : Token)
        → length rest < n
        → StepFinishes (item_body runes_to_val fuel keys items vs i k rest t) n
    item_body-Finishes vs i (c ∷ k) rest t lt = tt
    item_body-Finishes vs i [] rest at_end lt = tt
    item_body-Finishes vs i [] rest equals lt =
        set_item-Finishes vs i _ (length rest) n lt
          (read_value-Finishes runes_to_val fuel rest (omega arith))
    item_body-Finishes vs i [] rest open_bracket lt = with_index-Finishes vs rest _ n λ j rest' sh.
        or_panic-Finishes vs rest' (nested_list vs i) _ n λ inner.
          put_list-Finishes vs i (items rest' inner j) n (
            StepFinishes-weaken (items rest' inner j) (length rest') n (omega arith)
              (hi rest' inner j (omega arith)))
    item_body-Finishes vs i [] rest comma lt = tt
    item_body-Finishes vs i [] rest dot lt =
        or_panic-Finishes vs rest (nested_map vs i) _ n λ inner.
          put_map-Finishes vs i (keys rest inner) n (
            StepFinishes-weaken (keys rest inner) (length rest) n (omega arith)
              (hk rest inner (omega arith)))

    key_run-Finishes :
        (vals : Fields) (x : Run)
        → Leaves x n
        → StepFinishes (key_body runes_to_val fuel keys items vals x.0 x.2 (token x.1)) n
    key_run-Finishes vals ([], none, rest) h = tt
    key_run-Finishes vals (c ∷ k, none, rest) h = tt
    key_run-Finishes vals (k, some r, rest) h = key_body-Finishes vals k rest (token (some r)) h

    item_run-Finishes :
        (vs : Items) (i : Index) (x : Run)
        → Leaves x n
        → StepFinishes (item_body runes_to_val fuel keys items vs i x.0 x.2 (token x.1)) n
    item_run-Finishes vs i ([], none, rest) h = tt
    item_run-Finishes vs i (c ∷ k, none, rest) h = tt
    item_run-Finishes vs i (k, some r, rest) h = item_body-Finishes vs i k rest (token (some r)) h

module _ (runes_to_val : RunesToVal) where
  mutual
    unfolding key list_item

    key-Finishes :
        (fuel : ℕ) (s : Bytes) (vals : Fields)
        → length s < fuel
        → StepFinishes (key runes_to_val fuel s vals) (length s)
    key-Finishes zero s vals lt = omega arith
    key-Finishes (suc fuel) s vals lt =
        key_run-Finishes runes_to_val fuel (length s) (key runes_to_val fuel)
          (list_item runes_to_val fuel) lt (key-Finishes fuel) (list_item-Finishes fuel) vals
          (runes_until key_stop s) (runes_until-Leaves key_stop s)

    list_item-Finishes :
        (fuel : ℕ) (s : Bytes) (vs : Items) (i : Index)
        → length s < fuel
        → StepFinishes (list_item runes_to_val fuel s vs i) (length s)
    list_item-Finishes zero s vs i lt = omega arith
    list_item-Finishes (suc fuel) s vs i lt =
        item_run-Finishes runes_to_val fuel (length s) (key runes_to_val fuel)
          (list_item runes_to_val fuel) lt (key-Finishes fuel) (list_item-Finishes fuel) vs i
          (runes_until item_stop s) (runes_until-Leaves item_stop s)

  parse_body-IsRunning :
      (next : Bytes → Fields → Outcome × Fields) (x : Step Fields) (n : ℕ)
      → StepFinishes x n
      → ((rest : Bytes) (vals : Fields) → length rest < n → IsRunning (next rest vals).0)
      → IsRunning (parse_body next x).0
  parse_body-IsRunning next (done, rest, vals) n h k = k rest vals h
  parse_body-IsRunning next (eof, rest, vals) n h k = tt
  parse_body-IsRunning next (out_of_fuel, rest, vals) n h k = h
  parse_body-IsRunning next (panicked, rest, vals) n h k = tt
  parse_body-IsRunning next (failed e, rest, vals) n h k = tt

  rounds-IsRunning :
      (fuel : ℕ) (s : Bytes) (vals : Fields)
      → length s < fuel
      → IsRunning (rounds runes_to_val fuel s vals).0
  unfolding rounds
  rounds-IsRunning zero s vals lt = omega arith
  rounds-IsRunning (suc fuel) s vals lt =
      parse_body-IsRunning (rounds runes_to_val fuel) (key runes_to_val (suc fuel) s vals)
        (length s) (key-Finishes (suc fuel) s vals lt)
        (λ rest vals' sh. rounds-IsRunning fuel rest vals' (omega arith))

  -- Every parse, of any text into any map, with any function for the values, ends: it never runs out
  -- of fuel.
  pub parse_into_file-ends :
      (s : Bytes) (vals : Fields) → (parse_into_file runes_to_val s vals).0 ≢ out_of_fuel
  unfolding parse_into_file
  parse_into_file-ends s vals e =
      subst IsRunning e (rounds-IsRunning (suc (length s)) s vals (omega arith))
