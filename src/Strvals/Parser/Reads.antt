-- ===== src/Strvals/Parser/Reads.antt =====
-- What the functions that read a text in pkg/strvals/parser.go leave of it, and their fuel:
-- runesUntil, keyIndex, val and valList.
use helm.Common.{
  ℕ, zero, suc, Bytes, Bool, true, false, if◌then◌else◌, Option, none, some, List, [], ◌∷◌, ◌==◌,
  length, ◌<◌, ◌≤◌, arith,
}
use helm.Chartutil.Value.{Value, Items, nil}
use helm.Strvals.Runes.{runes_until_step, in_map, runes_until, push, in_map, Run}
use helm.Strvals.Values.{
  Outcome, out_of_fuel, key_index, val, ValList, list_read, list_eof, not_list, list_stuck,
  list_failed, RunesToVal, val_list, list_rounds, finish, skip_comma, list_round, proceed,
  append_item,
}
use helm.Strvals.Parser.{read_value, taken, converted}

-- what is left where the text did not end
abbrev pub Left : Option ℕ → ℕ → ℕ → Type 0
Left none m n = m ≤ n
Left (some r) m n = m < n

abbrev pub Leaves : Run → ℕ → Type 0
Leaves (v, last, rest) n = Left last (length rest) n

if-Leaves : (b : Bool) (x y : Run) (n : ℕ) → Leaves x n → Leaves y n → Leaves (if b then x else y) n
if-Leaves true x y n h k = h
if-Leaves false x y n h k = k

push-Leaves : (r : ℕ) (x : Run) (m n : ℕ) → m < n → Leaves x m → Leaves (push r x) n
push-Leaves r (v, none, rest) m n lt h = omega arith
push-Leaves r (v, some c, rest) m n lt h = omega arith

pub runes_until-Leaves : (stop : List ℕ) (s : Bytes) → Leaves (runes_until stop s) (length s)
unfolding runes_until
runes_until-Leaves stop [] = omega arith
runes_until-Leaves stop (r ∷ []) =
    if-Leaves (in_map r stop) _ _ 1 (omega arith)
      (if-Leaves (r == 92) _ _ 1 (omega arith) (omega arith))
runes_until-Leaves stop (r ∷ next ∷ s) = rw (runes_until_step stop r next s) (
    if-Leaves (in_map r stop) _ _ (suc (suc (length s))) (omega arith) (
      if-Leaves (r == 92) _ _ (suc (suc (length s)))
        (push-Leaves next (runes_until stop s) (length s) _ (omega arith)
          (runes_until-Leaves stop s))
        (push-Leaves r (runes_until stop (next ∷ s)) (suc (length s)) _ (omega arith)
          (runes_until-Leaves stop (next ∷ s)))))

pub key_index-leaves : (s : Bytes) → length (key_index s).1 ≤ length s
unfolding key_index
key_index-leaves s = go (runes_until (b']' ∷ []) s) (runes_until-Leaves (b']' ∷ []) s)
  where
    go : (x : Run) → Leaves x (length s) → length x.2 ≤ length s
    go (v, none, rest) h = h
    go (v, some r, rest) h = omega arith

-- A list leaves no more than there was, and its fuel was enough.
abbrev ListFinishes : ValList → ℕ → Type 0
ListFinishes (list_read vs rest) n = length rest ≤ n
ListFinishes list_stuck n = ⊥
ListFinishes v n = Unit

skip_comma-leaves : (s : Bytes) → length (skip_comma s) ≤ length s
unfolding skip_comma
skip_comma-leaves [] = omega arith
skip_comma-leaves (r ∷ s) = ground arith

ListFinishes-weaken : (v : ValList) (m n : ℕ) → m ≤ n → ListFinishes v m → ListFinishes v n
ListFinishes-weaken (list_read vs rest) m n le h = omega arith
ListFinishes-weaken list_stuck m n le h = h
ListFinishes-weaken list_eof m n le h = tt
ListFinishes-weaken not_list m n le h = tt
ListFinishes-weaken (list_failed e) m n le h = tt

if-ListFinishes :
    (b : Bool) (v w : ValList) (n : ℕ)
    → ListFinishes v n
    → ListFinishes w n
    → ListFinishes (if b then v else w) n
if-ListFinishes true v w n h k = h
if-ListFinishes false v w n h k = k

-- not cut off
abbrev pub IsRunning : Outcome → Type 0
IsRunning out_of_fuel = ⊥
IsRunning o = Unit

abbrev pub ValueFinishes : Option Value × Outcome × Bytes → ℕ → Type 0
ValueFinishes (v, o, rest) n = (length rest ≤ n) × IsRunning o

module _ (runes_to_val : RunesToVal) where
  finish-Finishes :
      (vs : Items) (rest : Bytes) (v : Value × Option Bytes) (n : ℕ)
      → length rest ≤ n
      → ListFinishes (finish runes_to_val vs rest v) n
  finish-Finishes vs rest (v, none) n le = omega (arith, skip_comma-leaves rest)
  finish-Finishes vs rest (v, some e) n le = tt

  proceed-Finishes :
      (next : Items → Bytes → ValList) (vs : Items) (rest : Bytes) (v : Value × Option Bytes)
      (n : ℕ)
      → ((vs' : Items) → ListFinishes (next vs' rest) n)
      → ListFinishes (proceed runes_to_val next vs rest v) n
  proceed-Finishes next vs rest (v, none) n h = h (append_item vs v)
  proceed-Finishes next vs rest (v, some e) n h = tt

  list_round-Finishes :
      (next : Items → Bytes → ValList) (vs : Items) (x : Run) (n : ℕ)
      → Leaves x n
      → ((vs' : Items) (rest : Bytes) → length rest < n → ListFinishes (next vs' rest) n)
      → ListFinishes (list_round runes_to_val next vs x) n
  unfolding list_round
  list_round-Finishes next vs (rs, none, rest) n le h = tt
  list_round-Finishes next vs (rs, some r, rest) n le h =
      if-ListFinishes (r == b'}') _ _ n (finish-Finishes vs rest (runes_to_val rs) n (omega arith))
        (proceed-Finishes next vs rest (runes_to_val rs) n (λ vs'. h vs' rest le))

  list_rounds-Finishes :
      (fuel : ℕ) (vs : Items) (s : Bytes)
      → length s < fuel
      → ListFinishes (list_rounds runes_to_val fuel vs s) (length s)
  unfolding list_rounds
  list_rounds-Finishes zero vs s lt = omega arith
  list_rounds-Finishes (suc fuel) vs s lt =
      list_round-Finishes (list_rounds runes_to_val fuel) vs (runes_until (b',' ∷ b'}' ∷ []) s)
        (length s) (runes_until-Leaves (b',' ∷ b'}' ∷ []) s)
        (λ vs' rest le.
          ListFinishes-weaken (list_rounds runes_to_val fuel vs' rest) (length rest) (length s)
            (omega arith) (list_rounds-Finishes fuel vs' rest (omega arith)))

  val_list-Finishes :
      (fuel : ℕ) (s : Bytes)
      → length s < suc fuel
      → ListFinishes (val_list runes_to_val fuel s) (length s)
  unfolding val_list
  val_list-Finishes fuel [] lt = tt
  val_list-Finishes fuel (r ∷ s) lt =
      if-ListFinishes (r == b'{') _ _ (suc (length s))
        (ListFinishes-weaken (list_rounds runes_to_val fuel nil s) (length s) (suc (length s))
          (omega arith) (list_rounds-Finishes fuel nil s (omega arith)))
        tt

  val-leaves : (s : Bytes) → length (val s).1 ≤ length s
  unfolding val
  val-leaves s = go (runes_until (b',' ∷ []) s) (runes_until-Leaves (b',' ∷ []) s)
    where
      go : (x : Run) → Leaves x (length s) → length x.2 ≤ length s
      go (v, none, rest) h = h
      go (v, some r, rest) h = omega arith

  converted-Finishes :
      (v : Value × Option Bytes) (rest : Bytes) (n : ℕ)
      → length rest ≤ n
      → ValueFinishes (converted runes_to_val v rest) n
  converted-Finishes (v, none) rest n le = (le, tt)
  converted-Finishes (v, some e) rest n le = (le, tt)

  pub read_value-Finishes :
      (fuel : ℕ) (s : Bytes)
      → length s < suc fuel
      → ValueFinishes (read_value runes_to_val fuel s) (length s)
  unfolding read_value
  read_value-Finishes fuel s lt = go (val_list runes_to_val fuel s) (val_list-Finishes fuel s lt)
    where
      go :
          (v : ValList)
          → ListFinishes v (length s)
          → ValueFinishes (taken runes_to_val s v) (length s)
      go (list_read vs rest) h = (h, tt)
      go list_eof h = (omega arith, tt)
      go not_list h =
          converted-Finishes (runes_to_val (val s).0) (val s).1 (length s) (val-leaves s)
      go list_stuck h = absurd h
      go (list_failed e) h = (omega arith, tt)
