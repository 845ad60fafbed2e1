-- ===== src/Strvals/Print/Runs.antt =====
-- Escaped texts under runesUntil and val of pkg/strvals/parser.go.
use helm.Common.{
  ℕ, Bytes, Bool, true, false, Option, none, some, List, [], ◌∷◌, ◌++◌, ◌≡◌, refl, arith,
  Bool-cases, inl, inr, append-nil, ◌∙◌, ◌==◌, ap, ◌≢◌,
}
use helm.Common.Text.{eqb}
use helm.Chartutil.Value.{text}
use helm.Strvals.Runes.{
  Run, runes_until_step, runes_until, push, in_map, typed_val, equal_fold, parsed_int, fold_all,
}
use helm.Strvals.Values.{Outcome, done, eof, val, val_list}
use helm.Strvals.Parser.{read_value, to_value, key_stop}
use helm.Strvals.Print.{special, escape}

abbrev push_all : Bytes → Run → Run
push_all s (v, last, rest) = (s ++ v, last, rest)

-- a set of runes that are all escaped, and the escape itself is not among them
abbrev pub Escaped : List ℕ → Type 0
Escaped stop = (in_map 92 stop ≡ false) × ((c : ℕ) → special c ≡ false → in_map c stop ≡ false)

run_escaped :
    (stop : List ℕ) (c : ℕ) (t : Bytes)
    → in_map 92 stop ≡ false
    → runes_until stop (92 ∷ c ∷ t) ≡ push c (runes_until stop t)
unfolding runes_until
run_escaped stop c t h = rw (runes_until_step stop 92 c t, h) refl

run_plain :
    (stop : List ℕ) (c : ℕ) (t : Bytes)
    → in_map c stop ≡ false
    → (c == 92) ≡ false
    → runes_until stop (c ∷ t) ≡ push c (runes_until stop t)
unfolding runes_until
run_plain stop c [] h e = rw (h, e) refl
run_plain stop c (d ∷ t) h e = rw (runes_until_step stop c d t, h, e) refl

special-backslash : (c : ℕ) → special c ≡ false → (c == 92) ≡ false
unfolding in_map
special-backslash c h = ground arith

-- An escaped text is read as it was, whatever follows.
pub runes_until-escape :
    (stop : List ℕ) (s rest : Bytes)
    → Escaped stop
    → runes_until stop (escape s ++ rest) ≡ push_all s (runes_until stop rest)
unfolding escape
runes_until-escape stop [] rest h = refl
runes_until-escape stop (c ∷ s) rest h = elim (Bool-cases (special c)) [
  | inl e ↦
      rw e
        (run_escaped stop c (escape s ++ rest) h.0 ∙ ap (push c) (runes_until-escape stop s rest h))
  | inr e ↦ rw e (
      run_plain stop c (escape s ++ rest) (h.1 c e) (special-backslash c e)
      ∙ ap (push c) (runes_until-escape stop s rest h))
]

pub key_stop-Escaped : Escaped key_stop
unfolding in_map
key_stop-Escaped = (refl, λ c h. ground arith)

comma-Escaped : Escaped (b',' ∷ [])
unfolding in_map
comma-Escaped = (refl, λ c h. ground arith)

-- what may follow a value: nothing, or a comma and more
abbrev pub close : Option Bytes → Bytes
close none = []
close (some t) = b',' ∷ t

abbrev pub left : Option Bytes → Bytes
left none = []
left (some t) = t

-- At the end of the text an empty value is read with io.EOF.
abbrev pub ending : Bytes → Option Bytes → Outcome
ending [] none = eof
ending v tl = done

pub runes_until-stop :
    (stop : List ℕ) (c : ℕ) (t : Bytes)
    → in_map c stop ≡ true
    → runes_until stop (c ∷ t) ≡ ([], some c, t)
unfolding runes_until
runes_until-stop stop c [] h = rw h refl
runes_until-stop stop c (d ∷ t) h = rw (runes_until_step stop c d t, h) refl

val-escape : (v : Bytes) (tl : Option Bytes) → val (escape v ++ close tl) ≡ (v, left tl)
unfolding val runes_until in_map
val-escape v none =
    rw (runes_until-escape (b',' ∷ []) v [] comma-Escaped) (ap (λ x. (x, [])) (append-nil v))
val-escape v (some t) =
    rw
      (
        runes_until-escape (b',' ∷ []) v (b',' ∷ t) comma-Escaped,
        runes_until-stop (b',' ∷ []) b',' t refl,
      )
      (ap (λ x. (x, t)) (append-nil v))

abbrev is_list : Bytes → Bool
is_list [] = false
is_list (c ∷ s) = c == b'{'

is_list-escape : (v : Bytes) (tl : Option Bytes) → is_list (escape v ++ close tl) ≡ false
unfolding escape in_map
is_list-escape [] none = refl
is_list-escape [] (some t) = refl
is_list-escape (c ∷ v) tl = ground arith

taken_lem :
    (st : Bool) (f : ℕ) (s v : Bytes) (tl : Option Bytes)
    → s ≢ []
    → is_list s ≡ false
    → val s ≡ (v, left tl)
    → read_value (to_value st) f s ≡ (some (typed_val v st), done, left tl)
unfolding read_value val_list
taken_lem st f [] v tl ne h e = absurd (ne refl)
taken_lem st f (c ∷ s) v tl ne h e = rw (h, e) refl

typed_val_empty : (st : Bool) → typed_val [] st ≡ text []
unfolding typed_val equal_fold parsed_int fold_all eqb
typed_val_empty true = refl
typed_val_empty false = refl

escape-filled : (c : ℕ) (v : Bytes) (tl : Option Bytes) → escape (c ∷ v) ++ close tl ≢ []
unfolding escape
escape-filled c v tl h = ground arith

-- An escaped value is read as it was, up to the end or the comma.
pub read_value-escape :
    (st : Bool) (f : ℕ) (v : Bytes) (tl : Option Bytes)
    → read_value (to_value st) f (escape v ++ close tl)
      ≡ (some (typed_val v st), ending v tl, left tl)
unfolding escape read_value val_list
read_value-escape st f [] none = rw (typed_val_empty st) refl
read_value-escape st f [] (some t) =
    taken_lem st f (b',' ∷ t) [] (some t) (λ h. cc) refl (val-escape [] (some t))
read_value-escape st f (c ∷ v) tl =
    taken_lem st f _ (c ∷ v) tl (escape-filled c v tl) (is_list-escape (c ∷ v) tl)
      (val-escape (c ∷ v) tl)
