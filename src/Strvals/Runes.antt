-- ===== src/Strvals/Runes.antt =====
-- runesUntil and typedVal of pkg/strvals/parser.go. A text is the list of the runes that ReadRune
-- gives for it; the only error of ReadRune is io.EOF.
use helm.Common.{
  ℕ, Bytes, codes, Bool, true, false, if◌then◌else◌, Option, none, some, List, [], ◌∷◌, ◌==◌, leb,
  ◌&&◌, ◌+◌, ◌≡◌, Bool-cases, inl, inr,
}
use helm.Common.Text.{eqb}
use helm.Common.Decimal.{atoi, format}
use helm.Chartutil.Value.{Value, null, bool, number, text}

-- inMap
unfoldable pub in_map : ℕ → List ℕ → Bool
in_map k [] = false
in_map k (r ∷ m) = if r == k then true else in_map k m

-- The runes read, the rune that ended them, or none at the end of the text, and what is left.
abbrev pub Run : Type 0
Run = Bytes × Option ℕ × Bytes

abbrev pub push : ℕ → Run → Run
push r (v, last, rest) = (r ∷ v, last, rest)

-- runesUntil
unfoldable pub runes_until : List ℕ → Bytes → Run
runes_until stop [] = ([], none, [])
runes_until stop (r ∷ []) =
    if in_map r stop
    then ([], some r, [])
    else (if r == 92 then ([], none, []) else (r ∷ [], none, []))
runes_until stop (r ∷ next ∷ s) = elim (in_map r stop) [
  | true ↦ ([], some r, next ∷ s)
  | false ↦ elim (r == 92) [
    | true ↦ push next (runes_until stop s)
    | false ↦ push r (runes_until stop (next ∷ s))
  ]
]

pub runes_until_step :
    (stop : List ℕ) (r next : ℕ) (s : Bytes)
    → runes_until stop (r ∷ next ∷ s) ≡ (
        if in_map r stop
        then ([], some r, next ∷ s)
        else (if r == 92
            then push next (runes_until stop s)
            else push r (runes_until stop (next ∷ s))))
unfolding runes_until
runes_until_step stop r next s = elim (Bool-cases (in_map r stop)) [
  | inl e ↦ rw (e, runes_until)
  | inr e ↦ elim (Bool-cases (r == 92)) [
    | inl e' ↦ rw (e, e', runes_until)
    | inr e' ↦ rw (e, e', runes_until)
  ]
]

-- The rune in lower case, where it folds to an ASCII one: U+017F folds to s, and U+212A to k.
unfoldable pub fold : ℕ → ℕ
fold c =
    if leb b'A' c && leb c b'Z'
    then c + 32
    else (if c == 383 then b's' else (if c == 8490 then b'k' else c))

unfoldable pub fold_all : Bytes → Bytes
fold_all [] = []
fold_all (c ∷ s) = fold c ∷ fold_all s

-- `strings.EqualFold` for a second text of lower-case letters and digits
unfoldable pub equal_fold : Bytes → Bytes → Bool
equal_fold s t = eqb (fold_all s) t

-- an int64 by its sign and magnitude
abbrev pub integer : Bool × ℕ → Value
integer (true, n) = if n == 0 then number (format 0) else number (b'-' ∷ format n)
integer (false, n) = number (format n)

-- `strconv.ParseInt(val, 10, 64)`, unless the text is empty or starts with 0
unfoldable pub parsed_int : Bytes → Option (Bool × ℕ)
parsed_int [] = none
parsed_int (c ∷ s) = if c == b'0' then none else atoi (c ∷ s)

abbrev pub number_or_text : Bytes → Option (Bool × ℕ) → Value
number_or_text val none = text val
number_or_text val (some i) = integer i

-- typedVal
unfoldable pub typed_val : Bytes → Bool → Value
typed_val val st =
    if st
    then text val
    else (if equal_fold val (codes "true")
        then bool true
        else (if equal_fold val (codes "false")
            then bool false
            else (if equal_fold val (codes "null")
                then null
                else (if equal_fold val (codes "0")
                    then number (format 0)
                    else number_or_text val (parsed_int val)))))
