-- ===== src/Common/Decimal.antt =====
-- `strconv.Itoa` and `strconv.Atoi` for a 64-bit int, and int32 values.
use Prim.Native.Nat.{ℕ, zero, suc, ◌+◌, ◌-◌, ◌*◌, ◌/◌, ◌%◌, ◌≤◌, ◌<◌}
use mathlib.Core.Path.{◌≡◌, refl, ap, ◌∙◌}
use mathlib.Core.Bool.{Bool, true, false, ◌&&◌}
use mathlib.Core.Logic.{◌≢◌, ◌⊎◌, inl, inr}
use mathlib.Core.Option.{Option, none, some}
use mathlib.Core.List.{[], ◌∷◌}
use native.Mathlib.Omega.{arith}
use helm.Common.Defs.{Bytes, ltb, leb, ◌==◌, if◌then◌else◌, All, Bool-cases}

-- An int32 is kept as its value plus 2^31, a number below 2^32: its order is that of the numbers,
-- and `v + 1` in Go, which wraps around, is `(v + 1) % 2 ^ 32`.
abbrev pub Int32 : Type 0
Int32 = ℕ

-- the int32 of a non-negative constant
abbrev pub int32 : ℕ → Int32
int32 n = 2147483648 + n

abbrev pub succ32 : Int32 → Int32
succ32 v = (v + 1) % 4294967296

abbrev pub pred32 : Int32 → Int32
pred32 v = (v + 4294967295) % 4294967296

-- An int64 is kept as its value plus 2^63.
abbrev pub Int64 : Type 0
Int64 = ℕ

abbrev pub int64 : ℕ → Int64
int64 n = 9223372036854775808 + n

-- The decimal digits of `n` in front of `out`, most significant first; one round for each digit,
-- and `n + 1` rounds are more than enough.
digits : ℕ → ℕ → Bytes → Bytes
digits zero n out = out
digits (suc fuel) n out =
    let more = digits fuel (n / 10) ((b'0' + n % 10) ∷ out) in
    if ltb n 10 then (b'0' + n) ∷ out else more

unfoldable pub format : ℕ → Bytes
unfolding digits
format n = digits (suc n) n []

-- `strconv.Itoa(int(v))`
unfoldable pub itoa : Int32 → Bytes
unfolding format
itoa v = if ltb v 2147483648 then b'-' ∷ format (2147483648 - v) else format (v - 2147483648)

read : Bytes → ℕ → Option ℕ
read [] n = some n
read (c ∷ s) n =
    let rest = read s (n * 10 + (c - b'0')) in if leb b'0' c && leb c b'9' then rest else none

-- one or more digits
pub read_all : Bytes → Option ℕ
unfolding read
read_all [] = none
read_all (c ∷ s) = read (c ∷ s) 0

abbrev within : ℕ → Option ℕ → Option ℕ
within limit none = none
within limit (some n) = if leb n limit then some n else none

-- `strconv.Atoi`: a sign and the magnitude, or an error for what is no number or out of range
unfoldable pub atoi : Bytes → Option (Bool × ℕ)
unfolding read_all
atoi [] = none
atoi (c ∷ s) =
    if c == b'-'
    then elim (within 9223372036854775808 (read_all s)) [ none ↦ none | some n ↦ some (true, n) ]
    else elim (within 9223372036854775807 (if c == b'+' then read_all s else read_all (c ∷ s))) [
      | none ↦ none
      | some n ↦ some (false, n)
    ]

read-digits : (f n : ℕ) (out : Bytes) → n < f → read (digits f n out) 0 ≡ read out n
unfolding read digits
read-digits zero n out h = elim h [ ]
read-digits (suc f) n out h = ground (arith, read-digits f (n / 10) ((b'0' + n % 10) ∷ out))

read-format : (n : ℕ) → read (format n) 0 ≡ some n
unfolding format read
read-format n = read-digits (suc n) n [] (omega arith)

pub format-injective : (n m : ℕ) → format n ≡ format m → n ≡ m
format-injective n m e = cc (read-format n, read-format m, ap (λ s. read s 0) e)

-- a byte of a printed number
abbrev pub IsPrinted : ℕ → Type 0
IsPrinted c = (c ≢ b'.') × (c ≢ b'v')

digits-IsPrinted : (f n : ℕ) (out : Bytes) → All IsPrinted out → All IsPrinted (digits f n out)
unfolding digits
digits-IsPrinted zero n out h = h
digits-IsPrinted (suc f) n out h = elim (Bool-cases (ltb n 10)) [
  | inl small ↦ rw small ((ground arith, ground arith), h)
  | inr big ↦
      rw big (digits-IsPrinted f (n / 10) ((b'0' + n % 10) ∷ out) ((omega arith, omega arith), h))
]

abbrev pub Starts : Bytes → Type 0
Starts [] = ⊥
Starts (c ∷ s) = (b'0' ≤ c) × (c ≤ b'9')

digits-Starts : (f n : ℕ) (out : Bytes) → (n < f) ⊎ Starts out → Starts (digits f n out)
unfolding digits
digits-Starts zero n out (inl h) = elim h [ ]
digits-Starts zero n out (inr h) = h
digits-Starts (suc f) n out h = elim (Bool-cases (ltb n 10)) [
  | inl small ↦ rw small (omega arith, ground arith)
  | inr big ↦
      rw big (digits-Starts f (n / 10) ((b'0' + n % 10) ∷ out) (inr (omega arith, omega arith)))
]

-- the text is non-empty and begins with a digit
format-Starts : (n : ℕ) → Starts (format n)
unfolding format
format-Starts n = digits-Starts (suc n) n [] (inl (omega arith))

format-IsPrinted : (n : ℕ) → All IsPrinted (format n)
unfolding format
format-IsPrinted n = digits-IsPrinted (suc n) n [] tt

pub itoa-IsPrinted : (v : Int32) → All IsPrinted (itoa v)
unfolding itoa
itoa-IsPrinted v = elim (Bool-cases (ltb v 2147483648)) [
  | inl neg ↦ rw neg ((omega arith, omega arith), format-IsPrinted (2147483648 - v))
  | inr nonneg ↦ rw nonneg (format-IsPrinted (v - 2147483648))
]

read_all-Starts : (s : Bytes) → Starts s → read_all s ≡ read s 0
unfolding read_all
read_all-Starts [] h = absurd h
read_all-Starts (c ∷ s) h = refl

read_all-format : (n : ℕ) → read_all (format n) ≡ some n
read_all-format n = read_all-Starts (format n) (format-Starts n) ∙ read-format n

-- The first byte of a printed number is neither sign.
atoi-Starts :
    (s : Bytes) (n : ℕ)
    → Starts s
    → read_all s ≡ some n
    → n ≤ 9223372036854775807
    → atoi s ≡ some (false, n)
unfolding atoi
atoi-Starts [] n h e b = absurd h
atoi-Starts (c ∷ s) n h e b =
    let plus : (c == b'+') ≡ false = ground arith in
    let minus : (c == b'-') ≡ false = ground arith in
    let fits : leb n 9223372036854775807 ≡ true = ground arith in rw (minus, plus, e, fits)

pub atoi-format : (n : ℕ) → n ≤ 9223372036854775807 → atoi (format n) ≡ some (false, n)
atoi-format n h = atoi-Starts (format n) n (format-Starts n) (read_all-format n) h

atoi-minus : (n : ℕ) → n ≤ 9223372036854775808 → atoi (b'-' ∷ format n) ≡ some (true, n)
unfolding atoi
atoi-minus n h =
    let fits : leb n 9223372036854775808 ≡ true = ground arith in rw (read_all-format n, fits)

-- the sign and the magnitude of an int32
abbrev pub parts : Int32 → Bool × ℕ
parts v = if ltb v 2147483648 then (true, 2147483648 - v) else (false, v - 2147483648)

-- Every int32 is read back from its print.
pub atoi-itoa : (v : Int32) → v < 4294967296 → atoi (itoa v) ≡ some (parts v)
unfolding itoa
atoi-itoa v h = elim (Bool-cases (ltb v 2147483648)) [
  | inl neg ↦ rw neg (atoi-minus (2147483648 - v) (omega arith))
  | inr nonneg ↦ rw nonneg (atoi-format (v - 2147483648) (omega arith))
]

parts-injective : (v w : Int32) → parts v ≡ parts w → v ≡ w
parts-injective v w e = ground arith

pub itoa-injective : (v w : Int32) → v < 4294967296 → w < 4294967296 → itoa v ≡ itoa w → v ≡ w
itoa-injective v w hv hw e = parts-injective v w (cc (atoi-itoa v hv, atoi-itoa w hw, ap atoi e))
