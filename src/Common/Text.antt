-- ===== src/Common/Text.antt =====
-- Byte strings: equality, the lexicographic order of Go's `<`, `strings.Contains`,
-- `strings.HasPrefix` and `strings.Split` by a separator of two bytes.
use Prim.Native.Nat.{ℕ}
use mathlib.Core.Path.{◌≡◌, refl}
use mathlib.Core.Bool.{Bool, true, false, ◌&&◌, ◌||◌}
use mathlib.Core.Logic.{◌↔◌, ◌≢◌, inl, inr}
use mathlib.Core.List.{List, [], ◌∷◌, ◌++◌}
use native.Mathlib.Omega.{arith}
use helm.Common.Defs.{Bytes, ltb, ◌==◌, if◌then◌else◌, Bool-cases}

unfoldable pub eqb : Bytes → Bytes → Bool
eqb [] [] = true
eqb (a ∷ s) (b ∷ t) = a == b && eqb s t
eqb _ _ = false

pub eqb-eq : (s t : Bytes) → eqb s t ≡ true → s ≡ t
unfolding eqb
eqb-eq [] [] h = refl
eqb-eq [] (b ∷ t) h = cc
eqb-eq (a ∷ s) [] h = cc
eqb-eq (a ∷ s) (b ∷ t) h = ground (arith, eqb-eq s t)

pub eqb_refl : (s : Bytes) → eqb s s ≡ true
unfolding eqb
eqb_refl [] = refl
eqb_refl (a ∷ s) = ground (arith, eqb_refl s)

pub eqb_iff : (s t : Bytes) → (eqb s t ≡ true) ↔ (s ≡ t)
eqb_iff s t = (eqb-eq s t, λ e. rw e (eqb_refl t))

-- `s < t`, byte by byte
unfoldable pub lessb : Bytes → Bytes → Bool
lessb [] [] = false
lessb [] (b ∷ t) = true
lessb (a ∷ s) [] = false
lessb (a ∷ s) (b ∷ t) = ltb a b || (a == b && lessb s t)

pub lessb_asym : (s t : Bytes) → lessb s t ≡ true → lessb t s ≡ false
unfolding lessb
lessb_asym [] [] h = cc
lessb_asym [] (b ∷ t) h = refl
lessb_asym (a ∷ s) [] h = cc
lessb_asym (a ∷ s) (b ∷ t) h = ground (arith, lessb_asym s t)

pub lessb_trans : (s t u : Bytes) → lessb t s ≡ false → lessb u t ≡ false → lessb u s ≡ false
unfolding lessb
lessb_trans [] [] u h k = k
lessb_trans [] (b ∷ t) [] h k = refl
lessb_trans [] (b ∷ t) (c ∷ u) h k = refl
lessb_trans (a ∷ s) [] u h k = cc
lessb_trans (a ∷ s) (b ∷ t) [] h k = cc
lessb_trans (a ∷ s) (b ∷ t) (c ∷ u) h k = ground (arith, lessb_trans s t u)

-- two texts of which neither is less are equal
pub lessb_antisymm : (s t : Bytes) → lessb s t ≡ false → lessb t s ≡ false → s ≡ t
unfolding lessb
lessb_antisymm [] [] h k = refl
lessb_antisymm [] (b ∷ t) h k = cc
lessb_antisymm (a ∷ s) [] h k = cc
lessb_antisymm (a ∷ s) (b ∷ t) h k = ground (arith, lessb_antisymm s t)

unfoldable pub has_prefix : Bytes → Bytes → Bool
has_prefix s [] = true
has_prefix [] (b ∷ t) = false
has_prefix (a ∷ s) (b ∷ t) = a == b && has_prefix s t

-- `strings.Contains`
unfoldable pub contains : Bytes → Bytes → Bool
unfolding has_prefix
contains [] t = has_prefix [] t
contains (a ∷ s) t = has_prefix (a ∷ s) t || contains s t

-- a byte put in front of the first part
abbrev pub onto : ℕ → List Bytes → List Bytes
onto a [] = (a ∷ []) ∷ []
onto a (p ∷ ps) = (a ∷ p) ∷ ps

-- `strings.Split(s, sep)` for the separator of the bytes `x` and `y`: the leftmost separator cuts
-- first, and matches do not overlap.
unfoldable pub split2 : ℕ → ℕ → Bytes → List Bytes
split2 x y [] = [] ∷ []
split2 x y (a ∷ []) = (a ∷ []) ∷ []
split2 x y (a ∷ b ∷ s) = elim (a == x && b == y) [
  | true ↦ [] ∷ split2 x y s
  | false ↦ onto a (split2 x y (b ∷ s))
]

pub split2_step :
    (x y a b : ℕ) (s : Bytes)
    → split2 x y (a ∷ b ∷ s)
      ≡ (if a == x && b == y then [] ∷ split2 x y s else onto a (split2 x y (b ∷ s)))
unfolding split2
split2_step x y a b s = elim (Bool-cases (a == x && b == y)) [
  | inl e ↦ rw (e, split2)
  | inr e ↦ rw (e, split2)
]

-- The text lacks the two bytes in a row, also where one more byte `y` follows it.
unfoldable pub lacks2 : ℕ → ℕ → Bytes → Bool
lacks2 x y [] = true
lacks2 x y (a ∷ []) = true
lacks2 x y (a ∷ b ∷ s) = if a == x && b == y then false else lacks2 x y (b ∷ s)

pub split2-lacks2 : (x y : ℕ) (s : Bytes) → lacks2 x y s ≡ true → split2 x y s ≡ s ∷ []
unfolding split2 lacks2
split2-lacks2 x y [] h = refl
split2-lacks2 x y (a ∷ []) h = refl
split2-lacks2 x y (a ∷ b ∷ s) h = ground (arith, split2-lacks2 x y (b ∷ s))

-- A text that lacks the separator, the separator, and the rest: the first cut is there.
pub split2-append :
    (x y : ℕ) (s t : Bytes)
    → x ≢ y
    → lacks2 x y s ≡ true
    → split2 x y (s ++ x ∷ y ∷ t) ≡ s ∷ split2 x y t
unfolding split2 lacks2
split2-append x y [] t ne h = ground arith
split2-append x y (a ∷ []) t ne h = ground arith
split2-append x y (a ∷ b ∷ s) t ne h = ground (arith, split2-append x y (b ∷ s) t)
