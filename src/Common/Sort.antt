-- ===== src/Common/Sort.antt =====
-- Go's `sort.Sort` over a `Less`: some rearrangement in which no element is less than one before
-- it. It is run here as an insertion sort, which is what Go runs on slices of up to 12 elements.
use mathlib.Core.List.Perm
use Prim.Native.Nat.{suc}
use mathlib.Core.Path.{◌≡◌, refl, ap, ◌∙◌}
use mathlib.Core.Bool.{Bool, true, false}
use mathlib.Core.Logic.{inl, inr}
use mathlib.Core.List.{List, [], ◌∷◌, Perm}
use native.Mathlib.Omega.{arith}
use helm.Common.Defs.{if◌then◌else◌, Bool-cases, All, length}

module _ {ℓ} {A : Type ℓ} (less : A → A → Bool) where
  unfoldable pub sift : A → List A → List A
  sift x [] = x ∷ []
  sift x (y ∷ ys) = if less y x then y ∷ sift x ys else x ∷ y ∷ ys

  unfoldable pub sort : List A → List A
  unfolding sift
  sort [] = []
  sort (x ∷ xs) = sift x (sort xs)

  -- No element is less than one before it.
  abbrev pub IsSorted : List A → Type 0
  IsSorted [] = Unit {0}
  IsSorted (x ∷ xs) = All (λ y. less y x ≡ false) xs × IsSorted xs

  pub All-sift {κ} : (P : A → Type κ) (x : A) (l : List A) → P x → All P l → All P (sift x l)
  unfolding sift
  All-sift P x [] px _ = (px, tt)
  All-sift P x (y ∷ ys) px (py, pys) = elim (Bool-cases (less y x)) [
    | inl lt ↦ rw lt (py, All-sift P x ys px pys)
    | inr ge ↦ rw ge (px, (py, pys))
  ]

  pub All-sort {κ} : (P : A → Type κ) (l : List A) → All P l → All P (sort l)
  unfolding sort
  All-sort P [] h = tt
  All-sort P (x ∷ xs) (px, pxs) = All-sift P x (sort xs) px (All-sort P xs pxs)

  All-unsift {κ} : (P : A → Type κ) (x : A) (l : List A) → All P (sift x l) → P x × All P l
  unfolding sift
  All-unsift P x [] h = h
  All-unsift P x (y ∷ ys) h = elim (Bool-cases (less y x)) [
    | inl lt ↦
        (let (py, rest) : P y × All P (sift x ys) = rw lt at h in
          let (px, pys) = All-unsift P x ys rest in (px, (py, pys)))
    | inr ge ↦ rw ge at h
  ]

  pub All-unsort {κ} : (P : A → Type κ) (l : List A) → All P (sort l) → All P l
  unfolding sort
  All-unsort P [] h = tt
  All-unsort P (x ∷ xs) h = let (px, pxs) = All-unsift P x (sort xs) h in (px, All-unsort P xs pxs)

  length-sift : (x : A) (l : List A) → length (sift x l) ≡ suc (length l)
  unfolding sift
  length-sift x [] = refl
  length-sift x (y ∷ ys) = ground (arith, length-sift x ys)

  pub length-sort : (l : List A) → length (sort l) ≡ length l
  unfolding sort
  length-sort [] = refl
  length-sort (x ∷ xs) = length-sift x (sort xs) ∙ ap suc (length-sort xs)

  sift-perm : (x : A) (l : List A) → Perm (sift x l) (x ∷ l)
  unfolding sift
  sift-perm x [] = Perm.rfl
  sift-perm x (y ∷ ys) = elim (Bool-cases (less y x)) [
    | inl lt ↦ rw lt (Perm.trans (Perm.cons y (sift-perm x ys)) (Perm.swap x y ys))
    | inr ge ↦ rw ge Perm.rfl
  ]

  pub sort-perm : (l : List A) → Perm (sort l) l
  unfolding sort
  sort-perm [] = Perm.rfl
  sort-perm (x ∷ xs) = Perm.trans (sift-perm x (sort xs)) (Perm.cons x (sort-perm xs))

-- Every element stands in the relation to every later one.
abbrev pub IsOrdered {ℓ} : {A : Type ℓ} → (A → A → Type 0) → List A → Type 0
IsOrdered R [] = Unit {0}
IsOrdered R (x ∷ xs) = All (R x) xs × IsOrdered R xs

-- in terms of what it means that `Less` does not put the later one first
module _ {ℓ} {A : Type ℓ} (less : A → A → Bool) (R : A → A → Type 0)
    (means : (x y : A) → less y x ≡ false → R x y) where
  All-means : (x : A) (l : List A) → All (λ y. less y x ≡ false) l → All (R x) l
  All-means x [] h = tt
  All-means x (y ∷ l) (h, k) = (means x y h, All-means x l k)

  pub IsSorted-IsOrdered : (l : List A) → IsSorted less l → IsOrdered R l
  IsSorted-IsOrdered [] h = tt
  IsSorted-IsOrdered (x ∷ l) (h, k) = (All-means x l h, IsSorted-IsOrdered l k)

-- What `sort.Interface` asks of `Less`: a strict weak order.
pub record IsWeakOrder {ℓ} {A : Type ℓ} (less : A → A → Bool) : Type ℓ where
  pub asym : (a b : A) → less a b ≡ true → less b a ≡ false
  pub trans : (a b c : A) → less b a ≡ false → less c b ≡ false → less c a ≡ false

module _ {ℓ} {A : Type ℓ} {less : A → A → Bool} (order : IsWeakOrder less) where
  open order use {asym, trans}

  not_less-All :
      (x y : A) (l : List A)
      → less y x ≡ false
      → All (λ z. less z y ≡ false) l
      → All (λ z. less z x ≡ false) l
  not_less-All x y [] h _ = tt
  not_less-All x y (z ∷ zs) h (hz, hzs) = (trans x y z h hz, not_less-All x y zs h hzs)

  sift-IsSorted : (x : A) (l : List A) → IsSorted less l → IsSorted less (sift less x l)
  unfolding sift
  sift-IsSorted x [] _ = (tt, tt)
  sift-IsSorted x (y ∷ ys) (below, s) = elim (Bool-cases (less y x)) [
    | inl lt ↦
        rw lt (All-sift less (λ z. less z y ≡ false) x ys (asym y x lt) below, sift-IsSorted x ys s)
    | inr ge ↦ rw ge ((ge, not_less-All x y ys ge below), (below, s))
  ]

  pub sort-IsSorted : (l : List A) → IsSorted less (sort less l)
  unfolding sort
  sort-IsSorted [] = tt
  sort-IsSorted (x ∷ xs) = sift-IsSorted x (sort less xs) (sort-IsSorted xs)
