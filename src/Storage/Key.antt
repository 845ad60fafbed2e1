-- ===== src/Storage/Key.antt =====
-- The keys of stored releases: makeKey of pkg/storage/storage.go, and how the in-memory driver
-- reads a key back.
use helm.Common.{
  ℕ, Bytes, true, false, List, [], ◌∷◌, ◌++◌, ◌≡◌, ◌≢◌, refl, ◌<◌, ◌≤◌, arith, All, subst, length,
  none, some,
}
use helm.Common.Text.{lacks2, split2, split2_step, onto, split2-append, split2-lacks2}
use helm.Common.Decimal.{Int32, itoa, IsPrinted, itoa-IsPrinted, itoa-injective, atoi-itoa}
use helm.Storage.Store.{make_key}
use helm.Storage.Memory.{key_name, two_parts}

abbrev NoDot : ℕ → Type 0
NoDot c = c ≢ b'.'

NoDot-IsPrinted : (s : Bytes) → All IsPrinted s → All NoDot s
NoDot-IsPrinted [] h = tt
NoDot-IsPrinted (c ∷ s) (h, hs) = (h.0, NoDot-IsPrinted s hs)

not_printed : (q t : Bytes) → All NoDot (q ++ b'.' ∷ t) → ⊥
not_printed [] t (h, _) = h refl
not_printed (c ∷ q) t (_, hs) = not_printed q t hs

-- Two texts cut at their last dot are equal part by part.
cut_unique :
    (p q s t : Bytes)
    → All NoDot s
    → All NoDot t
    → p ++ b'.' ∷ s ≡ q ++ b'.' ∷ t
    → (p ≡ q) × (s ≡ t)
cut_unique [] [] s t hs ht e = ground arith
cut_unique [] (c ∷ q) s t hs ht e =
    let tail : s ≡ q ++ b'.' ∷ t = cc in absurd (not_printed q t (subst (All NoDot) tail hs))
cut_unique (c ∷ p) [] s t hs ht e =
    let tail : t ≡ p ++ b'.' ∷ s = cc in absurd (not_printed p s (subst (All NoDot) tail ht))
cut_unique (c ∷ p) (d ∷ q) s t hs ht e = ground (arith, cut_unique p q s t hs ht)

key_tail : (v : Int32) → All NoDot (b'v' ∷ itoa v)
key_tail v = (omega arith, NoDot-IsPrinted (itoa v) (itoa-IsPrinted v))

-- A key of an int32 version determines the name and the version, whatever bytes the name has.
pub make_key-injective :
    (m n : Bytes) (v w : Int32)
    → v < 4294967296
    → w < 4294967296
    → make_key m v ≡ make_key n w
    → (m ≡ n) × (v ≡ w)
unfolding make_key
make_key-injective m n v w hv hw e =
    let (heads, tails) =
      cut_unique m n (b'v' ∷ itoa v) (b'v' ∷ itoa w) (key_tail v) (key_tail w) e in
    (heads, itoa-injective v w hv hw (cc))

lacks2-IsPrinted : (s : Bytes) → All IsPrinted s → lacks2 b'.' b'v' s ≡ true
unfolding lacks2
lacks2-IsPrinted [] h = refl
lacks2-IsPrinted (c ∷ []) h = refl
lacks2-IsPrinted (c ∷ d ∷ s) (h, hs) = ground (arith, h.0, lacks2-IsPrinted (d ∷ s) hs)

-- The in-memory driver reads a name without ".v" back from its keys for int32 versions.
pub key_name-make_key :
    (name : Bytes) (v : Int32)
    → lacks2 b'.' b'v' name ≡ true
    → v < 4294967296
    → key_name (make_key name v) ≡ some name
unfolding key_name make_key
key_name-make_key name v h hv = rw (
  split2-append b'.' b'v' name (itoa v) (omega arith) h,
  split2-lacks2 b'.' b'v' (itoa v) (lacks2-IsPrinted (itoa v) (itoa-IsPrinted v)),
  atoi-itoa v hv,
)

length-onto : (a : ℕ) (l : List Bytes) → 1 ≤ length l → length (onto a l) ≡ length l
length-onto a [] h = elim h [ ]
length-onto a (p ∷ ps) h = refl

module _ (x y : ℕ) (x_ne_y : x ≢ y) where
  -- the number of parts of a split
  parts-le : (s : Bytes) → 1 ≤ length (split2 x y s)
  parts-le [] = unfold split2 in omega arith
  parts-le (a ∷ []) = unfold split2 in omega arith
  parts-le (a ∷ b ∷ s) =
      ground (arith, split2_step x y a b s, parts-le (b ∷ s), length-onto a (split2 x y (b ∷ s)))

  -- a separator makes two parts
  two_parts-le : (s t : Bytes) → 2 ≤ length (split2 x y (s ++ x ∷ y ∷ t))
  two_parts-le [] t = ground (arith, split2_step x y x y t, parts-le t)
  two_parts-le (a ∷ []) t = ground (
    arith,
    split2_step x y a x (y ∷ t),
    two_parts-le [] t,
    length-onto a (split2 x y (x ∷ y ∷ t)),
  )
  two_parts-le (a ∷ b ∷ s) t = ground (
    arith,
    split2_step x y a b (s ++ x ∷ y ∷ t),
    parts-le (s ++ x ∷ y ∷ t),
    two_parts-le (b ∷ s) t,
    length-onto a (split2 x y (b ∷ s ++ x ∷ y ∷ t)),
  )

  -- and one more makes three
  three_parts-le : (s t : Bytes) → lacks2 x y s ≡ false → 3 ≤ length (split2 x y (s ++ x ∷ y ∷ t))
  unfolding lacks2
  three_parts-le [] t h = cc
  three_parts-le (a ∷ []) t h = cc
  three_parts-le (a ∷ b ∷ s) t h = ground (
    arith,
    split2_step x y a b (s ++ x ∷ y ∷ t),
    two_parts-le s t,
    three_parts-le (b ∷ s) t,
    length-onto a (split2 x y (b ∷ s ++ x ∷ y ∷ t)),
  )

two_parts-long : (l : List Bytes) → 3 ≤ length l → two_parts l ≡ none
two_parts-long [] h = elim h [ ]
two_parts-long (a ∷ []) h = absurd (omega arith)
two_parts-long (a ∷ b ∷ []) h = absurd (omega arith)
two_parts-long (a ∷ b ∷ c ∷ l) h = refl

-- The in-memory driver cannot read the keys of a name that holds ".v".
pub key_name-make_key_dotted :
    (name : Bytes) (v : Int32) → lacks2 b'.' b'v' name ≡ false → key_name (make_key name v) ≡ none
unfolding key_name make_key
key_name-make_key_dotted name v h =
    two_parts-long (split2 b'.' b'v' (name ++ b'.' ∷ b'v' ∷ itoa v))
      (three_parts-le b'.' b'v' (omega arith) name (itoa v) h)
