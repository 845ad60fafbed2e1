-- ===== src/Storage/Memory/View.antt =====
-- The cache of the in-memory driver as a map from a release name and a key to a record.
use helm.Common.{
  Bytes, Option, none, some, [], ◌∷◌, ◌≡◌, refl, ◌∙◌, subst, arith, if◌then◌else◌, Bool-cases, inl,
  inr,
}
use helm.Common.Text.{eqb, eqb_iff}
use helm.Storage.Records.{Entry, Records}
use helm.Storage.Records.Lookup.{find, IsDistinct}
use helm.Storage.Memory.{Cache, bucket, assign}

abbrev pub find_in : Bytes → Option Records → Option Entry
find_in key none = none
find_in key (some recs) = find key recs

-- the record of a name at a key
abbrev pub lookup : Bytes → Bytes → Cache → Option Entry
lookup name key cache = find_in key (bucket name cache)

-- Names stand once, and each bucket has distinct keys.
abbrev pub IsWellFormed : Cache → Type 0
IsWellFormed [] = Unit {0}
IsWellFormed ((n, recs) ∷ cache) = (IsDistinct recs × (bucket n cache ≡ none)) × IsWellFormed cache

pub bucket-assign :
    (n m : Bytes) (recs : Records) (cache : Cache)
    → bucket n (assign m recs cache) ≡ (if eqb m n then some recs else bucket n cache)
unfolding bucket assign
bucket-assign n m recs [] = refl
bucket-assign n m recs ((k, rs) ∷ cache) =
    ground (arith, bucket-assign n m recs cache, eqb_iff k m, eqb_iff k n, eqb_iff m n)

pub IsWellFormed-assign :
    (m : Bytes) (recs : Records) (cache : Cache)
    → IsDistinct recs
    → IsWellFormed cache
    → IsWellFormed (assign m recs cache)
unfolding assign bucket
IsWellFormed-assign m recs [] d w = ((d, refl), tt)
IsWellFormed-assign m recs ((k, rs) ∷ cache) d ((dk, fresh), w) = elim (Bool-cases (eqb k m)) [
  | inl same ↦ rw same ((d, fresh), w)
  | inr other ↦ rw other (
    (dk, bucket-assign k m recs cache ∙ ground (arith, eqb_iff k m, eqb_iff m k)),
    IsWellFormed-assign m recs cache d w,
  )
]

pub IsDistinct-bucket :
    (n : Bytes) (cache : Cache) {recs : Records}
    → IsWellFormed cache
    → bucket n cache ≡ some recs
    → IsDistinct recs
unfolding bucket
IsDistinct-bucket n [] {recs} w h = cc
IsDistinct-bucket n ((k, rs) ∷ cache) {recs} ((d, fresh), w) h = elim (Bool-cases (eqb k n)) [
  | inl same ↦ let e : rs ≡ recs = cc (rw same at h) in subst IsDistinct e d
  | inr other ↦ IsDistinct-bucket n cache w (rw other at h)
]
