-- ===== src/Storage/Records/Lookup.antt =====
-- The records of a name as a map from keys: what each operation does to the record found at a key.
use helm.Common.{
  Bytes, Bool, true, false, Option, none, some, [], ◌∷◌, ◌++◌, ◌≡◌, refl, ◌∙◌, ◌&&◌, arith,
  if◌then◌else◌, Bool-cases, inl, inr,
}
use helm.Common.Text.{eqb, eqb_iff}
use helm.Common.Sort.{sift, sort}
use helm.Result.{ok, err, release_exists}
use helm.Storage.Records.{
  Entry, Records, less, index, at, get, exists, add, remove, remove_at, remove_index, replace,
  put_at,
}

-- the first record with the key
unfoldable pub find : Bytes → Records → Option Entry
find key [] = none
find key (r ∷ rs) = if eqb r.key key then some r else find key rs

-- No key stands twice.
abbrev pub IsDistinct : Records → Type 0
IsDistinct [] = Unit {0}
IsDistinct (r ∷ rs) = (find r.key rs ≡ none) × IsDistinct rs

pub get-eq-find : (key : Bytes) (rs : Records) → get key rs ≡ find key rs
unfolding get index at find
get-eq-find key [] = refl
get-eq-find key (r ∷ rs) = ground (arith, get-eq-find key rs)

abbrev pub is_some {ℓ} : {A : Type ℓ} → Option A → Bool
is_some none = false
is_some (some a) = true

pub exists-eq-find : (key : Bytes) (rs : Records) → exists key rs ≡ is_some (find key rs)
unfolding exists index find
exists-eq-find key [] = refl
exists-eq-find key (r ∷ rs) = ground (arith, exists-eq-find key rs)

find-sift :
    (x : Entry) (l : Records) (key : Bytes)
    → find x.key l ≡ none
    → find key (sift less x l) ≡ (if eqb x.key key then some x else find key l)
unfolding sift find
find-sift x [] key h = refl
find-sift x (y ∷ ys) key h =
    ground (arith, find-sift x ys key, eqb_iff x.key key, eqb_iff y.key key, eqb_iff y.key x.key)

find-sort : (l : Records) (key : Bytes) → IsDistinct l → find key (sort less l) ≡ find key l
unfolding sort find
find-sort [] key h = refl
find-sort (x ∷ xs) key (fresh, h) =
    ground (arith, find-sift x (sort less xs) key, find-sort xs x.key h, find-sort xs key h)

find-append :
    (l : Records) (r : Entry) (key : Bytes)
    → find r.key l ≡ none
    → find key (l ++ r ∷ []) ≡ (if eqb r.key key then some r else find key l)
unfolding find
find-append [] r key h = refl
find-append (x ∷ xs) r key h =
    ground (arith, find-append xs r key, eqb_iff x.key key, eqb_iff x.key r.key, eqb_iff r.key key)

IsDistinct-append :
    (l : Records) (r : Entry) → find r.key l ≡ none → IsDistinct l → IsDistinct (l ++ r ∷ [])
unfolding find
IsDistinct-append [] r h d = (refl, tt)
IsDistinct-append (x ∷ xs) r h (fresh, d) = (
  ground (arith, find-append xs r x.key, eqb_iff r.key x.key, eqb_iff x.key r.key),
  IsDistinct-append xs r (ground arith) d,
)

IsDistinct-sift :
    (x : Entry) (l : Records) → find x.key l ≡ none → IsDistinct l → IsDistinct (sift less x l)
unfolding sift find
IsDistinct-sift x [] h d = (refl, tt)
IsDistinct-sift x (y ∷ ys) h (fresh, d) = elim (Bool-cases (less y x)) [
  | inl lt ↦ rw lt (
    ground (arith, find-sift x ys y.key, eqb_iff x.key y.key, eqb_iff y.key x.key),
    IsDistinct-sift x ys (ground arith) d,
  )
  | inr ge ↦ rw ge (h, (fresh, d))
]

IsDistinct-sort : (l : Records) → IsDistinct l → IsDistinct (sort less l)
unfolding sort
IsDistinct-sort [] d = tt
IsDistinct-sort (x ∷ xs) (fresh, d) =
    IsDistinct-sift x (sort less xs) (find-sort xs x.key d ∙ fresh) (IsDistinct-sort xs d)

module _ (rs : Records) (distinct : IsDistinct rs) where
  -- `Add` refuses a key that is there, and else adds the record under its key.
  pub find-add :
      (r : Entry)
      → find r.key rs ≡ none
      → (rs' : Records) × (add r rs ≡ ok rs')
        × IsDistinct rs'
        × ((key : Bytes) → find key rs' ≡ (if eqb r.key key then some r else find key rs))
  unfolding add
  find-add r fresh = (
    sort less (rs ++ r ∷ []),
    rw (exists-eq-find r.key rs, fresh),
    IsDistinct-sort (rs ++ r ∷ []) (IsDistinct-append rs r fresh distinct),
    λ key.
        find-sort (rs ++ r ∷ []) key (IsDistinct-append rs r fresh distinct)
        ∙ find-append rs r key fresh,
  )

  pub add_exists :
      (r old : Entry) → find r.key rs ≡ some old → add r rs ≡ err (release_exists r.key)
  unfolding add
  add_exists r old h = rw (exists-eq-find r.key rs, h)

-- `Remove` returns the record found at the key, if any.
pub remove-eq-find : (key : Bytes) (rs : Records) → (remove key rs).0 ≡ find key rs
unfolding remove remove_at index at find
remove-eq-find key [] = refl
remove-eq-find key (r ∷ rs) = ground (arith, remove-eq-find key rs)

remove_step :
    (key : Bytes) (r : Entry) (rs : Records)
    → (remove key (r ∷ rs)).1 ≡ (if eqb r.key key then rs else r ∷ (remove key rs).1)
unfolding remove remove_at index remove_index
remove_step key r rs = ground arith

pub find-remove :
    (rs : Records) (key j : Bytes)
    → IsDistinct rs
    → find j (remove key rs).1 ≡ (if eqb key j then none else find j rs)
unfolding find
find-remove [] key j d = unfold remove index in ground arith
find-remove (r ∷ rs) key j (fresh, d) = ground (
  arith,
  remove_step key r rs,
  find-remove rs key j d,
  eqb_iff r.key key,
  eqb_iff r.key j,
  eqb_iff key j,
)

pub IsDistinct-remove : (rs : Records) (key : Bytes) → IsDistinct rs → IsDistinct (remove key rs).1
unfolding find
IsDistinct-remove [] key d = unfold remove index in tt
IsDistinct-remove (r ∷ rs) key (fresh, d) =
    rw (remove_step key r rs) (elim (Bool-cases (eqb r.key key)) [
      | inl same ↦ rw same d
      | inr other ↦ rw other (
        find-remove rs key r.key d ∙ ground (arith, eqb_iff r.key key, eqb_iff key r.key),
        IsDistinct-remove rs key d,
      )
    ])

replace_step :
    (key : Bytes) (rec r : Entry) (rs : Records)
    → (replace key rec (r ∷ rs)).1
      ≡ (if eqb r.key key then rec ∷ rs else r ∷ (replace key rec rs).1)
unfolding replace index put_at
replace_step key rec r rs = ground arith

-- `Replace` puts a record of the same key in the place of the one found there.
pub find-replace :
    (rs : Records) (rec : Entry) (j : Bytes)
    → find j (replace rec.key rec rs).1
      ≡ (if eqb rec.key j && is_some (find j rs) then some rec else find j rs)
unfolding find
find-replace [] rec j = unfold replace index in ground arith
find-replace (r ∷ rs) rec j = ground (
  arith,
  replace_step rec.key rec r rs,
  find-replace rs rec j,
  eqb_iff r.key rec.key,
  eqb_iff r.key j,
  eqb_iff rec.key j,
)

pub IsDistinct-replace :
    (rs : Records) (rec : Entry) → IsDistinct rs → IsDistinct (replace rec.key rec rs).1
unfolding find
IsDistinct-replace [] rec d = unfold replace index in tt
IsDistinct-replace (r ∷ rs) rec (fresh, d) =
    rw (replace_step rec.key rec r rs) (elim (Bool-cases (eqb r.key rec.key)) [
      | inl same ↦ rw same (ground (arith, eqb_iff r.key rec.key), d)
      | inr other ↦ rw other (
        ground (arith, find-replace rs rec r.key, eqb_iff rec.key r.key, eqb_iff r.key rec.key),
        IsDistinct-replace rs rec d,
      )
    ])
