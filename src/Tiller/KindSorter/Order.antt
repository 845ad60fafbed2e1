-- ===== src/Tiller/KindSorter/Order.antt =====
-- The order of manifests: by the positions of their kinds in a list of kinds, and by name.
use helm.Common.{
  suc, true, false, ◌≡◌, refl, sym, ap, arith, Bytes, [], ◌∷◌, ◌++◌, ◌+◌, length, All, Bool-cases,
  if◌then◌else◌, Option, none, some, ℕ, List, Perm, ◌⊎◌, inl, inr, ◌<◌,
}
use helm.Common.Text.{eqb, lessb, eqb_iff, lessb_asym, lessb_trans, lessb_antisymm}
use helm.Common.Sort.{IsWeakOrder, IsOrdered, IsSorted-IsOrdered, sort, sort-IsSorted, sort-perm}
use helm.Tiller.Server.{Manifest}
use helm.Tiller.KindSorter.{SortOrder, less_at, less_kind, sort_by_kind, ordering}

less_at_asym : (i j : Option ℕ) (a b : Manifest) → less_at i a j b ≡ true → less_at j b i a ≡ false
unfolding less_at
less_at_asym none none a b h = ground (
  arith,
  lessb_asym a.kind b.kind,
  lessb_asym a.name b.name,
  eqb_iff a.kind b.kind,
  eqb_iff b.kind a.kind,
)
less_at_asym none (some j) a b h = cc
less_at_asym (some i) none a b h = refl
less_at_asym (some i) (some j) a b h = ground (arith, lessb_asym a.name b.name)

less_at_trans :
    (i j k : Option ℕ) (a b c : Manifest)
    → less_at j b i a ≡ false
    → less_at k c j b ≡ false
    → less_at k c i a ≡ false
unfolding less_at
less_at_trans none none none a b c h g = ground (
  arith,
  lessb_trans a.kind b.kind c.kind,
  lessb_trans a.name b.name c.name,
  lessb_antisymm a.kind b.kind,
  lessb_antisymm b.kind c.kind,
  lessb_antisymm a.kind c.kind,
  lessb_asym a.kind b.kind,
  lessb_asym b.kind c.kind,
  lessb_asym a.kind c.kind,
  eqb_iff b.kind a.kind,
  eqb_iff c.kind b.kind,
  eqb_iff c.kind a.kind,
)
less_at_trans _ _ _ a b c h g = ground (arith, lessb_trans a.name b.name c.name)

-- `kindSorter.Less` is a strict weak order, whatever order of kinds is given.
kinds : (order : SortOrder) → IsWeakOrder (less_kind order)
unfolding less_kind
kinds order = record {
  asym = λ a b. less_at_asym (ordering 0 order a.kind) (ordering 0 order b.kind) a b;
  trans = λ a b c.
      less_at_trans (ordering 0 order a.kind) (ordering 0 order b.kind) (ordering 0 order c.kind) a
        b c;
}

-- the kind stands at the position in the order, for the last time
abbrev pub At : SortOrder → Bytes → ℕ → Type 0
At order kind i =
    (before after : SortOrder) × (order ≡ before ++ kind ∷ after)
    × (length before ≡ i)
    × All (λ k. eqb k kind ≡ false) after

abbrev pub Unknown : SortOrder → Bytes → Type 0
Unknown order kind = All (λ k. eqb k kind ≡ false) order

-- The first may stand before the second: by the positions of their kinds, and with known kinds
-- before unknown ones; of one position, by name; and where both are unknown, by kind, then by name.
abbrev pub MayPrecede : SortOrder → Manifest → Manifest → Type 0
MayPrecede order a b =
    ((i j : ℕ) × At order a.kind i
      × At order b.kind j
      × ((i < j) ⊎ ((i ≡ j) × (lessb b.name a.name ≡ false))))
    ⊎ (((i : ℕ) × At order a.kind i × Unknown order b.kind)
        ⊎ (Unknown order a.kind
            × Unknown order b.kind
            × ((lessb a.kind b.kind ≡ true) ⊎ ((a.kind ≡ b.kind) × (lessb b.name a.name ≡ false)))))

abbrev Place : ℕ → SortOrder → Bytes → Option ℕ → Type 0
Place v order kind none = Unknown order kind
Place v order kind (some w) = (i : ℕ) × (w ≡ v + i) × At order kind i

ordering-Place :
    (v : ℕ) (order : SortOrder) (kind : Bytes) → Place v order kind (ordering v order kind)
unfolding ordering
ordering-Place v [] kind = tt
ordering-Place v (k ∷ ks) kind =
    go (ordering (suc v) ks kind) (ordering-Place (suc v) ks kind) (Bool-cases (eqb k kind))
  where
    go :
        (o : Option ℕ)
        → Place (suc v) ks kind o
        → (eqb k kind ≡ true) ⊎ (eqb k kind ≡ false)
        → Place v
            (k ∷ ks)
            kind
            (elim o [ some w ↦ some w | none ↦ if eqb k kind then some v else none ])
    go (some w) (i, e, (before, after, split, at, rest)) _ =
        (suc i, omega arith, (k ∷ before, after, ap (λ l. k ∷ l) split, ap suc at, rest))
    go none h (inl e) =
        rw e (0, omega arith, ([], ks, ap (λ x. x ∷ ks) ((eqb_iff k kind).0 e), refl, h))
    go none h (inr e) = rw e (e, h)

less_at-MayPrecede :
    (order : SortOrder) (a b : Manifest) (i j : Option ℕ)
    → Place 0 order a.kind i
    → Place 0 order b.kind j
    → less_at j b i a ≡ false
    → MayPrecede order a b
unfolding less_at
less_at-MayPrecede order a b none none p q h = inr (inr (p, q, by_kind))
  where
    by_kind : (lessb a.kind b.kind ≡ true) ⊎ ((a.kind ≡ b.kind) × (lessb b.name a.name ≡ false))
    by_kind = elim (Bool-cases (eqb b.kind a.kind)) [
      | inl e ↦ inr (sym ((eqb_iff b.kind a.kind).0 e), rw e at h)
      | inr e ↦ elim (Bool-cases (lessb a.kind b.kind)) [
        | inl l ↦ inl l
        | inr l ↦
            absurd
              (ground (arith, lessb_antisymm b.kind a.kind (rw e at h) l, eqb_iff b.kind a.kind, e))
      ]
    ]
less_at-MayPrecede order a b none (some j) p q h = cc
less_at-MayPrecede order a b (some i) none (i', e, p) q h = inr (inl (i', p, q))
less_at-MayPrecede order a b (some i) (some j) (i', e, p) (j', f, q) h =
    inl (i', j', p, q, ground (arith, e, f, h))

kinds-MayPrecede :
    (order : SortOrder) (a b : Manifest) → less_kind order b a ≡ false → MayPrecede order a b
unfolding less_kind
kinds-MayPrecede order a b h =
    less_at-MayPrecede order a b _ _ (ordering-Place 0 order a.kind) (ordering-Place 0 order b.kind)
      h

-- Sorting manifests by kind keeps them all, and puts them in the order of the last positions of their
-- kinds in the list of kinds, and by name at the same position. Kinds that the list lacks come
-- after all others, by kind and then by name.
pub sort_by_kind-IsOrdered :
    (ms : List Manifest) (order : SortOrder)
    → Perm (sort_by_kind ms order) ms × IsOrdered (MayPrecede order) (sort_by_kind ms order)
unfolding sort_by_kind
sort_by_kind-IsOrdered ms order = (
  sort-perm (less_kind order) ms,
  IsSorted-IsOrdered (less_kind order) (MayPrecede order) (kinds-MayPrecede order)
      (sort (less_kind order) ms) (sort-IsSorted (kinds order) ms),
)
