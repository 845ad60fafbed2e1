-- ===== src/Tiller/Paging/Chunks.antt =====
-- The messages of a list of releases: the chunks of partition in pkg/tiller/release_list.go.
use helm.Common.{
  ℕ, Bool, true, false, List, [], ◌∷◌, ◌++◌, length, ◌+◌, ◌≤◌, ◌≡◌, refl, ◌⊎◌, inl, inr, All,
  append_assoc, ap, ◌∙◌, Bool-cases, arith, subst,
}
use helm.Release.{Release}
use helm.Tiller.Paging.{chunks_from, partition}

unfoldable pub total : (Release → ℕ) → List Release → ℕ
total size [] = 0
total size (r ∷ rels) = size r + total size rels

unfoldable pub concat : List (List Release) → List Release
concat [] = []
concat (c ∷ cs) = c ++ concat cs

total-append :
    (size : Release → ℕ) (xs : List Release) (r : Release)
    → total size (xs ++ r ∷ []) ≡ total size xs + size r
unfolding total
total-append size [] r = omega arith
total-append size (x ∷ xs) r = omega (arith, total-append size xs r)

module _ (size : Release → ℕ) (over : ℕ → Bool) where
  -- the sizes of its releases are not over the capacity, or it has one release at most
  abbrev pub Fits : List Release → Type 0
  Fits chunk = (over (total size chunk) ≡ false) ⊎ (length chunk ≤ 1)

  chunks_from-over :
      (chunk : List Release) (fill : ℕ) (r : Release) (rels : List Release)
      → over (size r + fill) ≡ true
      → chunks_from size over chunk fill (r ∷ rels)
        ≡ chunk ∷ chunks_from size over (r ∷ []) (size r) rels
  unfolding chunks_from
  chunks_from-over chunk fill r rels e = rw (e, chunks_from)

  chunks_from_room :
      (chunk : List Release) (fill : ℕ) (r : Release) (rels : List Release)
      → over (size r + fill) ≡ false
      → chunks_from size over chunk fill (r ∷ rels)
        ≡ chunks_from size over (chunk ++ r ∷ []) (fill + size r) rels
  unfolding chunks_from
  chunks_from_room chunk fill r rels e = rw (e, chunks_from)

  concat-chunks_from :
      (chunk : List Release) (fill : ℕ) (rels : List Release)
      → concat (chunks_from size over chunk fill rels) ≡ chunk ++ rels
  unfolding chunks_from concat
  concat-chunks_from [] fill [] = refl
  concat-chunks_from (c ∷ chunk) fill [] = refl
  concat-chunks_from chunk fill (r ∷ rels) = elim (Bool-cases (over (size r + fill))) [
    | inl e ↦
        rw (chunks_from-over chunk fill r rels e)
          (ap (λ xs. chunk ++ xs) (concat-chunks_from (r ∷ []) (size r) rels))
    | inr e ↦ rw (chunks_from_room chunk fill r rels e) (
        concat-chunks_from (chunk ++ r ∷ []) (fill + size r) rels
        ∙ append_assoc chunk (r ∷ []) rels)
  ]

  chunks_from-Fits :
      (chunk : List Release) (fill : ℕ) (rels : List Release)
      → fill ≡ total size chunk
      → Fits chunk
      → All Fits (chunks_from size over chunk fill rels)
  unfolding chunks_from total
  chunks_from-Fits [] fill [] e h = tt
  chunks_from-Fits (c ∷ chunk) fill [] e h = (h, tt)
  chunks_from-Fits chunk fill (r ∷ rels) e h = elim (Bool-cases (over (size r + fill))) [
    | inl e' ↦
        rw (chunks_from-over chunk fill r rels e')
          (h, chunks_from-Fits (r ∷ []) (size r) rels (omega arith) (inr (omega arith)))
    | inr e' ↦
        let grown : fill + size r ≡ total size (chunk ++ r ∷ []) =
          omega (arith, total-append size chunk r) in
        let same : size r + fill ≡ total size (chunk ++ r ∷ []) = omega (arith, grown) in
        rw (chunks_from_room chunk fill r rels e') (
          chunks_from-Fits (chunk ++ r ∷ []) (fill + size r) rels grown
            (inl (subst (λ n. over n ≡ false) same e')))
  ]

  -- The messages hold all releases of the list in its order, and the sizes of the releases of each
  -- are not over the capacity, or it has one release at most.
  pub partition-Fits :
      (rels : List Release)
      → (concat (partition size over rels) ≡ rels) × All Fits (partition size over rels)
  unfolding partition total
  partition-Fits rels =
      (concat-chunks_from [] 0 rels, chunks_from-Fits [] 0 rels refl (inr (omega arith)))
