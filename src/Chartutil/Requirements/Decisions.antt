-- ===== src/Chartutil/Requirements/Decisions.antt =====
-- What the condition of a dependency decides: the loop of ProcessRequirementsConditions of
-- pkg/chartutil/requirements.go over the paths of a condition.
use helm.Common.{
  Bytes, Bool, Option, none, some, List, [], ◌∷◌, ◌++◌, ◌≡◌, refl, ap, sym, subst, All, ◌⊎◌, inl,
  inr,
}
use helm.Chartutil.Value.{Fields, bool, null, number, text, list, table, values}
use helm.Chartutil.Paths.{PathResult, found, no_value, zero_length, path_value}
use helm.Chartutil.Requirements.{decide, verdict}

-- A path leads nowhere or to null, and is passed over.
abbrev pub IsPassed : PathResult → Type 0
IsPassed (found null) = Unit
IsPassed (found v) = ⊥
IsPassed no_value = Unit
IsPassed zero_length = Unit

-- A path leads to a value that is neither a Boolean nor null, and ends the search.
abbrev pub IsOther : PathResult → Type 0
IsOther (found null) = ⊥
IsOther (found (bool b)) = ⊥
IsOther (found v) = Unit
IsOther no_value = ⊥
IsOther zero_length = ⊥

module _ (cvals : Fields) (cpath : Bytes) where
  -- of a path of a condition; the empty one is passed over
  abbrev pub Says : (PathResult → Type 0) → Type 0 → Bytes → Type 0
  Says P empty [] = empty
  Says P empty (c ∷ s) = P (path_value cvals (cpath ++ c ∷ s))

  abbrev pub Passed : Bytes → Type 0
  Passed = Says IsPassed Unit

  -- The first path that is not passed over leads to the Boolean.
  abbrev pub Decides : List Bytes → Bool → Type 0
  Decides paths b =
      (before after : List Bytes) × (p : Bytes) × (paths ≡ before ++ p ∷ after)
      × All Passed before
      × Says (λ x. x ≡ found (bool b)) ⊥ p

  -- All paths are passed over, or the first that is not leads to no Boolean.
  abbrev pub IsUndecided : List Bytes → Type 0
  IsUndecided paths =
      All Passed paths
      ⊎ ((before after : List Bytes) × (p : Bytes) × (paths ≡ before ++ p ∷ after)
          × All Passed before
          × Says IsOther ⊥ p)

  abbrev pub IsDecision : List Bytes → Option Bool → Type 0
  IsDecision paths none = IsUndecided paths
  IsDecision paths (some b) = Decides paths b

  skip_path :
      (p : Bytes) (paths : List Bytes) (d : Option Bool)
      → Passed p
      → IsDecision paths d
      → IsDecision (p ∷ paths) d
  skip_path p paths (some b) h (before, after, q, split, all, at) =
      (p ∷ before, after, q, ap (λ l. p ∷ l) split, (h, all), at)
  skip_path p paths none h (inl all) = inl (h, all)
  skip_path p paths none h (inr (before, after, q, split, all, at)) =
      inr (p ∷ before, after, q, ap (λ l. p ∷ l) split, (h, all), at)

  pub decide-IsDecision : (paths : List Bytes) → IsDecision paths (decide cvals cpath paths)
  unfolding decide
  decide-IsDecision [] = inl tt
  decide-IsDecision ([] ∷ paths) = skip_path [] paths _ tt (decide-IsDecision paths)
  decide-IsDecision ((c ∷ s) ∷ paths) =
      go (path_value cvals (cpath ++ c ∷ s)) refl (decide cvals cpath paths)
        (decide-IsDecision paths)
    where
      go :
          (x : PathResult)
          → path_value cvals (cpath ++ c ∷ s) ≡ x
          → (d : Option Bool) → IsDecision paths d
          → IsDecision ((c ∷ s) ∷ paths) (verdict x d)
      go (found null) e d h = skip_path (c ∷ s) paths d (subst IsPassed (sym e) tt) h
      go no_value e d h = skip_path (c ∷ s) paths d (subst IsPassed (sym e) tt) h
      go zero_length e d h = skip_path (c ∷ s) paths d (subst IsPassed (sym e) tt) h
      go (found (bool b)) e d h = ([], paths, c ∷ s, refl, tt, e)
      go (found (number t)) e d h = inr ([], paths, c ∷ s, refl, tt, subst IsOther (sym e) tt)
      go (found (text t)) e d h = inr ([], paths, c ∷ s, refl, tt, subst IsOther (sym e) tt)
      go (found (list l)) e d h = inr ([], paths, c ∷ s, refl, tt, subst IsOther (sym e) tt)
      go (found (table t)) e d h = inr ([], paths, c ∷ s, refl, tt, subst IsOther (sym e) tt)
      go (found (values t)) e d h = inr ([], paths, c ∷ s, refl, tt, subst IsOther (sym e) tt)
