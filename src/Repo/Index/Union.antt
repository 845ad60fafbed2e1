-- ===== src/Repo/Index/Union.antt =====
-- What Merge of pkg/repo/index.go makes of two indexes.
use helm.Common.Text.{eqb, eqb_iff}
use helm.Result.{Error}
use helm.Common.{
  Bool-cases, Bytes, ◌++◌, true, [], none, some, ◌∷◌, refl, sym, Option, ◌≡◌, ap, List, inr, inl,
  All, ◌⊎◌,
}
use helm.Repo.Semver.{Semver}
use helm.Repo.Index.{
  get, has, ChartVersion, Entries, entry, exact, first_satisfying, constraint_of,
  constraint_failure, chosen, get_checked, get_among, succeeded, merge_one, merge_versions, merge,
  satisfies,
}
use helm.Repo.Index.Merge.{Keeps, IsPlain, IsThere, merge-Keeps, merge-has}

module _ (semver : Semver) where
  -- Among the versions of a name is one with the property.
  abbrev pub Among : (ChartVersion → Type 0) → List ChartVersion → Type 0
  Among P vs =
      (before after : List ChartVersion) × (w : ChartVersion) × (vs ≡ before ++ w ∷ after) × P w

  later :
      (P : ChartVersion → Type 0) (v : ChartVersion) (vs : List ChartVersion)
      → Among P vs
      → Among P (v ∷ vs)
  later P v vs (before, after, w, split, p) = (v ∷ before, after, w, ap (λ l. v ∷ l) split, p)

  exact-Among :
      (version : Bytes) (vs : List ChartVersion) (w : ChartVersion)
      → exact version vs ≡ some w
      → Among (λ u. u.version ≡ version) vs
  unfolding exact
  exact-Among [] vs w h = cc
  exact-Among (c ∷ version) [] w h = cc
  exact-Among (c ∷ version) (v ∷ vs) w h = elim (Bool-cases (eqb (c ∷ version) v.version)) [
    | inl e ↦ ([], vs, v, refl, sym ((eqb_iff (c ∷ version) v.version).0 e))
    | inr e ↦ later (λ u. u.version ≡ c ∷ version) v vs (exact-Among (c ∷ version) vs w (rw e at h))
  ]

  first_satisfying-Among :
      (constraint : Bytes) (vs : List ChartVersion) (w : ChartVersion)
      → first_satisfying semver constraint vs ≡ some w
      → Among (λ u. satisfies semver constraint u ≡ true) vs
  unfolding first_satisfying
  first_satisfying-Among constraint [] w h = cc
  first_satisfying-Among constraint (v ∷ vs) w h =
      elim (Bool-cases (satisfies semver constraint v)) [
        | inl e ↦ ([], vs, v, refl, e)
        | inr e ↦
            later (λ u. satisfies semver constraint u ≡ true) v vs
              (first_satisfying-Among constraint vs w (rw e at h))
      ]

  -- The name of the chart has its version, or one that meets the version, read as a constraint.
  abbrev pub IsPresent : Entries → ChartVersion → Type 0
  IsPresent es cv =
      (vs : List ChartVersion) × (entry cv.name es ≡ some vs)
      × (Among (λ w. w.version ≡ cv.version) vs
          ⊎ Among (λ w. satisfies semver (constraint_of semver cv.version) w ≡ true) vs)

  checked-Among :
      (cv : ChartVersion) (vs : List ChartVersion) (e : Option Error)
      → succeeded semver (get_checked semver cv.name cv.version vs e) ≡ true
      → Among (λ w. w.version ≡ cv.version) vs
        ⊎ Among (λ w. satisfies semver (constraint_of semver cv.version) w ≡ true) vs
  checked-Among cv vs (some e) h = cc
  checked-Among cv vs none h =
      go (exact cv.version vs) (first_satisfying semver (constraint_of semver cv.version) vs) refl
        refl h
    where
      go :
          (a b : Option ChartVersion)
          → exact cv.version vs ≡ a
          → first_satisfying semver (constraint_of semver cv.version) vs ≡ b
          → succeeded semver (chosen semver cv.name cv.version a b) ≡ true
          → Among (λ w. w.version ≡ cv.version) vs
            ⊎ Among (λ w. satisfies semver (constraint_of semver cv.version) w ≡ true) vs
      go (some w) b e f h = inl (exact-Among cv.version vs w e)
      go none (some w) e f h = inr (first_satisfying-Among (constraint_of semver cv.version) vs w f)
      go none none e f h = cc

  has-IsPresent :
      (cv : ChartVersion) (es : Entries) → has semver cv.name cv.version es ≡ true → IsPresent es cv
  unfolding has get
  has-IsPresent cv es h = go (entry cv.name es) refl h
    where
      go :
          (o : Option (List ChartVersion))
          → entry cv.name es ≡ o
          → succeeded semver (get_among semver cv.name cv.version o) ≡ true
          → IsPresent es cv
      go none e h = cc
      go (some []) e h = cc
      go (some (v ∷ vs)) e h =
          (v ∷ vs, e, checked-Among cv (v ∷ vs) (constraint_failure semver cv.version) h)

  abbrev pub IsMerged : Entries → ChartVersion → Type 0
  IsMerged es cv = IsPlain semver cv → IsPresent es cv

  versions-IsMerged :
      (es : Entries) (cvs : List ChartVersion) → All (IsThere semver es) cvs → All (IsMerged es) cvs
  versions-IsMerged es [] h = tt
  versions-IsMerged es (cv ∷ cvs) (h, hs) =
      (λ p. has-IsPresent cv es (h p), versions-IsMerged es cvs hs)

  entries-IsMerged :
      (es f : Entries)
      → All (λ x. All (IsThere semver es) x.1) f
      → All (λ x. All (IsMerged es) x.1) f
  entries-IsMerged es [] h = tt
  entries-IsMerged es ((n, cvs) ∷ f) (h, hs) =
      (versions-IsMerged es cvs h, entries-IsMerged es f hs)

  -- Has finds the chart.
  abbrev pub IsHad : Entries → ChartVersion → Type 0
  IsHad es cv = has semver cv.name cv.version es ≡ true

  merge_versions_had :
      (cvs : List ChartVersion) (es : Entries)
      → All (IsHad es) cvs
      → merge_versions semver cvs es ≡ es
  unfolding merge_versions merge_one
  merge_versions_had [] es h = refl
  merge_versions_had (cv ∷ cvs) es (h, hs) = rw h (merge_versions_had cvs es hs)

  merge_had : (f es : Entries) → All (λ x. All (IsHad es) x.1) f → merge semver f es ≡ es
  unfolding merge
  merge_had [] es h = refl
  merge_had ((n, cvs) ∷ f) es (h, hs) = rw (merge_versions_had cvs es h) (merge_had f es hs)

  -- Merging an index into another keeps every list of versions of the latter as the beginning of
  -- what it becomes. Afterwards, for every chart of the former whose version is not empty and can be
  -- read as a constraint, the versions of its name have that version, or one that meets it as a
  -- constraint. And where Has finds every chart of the former in the latter, nothing is changed.
  pub merge-IsUnion :
      (f es : Entries)
      → Keeps es (merge semver f es)
        × All (λ x. All (IsMerged (merge semver f es)) x.1) f
        × (All (λ x. All (IsHad es) x.1) f → merge semver f es ≡ es)
  merge-IsUnion f es = (
    merge-Keeps semver f es,
    entries-IsMerged (merge semver f es) f (merge-has semver f es),
    merge_had f es,
  )
