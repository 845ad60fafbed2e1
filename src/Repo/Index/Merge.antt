-- ===== src/Repo/Index/Merge.antt =====
-- Merge of pkg/repo/index.go.
use helm.Common.Text.{eqb, eqb_iff, eqb_refl}
use helm.Result.{Error}
use helm.Common.{
  if◌then◌else◌, Bool-cases, Bytes, append-nil, ◌++◌, true, [], none, arith, some, ◌∷◌, refl, ◌∙◌,
  ◌≢◌, sym, append_assoc, Option, ◌≡◌, ap, List, inr, inl, All,
}
use helm.Repo.Semver.{Semver}
use helm.Repo.Index.{
  get, or_nil, has, ChartVersion, Entries, entry, append_entry, exact, first_satisfying,
  constraint_of, constraint_failure, chosen, get_checked, get_among, succeeded, merge_one,
  merge_versions, merge,
}

entry-append_entry :
    (n name : Bytes) (cv : ChartVersion) (es : Entries)
    → entry n (append_entry name cv es)
      ≡ (if eqb name n then some (or_nil (entry n es) ++ cv ∷ []) else entry n es)
unfolding entry append_entry
entry-append_entry n name cv [] = refl
entry-append_entry n name cv ((m, vs) ∷ es) =
    ground (arith, entry-append_entry n name cv es, eqb_iff name n, eqb_iff m name, eqb_iff m n)

-- Every list of versions is kept, and others may follow in it.
abbrev pub Keeps : Entries → Entries → Type 0
Keeps es es' =
    (name : Bytes) (vs : List ChartVersion)
    → entry name es ≡ some vs
    → (extra : List ChartVersion) × (entry name es' ≡ some (vs ++ extra))

Keeps-refl : (es : Entries) → Keeps es es
Keeps-refl es name vs h = ([], h ∙ ap some (sym (append-nil vs)))

Keeps-trans : (es fs gs : Entries) → Keeps es fs → Keeps fs gs → Keeps es gs
Keeps-trans es fs gs h k name vs e =
    let (xs, f) = h name vs e in
    let (ys, g) = k name (vs ++ xs) f in (xs ++ ys, g ∙ ap some (append_assoc vs xs ys))

append_entry-Keeps :
    (name : Bytes) (cv : ChartVersion) (es : Entries) → Keeps es (append_entry name cv es)
append_entry-Keeps name cv es n vs h = elim (Bool-cases (eqb name n)) [
  | inl e ↦ (cv ∷ [], rw (entry-append_entry n name cv es, e, h) refl)
  | inr e ↦ ([], rw (entry-append_entry n name cv es, e, h) (ap some (sym (append-nil vs))))
]

abbrev or_else : Option ChartVersion → Option ChartVersion → Option ChartVersion
or_else (some cv) o = some cv
or_else none o = o

exact-append :
    (version : Bytes) (vs ws : List ChartVersion)
    → exact version (vs ++ ws) ≡ or_else (exact version vs) (exact version ws)
unfolding exact
exact-append [] vs ws = refl
exact-append (c ∷ version) [] ws = refl
exact-append (c ∷ version) (cv ∷ vs) ws = ground (arith, exact-append (c ∷ version) vs ws)

module _ (semver : Semver) where
  first_satisfying-append :
      (constraint : Bytes) (vs ws : List ChartVersion)
      → first_satisfying semver constraint (vs ++ ws)
        ≡ or_else (first_satisfying semver constraint vs) (first_satisfying semver constraint ws)
  unfolding first_satisfying
  first_satisfying-append constraint [] ws = refl
  first_satisfying-append constraint (cv ∷ vs) ws =
      ground (arith, first_satisfying-append constraint vs ws)

  chosen-more :
      (name version : Bytes) (a b a' b' : Option ChartVersion)
      → succeeded semver (chosen semver name version a b) ≡ true
      → succeeded semver (chosen semver name version (or_else a a') (or_else b b')) ≡ true
  chosen-more name version (some cv) b a' b' h = refl
  chosen-more name version none (some cv) none b' h = refl
  chosen-more name version none (some cv) (some cw) b' h = refl
  chosen-more name version none none a' b' h = cc

  checked-more :
      (name version : Bytes) (vs ws : List ChartVersion) (e : Option Error)
      → succeeded semver (get_checked semver name version vs e) ≡ true
      → succeeded semver (get_checked semver name version (vs ++ ws) e) ≡ true
  checked-more name version vs ws (some e) h = h
  checked-more name version vs ws none h =
      rw (exact-append version vs ws, first_satisfying-append (constraint_of semver version) vs ws)
        (chosen-more name version _ _ _ _ h)

  -- A chart that is there stays when lists of versions grow.
  has-Keeps :
      (name version : Bytes) (es es' : Entries)
      → Keeps es es'
      → has semver name version es ≡ true
      → has semver name version es' ≡ true
  unfolding has get
  has-Keeps name version es es' keeps h = go (entry name es) refl h
    where
      go :
          (o : Option (List ChartVersion))
          → entry name es ≡ o
          → succeeded semver (get_among semver name version o) ≡ true
          → succeeded semver (get_among semver name version (entry name es')) ≡ true
      go none e h = cc
      go (some []) e h = cc
      go (some (cv ∷ vs)) e h =
          let (extra, f) = keeps name (cv ∷ vs) e in
          rw f (checked-more name version (cv ∷ vs) extra (constraint_failure semver version) h)

  -- The version is not empty and can be read as a constraint.
  abbrev pub IsPlain : ChartVersion → Type 0
  IsPlain cv = (cv.version ≢ []) × (semver.constraint_error cv.version ≡ none)

  exact_last :
      (version : Bytes) (cv : ChartVersion) (vs : List ChartVersion)
      → version ≡ cv.version
      → version ≢ []
      → (found : ChartVersion) × (exact version (vs ++ cv ∷ []) ≡ some found)
  unfolding exact
  exact_last [] cv vs e n = elim (n refl) [ ]
  exact_last (c ∷ version) cv [] e n = (cv, ground (arith, eqb_iff (c ∷ version) cv.version))
  exact_last (c ∷ version) cv (w ∷ vs) e n = elim (Bool-cases (eqb (c ∷ version) w.version)) [
    | inl b ↦ (w, rw b refl)
    | inr b ↦ let (found, f) = exact_last (c ∷ version) cv vs e n in (found, rw (b, f) refl)
  ]

  constraint_failure-none :
      (version : Bytes)
      → version ≢ []
      → semver.constraint_error version ≡ none
      → constraint_failure semver version ≡ none
  constraint_failure-none [] n h = refl
  constraint_failure-none (c ∷ version) n h = h

  checked_last :
      (name : Bytes) (cv : ChartVersion) (vs : List ChartVersion)
      → IsPlain cv
      → succeeded semver (
          get_checked semver name cv.version (vs ++ cv ∷ []) (constraint_failure semver cv.version))
        ≡ true
  checked_last name cv vs (n, h) =
      let (found, e) = exact_last cv.version cv vs refl n in
      rw (constraint_failure-none cv.version n h, e) refl

  among_last :
      (name : Bytes) (cv : ChartVersion) (vs : List ChartVersion)
      → IsPlain cv
      → succeeded semver (get_among semver name cv.version (some (vs ++ cv ∷ []))) ≡ true
  among_last name cv [] p = checked_last name cv [] p
  among_last name cv (w ∷ vs) p = checked_last name cv (w ∷ vs) p

  merge_one-Keeps : (cv : ChartVersion) (es : Entries) → Keeps es (merge_one semver cv es)
  unfolding merge_one
  merge_one-Keeps cv es = elim (Bool-cases (has semver cv.name cv.version es)) [
    | inl e ↦ rw e (Keeps-refl es)
    | inr e ↦ rw e (append_entry-Keeps cv.name cv es)
  ]

  merge_one-has :
      (cv : ChartVersion) (es : Entries)
      → IsPlain cv
      → has semver cv.name cv.version (merge_one semver cv es) ≡ true
  unfolding merge_one
  merge_one-has cv es p = elim (Bool-cases (has semver cv.name cv.version es)) [
    | inl e ↦ rw (e, e) refl
    | inr e ↦ rw e (appended cv es p)
  ]
    where
      appended :
          (cv : ChartVersion) (es : Entries)
          → IsPlain cv
          → has semver cv.name cv.version (append_entry cv.name cv es) ≡ true
      appended cv es p =
          rw (entry-append_entry cv.name cv.name cv es, eqb_refl cv.name)
            (among_last cv.name cv (or_nil (entry cv.name es)) p)

  abbrev pub IsThere : Entries → ChartVersion → Type 0
  IsThere es cv = IsPlain cv → has semver cv.name cv.version es ≡ true

  merge_versions-Keeps :
      (cvs : List ChartVersion) (es : Entries) → Keeps es (merge_versions semver cvs es)
  unfolding merge_versions
  merge_versions-Keeps [] es = Keeps-refl es
  merge_versions-Keeps (cv ∷ cvs) es =
      Keeps-trans es (merge_one semver cv es) _ (merge_one-Keeps cv es)
        (merge_versions-Keeps cvs (merge_one semver cv es))

  pub merge-Keeps : (f es : Entries) → Keeps es (merge semver f es)
  unfolding merge
  merge-Keeps [] es = Keeps-refl es
  merge-Keeps ((n, cvs) ∷ f) es =
      Keeps-trans es (merge_versions semver cvs es) _ (merge_versions-Keeps cvs es)
        (merge-Keeps f (merge_versions semver cvs es))

  merge_versions-has :
      (cvs : List ChartVersion) (es : Entries) → All (IsThere (merge_versions semver cvs es)) cvs
  unfolding merge_versions
  merge_versions-has [] es = tt
  merge_versions-has (cv ∷ cvs) es =
      let es' = merge_one semver cv es in
      (
        λ p.
            has-Keeps cv.name cv.version es' (merge_versions semver cvs es')
              (merge_versions-Keeps cvs es') (merge_one-has cv es p),
        merge_versions-has cvs es',
      )

  stays :
      (cvs : List ChartVersion) (es es' : Entries)
      → Keeps es es'
      → All (IsThere es) cvs
      → All (IsThere es') cvs
  stays [] es es' k h = tt
  stays (cv ∷ cvs) es es' k (h, hs) =
      (λ p. has-Keeps cv.name cv.version es es' k (h p), stays cvs es es' k hs)

  pub merge-has : (f es : Entries) → All (λ x. All (IsThere (merge semver f es)) x.1) f
  unfolding merge
  merge-has [] es = tt
  merge-has ((n, cvs) ∷ f) es =
      let es' = merge_versions semver cvs es in
      (
        stays cvs es' (merge semver f es') (merge-Keeps f es') (merge_versions-has cvs es),
        merge-has f es',
      )
