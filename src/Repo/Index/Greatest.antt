-- ===== src/Repo/Index/Greatest.antt =====
-- Get of pkg/repo/index.go on an index that SortEntries has sorted.
use helm.Result.{ok}
use helm.Common.Sort.{sift, sort, IsSorted, All-sort, All-unsort, IsWeakOrder, sort-IsSorted}
use helm.Common.Text.{eqb}
use helm.Common.{
  Bool-cases, Bytes, All, arith, List, some, none, ◌∷◌, inl, Bool, ◌≡◌, inr, false, [], true, refl,
  subst, sym, Option, ap, ◌∙◌,
}
use helm.Repo.Semver.{Semver}
use helm.Repo.Index.{
  get, less, ChartVersion, Entries, entry, exact, is_some_error, sort_versions, sort_entries,
  satisfies, first_satisfying, constraint_of, constraint_failure, get_among,
}

module _ {A : Type 0} (P : A → Type 0) (f g : A → A → Bool)
    (agree : (x y : A) → P x → P y → f x y ≡ g x y) where
  sift-agree : (x : A) (l : List A) → P x → All P l → sift f x l ≡ sift g x l
  unfolding sift
  sift-agree x [] p _ = refl
  sift-agree x (y ∷ ys) p (q, qs) = rw (agree y x q p, sift-agree x ys p qs) refl

  sort-agree : (l : List A) → All P l → sort f l ≡ sort g l
  unfolding sort
  sort-agree [] _ = refl
  sort-agree (x ∷ xs) (p, ps) =
      rw (sort-agree xs ps) (sift-agree x (sort g xs) p (All-sort g P xs ps))

All-weaken :
    {A : Type 0} (P Q : A → Type 0) → ((x : A) → P x → Q x) → (l : List A) → All P l → All Q l
All-weaken P Q f [] _ = tt
All-weaken P Q f (x ∷ l) (p, ps) = (f x p, All-weaken P Q f l ps)

exact-none :
    (version : Bytes) (vs : List ChartVersion)
    → All (λ w. eqb version w.version ≡ false) vs
    → exact version vs ≡ none
unfolding exact
exact-none [] vs h = refl
exact-none (c ∷ version) [] h = refl
exact-none (c ∷ version) (w ∷ vs) (h, hs) = rw (h, exact-none (c ∷ version) vs hs) refl

module _ (semver : Semver) where
  abbrev pub IsVersion : ChartVersion → Type 0
  IsVersion cv = is_some_error semver (semver.version_error cv.version) ≡ false

  -- later versions first
  abbrev pub after : ChartVersion → ChartVersion → Bool
  after a b = semver.less_than b.version a.version

  -- `cv` meets the constraint, and no version that meets it is greater
  abbrev pub IsGreatest : Bytes → ChartVersion → List ChartVersion → Type 0
  IsGreatest c cv vs =
      (satisfies semver c cv ≡ true)
      × All (λ w. satisfies semver c w ≡ true → semver.less_than cv.version w.version ≡ false) vs

  entry-sort_entries :
      (name : Bytes) (es : Entries) (vs : List ChartVersion)
      → entry name es ≡ some vs
      → entry name (sort_entries semver es) ≡ some (sort_versions semver vs)
  unfolding entry sort_entries
  entry-sort_entries name [] vs h = cc
  entry-sort_entries name ((n, ws) ∷ es) vs h = elim (Bool-cases (eqb n name)) [
    | inl e ↦ ground (arith, e)
    | inr e ↦ ground (arith, e, entry-sort_entries name es vs)
  ]

  sort_versions-after :
      (vs : List ChartVersion) → All IsVersion vs → sort_versions semver vs ≡ sort after vs
  unfolding sort_versions less
  sort_versions-after vs h =
      sort-agree IsVersion (λ a b. less semver b a) after (λ x y p q. rw (q, p) refl) vs h

  satisfies-none :
      (c : Bytes) (vs : List ChartVersion)
      → first_satisfying semver c vs ≡ none
      → All (λ w. satisfies semver c w ≡ false) vs
  unfolding first_satisfying
  satisfies-none c [] h = tt
  satisfies-none c (w ∷ vs) h = elim (Bool-cases (satisfies semver c w)) [
    | inl e ↦ ground (arith, e)
    | inr e ↦ (e, satisfies-none c vs (ground (arith, e)))
  ]

  first-IsGreatest :
      (irreflexive : (a : ChartVersion) → after a a ≡ false) (c : Bytes) (vs : List ChartVersion)
      (cv : ChartVersion)
      → IsSorted after vs
      → first_satisfying semver c vs ≡ some cv
      → IsGreatest c cv vs
  unfolding first_satisfying
  first-IsGreatest irreflexive c [] cv s h = cc
  first-IsGreatest irreflexive c (w ∷ vs) cv (below, s) h =
      elim (Bool-cases (satisfies semver c w)) [
        | inl e ↦
            (let same : w ≡ cv = ground (arith, e) in
              subst (λ x. IsGreatest c x (w ∷ vs)) same
                (
                  e,
                  (λ _. irreflexive w, All-weaken (λ y. after y w ≡ false) _ (λ y b _. b) vs below),
                ))
        | inr e ↦
            (let (sat, rest) = first-IsGreatest irreflexive c vs cv s (ground (arith, e)) in
              (sat, ((λ f. cc), rest)))
      ]

  -- Where the constraint of a version can be read, the versions of a chart can all be read, none is
  -- the wanted text itself and at least one meets the constraint, Get on the sorted index returns
  -- a version that meets the constraint, and none that meets it is greater.
  pub get-IsGreatest :
      (order : IsWeakOrder after) (name version : Bytes) (es : Entries) (vs : List ChartVersion)
      → entry name es ≡ some vs
      → All IsVersion vs
      → constraint_failure semver version ≡ none
      → All (λ w. eqb version w.version ≡ false) vs
      → (All (λ w. satisfies semver (constraint_of semver version) w ≡ false) vs → ⊥)
      → (cv : ChartVersion) × (get semver name version (sort_entries semver es) ≡ ok cv)
        × IsGreatest (constraint_of semver version) cv vs
  unfolding get
  get-IsGreatest order name version es vs at readable plain fresh some_one =
      rw (entry-sort_entries name es vs at, sort_versions-after vs readable)
        (go (sort after vs) (first_satisfying semver c (sort after vs)) refl refl)
    where
      c : Bytes
      c = constraint_of semver version

      IsFresh : ChartVersion → Type 0
      IsFresh w = eqb version w.version ≡ false

      irreflexive : (a : ChartVersion) → after a a ≡ false
      irreflexive a = elim (Bool-cases (after a a)) [ inl e ↦ order.asym a a e | inr e ↦ e ]

      go :
          (ws : List ChartVersion) (found : Option ChartVersion)
          → sort after vs ≡ ws
          → first_satisfying semver c (sort after vs) ≡ found
          → (cv : ChartVersion) × (get_among semver name version (some ws) ≡ ok cv)
            × IsGreatest (constraint_of semver version) cv vs
      go ws none e f =
          elim (some_one (All-unsort after _ vs (satisfies-none c (sort after vs) f))) [ ]
      go [] (some cv) e f = cc
      go (w ∷ ws) (some cv) e f =
          let (sat, best) =
            first-IsGreatest irreflexive c (sort after vs) cv (sort-IsSorted order vs) f in
          (
            cv,
            rw
                (
                  plain,
                  exact-none version (w ∷ ws)
                      (subst (All IsFresh) e (All-sort after IsFresh vs fresh)),
                  ap (λ x. first_satisfying semver c x) (sym e) ∙ f,
                )
                refl,
            (sat, All-unsort after _ vs best),
          )
