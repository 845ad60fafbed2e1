-- ===== src/Storage/Store/Prune.antt =====
-- Which versions removeLeastRecent prunes.
use helm.Common.{
  ap, ◌++◌, ◌∙◌, append-nil, append_assoc, ℕ, zero, suc, ◌+◌, ◌-◌, ◌≤◌, ◌<◌, ◌==◌, true, false,
  if◌then◌else◌, Bool-cases, inl, inr, List, [], ◌∷◌, ◌≡◌, ◌≢◌, refl, sym, arith, length, All,
  Bytes, leb, ltb,
}
use helm.Common.Decimal.{Int32}
use helm.Release.{Release}
use helm.Result.{Result, ok, err, Error}
use helm.Storage.Driver.{Driver}
use helm.Releaseutil.Sorter.{sort_by_revision, less_revision}
use helm.Common.Sort.{sort, length-sort}
use helm.Storage.Store.{
  Store, to_delete, remove_least_recent, history, deployed_release, create, make_key, prune,
  delete_all, summary, on_db, prune_long, make_room, prune_after, delete, with_error,
}

-- the releases of a history other than the one of a version
unfoldable pub others : Int32 → List Release → List Release
others v [] = []
others v (r ∷ h) = if r.version == v then others v h else r ∷ others v h

unfoldable pub first_of : ℕ → List Release → List Release
first_of zero h = []
first_of (suc n) [] = []
first_of (suc n) (r ∷ h) = r ∷ first_of n h

first_of-nil : (n : ℕ) → first_of n [] ≡ []
unfolding first_of
first_of-nil zero = refl
first_of-nil (suc n) = refl

to_delete-first :
    (n max marked total : ℕ) (last : Int32) (h : List Release)
    → total ≡ marked + n + max
    → to_delete total max last marked h ≡ first_of n (others last h)
unfolding to_delete others first_of
to_delete-first n max marked total last [] e = sym (first_of-nil n)
to_delete-first zero max marked total last (r ∷ h) e =
    let done : (total - marked == max) ≡ true = ground arith in rw done refl
to_delete-first (suc n) max marked total last (r ∷ h) e =
    let more : (total - marked == max) ≡ false = ground arith in
    rw more (
      ground (
        arith,
        to_delete-first (suc n) max marked total last h e,
        to_delete-first n max (suc marked) total last h (omega arith),
      ))

-- Pruning a history of at least `max` releases marks the oldest of them, in order, but never the
-- last deployed one, until `max` are left or there is no other.
pub to_delete-oldest :
    (max : ℕ) (last : Int32) (h : List Release)
    → max ≤ length h
    → to_delete (length h) max last 0 h ≡ first_of (length h - max) (others last h)
to_delete-oldest max last h enough =
    to_delete-first (length h - max) max 0 (length h) last h (omega arith)

others-All : (v : Int32) (h : List Release) → All (λ r. r.version ≢ v) (others v h)
unfolding others
others-All v [] = tt
others-All v (r ∷ h) = elim (Bool-cases (r.version == v)) [
  | inl same ↦ rw same (others-All v h)
  | inr other ↦ rw other (ground arith, others-All v h)
]

first_of-All : (P : Release → Type 0) (n : ℕ) (h : List Release) → All P h → All P (first_of n h)
unfolding first_of
first_of-All P zero h k = tt
first_of-All P (suc n) [] k = tt
first_of-All P (suc n) (r ∷ h) (p, k) = (p, first_of-All P n h k)

length-first_of : (n : ℕ) (h : List Release) → length (first_of n h) ≤ n
unfolding first_of
length-first_of zero h = omega arith
length-first_of (suc n) [] = omega arith
length-first_of (suc n) (r ∷ h) = omega (arith, length-first_of n h)

-- Pruning a history of at least `max` releases marks no release with the version of the last deployed one, and leaves at least `max`.
pub to_delete-safe :
    (max : ℕ) (last : Int32) (h : List Release)
    → max ≤ length h
    → All (λ r. r.version ≢ last) (to_delete (length h) max last 0 h)
      × (length (to_delete (length h) max last 0 h) + max ≤ length h)
to_delete-safe max last h enough = rw (to_delete-oldest max last h enough) (
  first_of-All (λ r. r.version ≢ last) (length h - max) (others last h) (others-All last h),
  omega (arith, length-first_of (length h - max) (others last h)),
)

module _ (D : Driver) where
  abbrev error_of : Result Release → List Error
  error_of (ok r) = []
  error_of (err e) = e ∷ []

  -- The driver deletes the keys of the releases one after the other, whether or not one before
  -- failed, and these are the errors.
  abbrev pub Deleted : Bytes → List Release → D.State → List Error → D.State → Type 0
  Deleted name [] db es db' = (es ≡ []) × (db' ≡ db)
  Deleted name (rel ∷ rels) db es db' =
      (x : Result Release) × (mid : D.State) × (rest : List Error) × (D.delete
          (make_key name rel.version) db
        ≡ (x, mid))
      × (es ≡ error_of x ++ rest)
      × Deleted name rels mid rest db'

  with_error_append :
      (x : Result Release) (errors : List Error) → with_error D errors x ≡ errors ++ error_of x
  with_error_append (ok r) errors = sym (append-nil errors)
  with_error_append (err e) errors = refl

  delete_all-Deleted :
      (name : Bytes) (rels : List Release) (errors : List Error) (s : Store D)
      → (es : List Error) × (db' : D.State) × Deleted name rels s.db es db'
        × (delete_all D name rels errors s ≡ (errors ++ es, record s { db = db' }))
  unfolding delete_all delete
  delete_all-Deleted name [] errors s =
      ([], s.db, (refl, refl), ap (λ l. (l, s)) (sym (append-nil errors)))
  delete_all-Deleted name (rel ∷ rels) errors s =
      let x = D.delete (make_key name rel.version) s.db in
      let (es, db', gone, e) =
        delete_all-Deleted name rels (with_error D errors x.0) (record s { db = x.1 }) in
      (
        error_of x.0 ++ es,
        db',
        (x.0, x.1, es, refl, refl, gone),
        e
            ∙ ap (λ l. (l, record s { db = db' }))
                (ap (λ l. l ++ es) (with_error_append x.0 errors)
                  ∙ append_assoc errors (error_of x.0) es),
      )

  -- What pruning to `max` does, by what the history and the last deployed release are read as.
  abbrev pub Pruned :
      Bytes
      → ℕ
      → Store D
      → Result (List Release)
      → Result Release
      → Result (Unit {0}) × Store D
      → Type 0
  Pruned name max s (err e) d x = x ≡ (err e, s)
  Pruned name max s (ok h) (err e) x =
      (length h ≤ max → x ≡ (ok tt, s)) × (max < length h → x ≡ (err e, s))
  Pruned name max s (ok h) (ok d) x =
      (length h ≤ max → x ≡ (ok tt, s))
      × (max < length h
          → (es : List Error) × (db' : D.State) × Deleted name
              (first_of (length h - max) (others d.version (sort_by_revision h))) s.db es db'
            × (x ≡ (summary es, record s { db = db' })))

  prune-Pruned :
      (name : Bytes) (max : ℕ) (s : Store D) (x : Result (List Release))
      → Pruned name max s x (deployed_release D name s) (prune_long D name max x s)
  unfolding prune sort_by_revision
  prune-Pruned name max s (err e) = refl
  prune-Pruned name max s (ok h) = go (deployed_release D name s)
    where
      run : Result Release → Result (Unit {0}) × Store D
      run d = if leb (length h) max then (ok tt, s) else prune_after D name max h d s

      few : (d : Result Release) → length h ≤ max → run d ≡ (ok tt, s)
      few d le = let b : leb (length h) max ≡ true = ground arith in rw b refl

      deletes :
          (d : Release)
          → max < length h
          → (es : List Error) × (db' : D.State) × Deleted name
              (first_of (length h - max) (others d.version (sort_by_revision h)))
              s.db
              es
              db'
            × (run (ok d) ≡ (summary es, record s { db = db' }))
      deletes d many =
          let b : leb (length h) max ≡ false = ground arith in
          let size = length-sort less_revision h in
          let e = to_delete-oldest max d.version (sort less_revision h) (omega (arith, size)) in
          let victims = first_of (length h - max) (others d.version (sort less_revision h)) in
          let (es, db', gone, f) = delete_all-Deleted name victims [] s in
          (es, db', gone, rw (b, sym size, e, size, f) refl)

      go : (d : Result Release) → Pruned name max s (ok h) d (run d)
      go (err e) =
          (few (err e), λ many. let b : leb (length h) max ≡ false = ground arith in rw b refl)
      go (ok d) = (few (ok d), deletes d)

  -- Pruning to `max` releases, in all its cases: an error of reading the history is returned; a
  -- history of at most `max` is left alone; without a last deployed release its error is returned;
  -- and else the driver deletes the keys of the oldest others, in order and also after an error,
  -- until `max` are left or there is no other, and what it returns sums up the errors.
  pub remove_least_recent-prunes :
      (name : Bytes) (max : ℕ) (s : Store D)
      → Pruned name max s
          (history D name s)
          (deployed_release D name s)
          (remove_least_recent D name max s)
  unfolding remove_least_recent
  remove_least_recent-prunes name max s = prune-Pruned name max s (history D name s)

  undeployed_kept :
      (name : Bytes) (max : ℕ) (s : Store D) (e : Error) (x : Result (List Release))
      → deployed_release D name s ≡ err e
      → (prune_long D name max x s).1 ≡ s
  undeployed_kept name max s e (err x) none_deployed = refl
  undeployed_kept name max s e (ok h) none_deployed =
      rw none_deployed
        (elim (Bool-cases (leb (length h) max)) [ inl few ↦ rw few refl | inr many ↦ rw many refl ])

  room_undeployed :
      (name : Bytes) (s : Store D) (e : Error)
      → deployed_release D name s ≡ err e
      → make_room D name s ≡ s
  unfolding remove_least_recent
  room_undeployed name s e none_deployed = elim (Bool-cases (ltb 0 s.max_history)) [
    | inl limited ↦
        rw limited (undeployed_kept name (s.max_history - 1) s e (history D name s) none_deployed)
    | inr free ↦ rw free refl
  ]

  -- Where no release of the name is deployed, a store of any limit prunes nothing before it creates
  -- a release, however long the history is.
  pub create_undeployed :
      (rls : Release) (s : Store D) (e : Error)
      → deployed_release D rls.name s ≡ err e
      → create D rls s ≡ on_db D (D.create (make_key rls.name rls.version) rls s.db) s
  unfolding create
  create_undeployed rls s e none_deployed = rw (room_undeployed rls.name s e none_deployed) refl
