-- ===== src/Tiller/Names/Laws.antt =====
-- The names that uniqName gives.
use Prim.Native.Nat.{ℕ, zero, suc}
use helm.Common.{
  Bytes, Bool, true, false, ltb, if◌then◌else◌, List, [], ◌∷◌, length, ◌≡◌, refl, sym, ◌∙◌, ◌≤◌,
  arith, Bool-cases, inl, inr, subst,
}
use helm.Common.Sort.{sort}
use helm.Common.Decimal.{int32}
use helm.Release.{Release}
use helm.Result.{Result, ok, err, name_in_use}
use helm.Releaseutil.Sorter.{sort_by_revision, reverse_by}
use helm.Releaseutil.Latest.{IsLatest, reverse_by-IsLatest, reverse_by-nil}
use helm.Storage.Driver.{Driver}
use helm.Storage.Store
use helm.Storage.Store.{Store}
use helm.Tiller.Server.{Env, Server}
use helm.Tiller.Names.{
  take, claim, claim_history, is_free, says_not_found, try_names, create_uniq_name, uniq_name,
}

length-take : (n : ℕ) (s : Bytes) → length (take n s) ≤ n
unfolding take
length-take zero s = omega arith
length-take (suc n) [] = omega arith
length-take (suc n) (c ∷ s) = omega (arith, length-take n s)

-- The history lets an install take the name: it cannot be read, it is empty, or the name may be
-- reused and the latest release is deleted or failed.
abbrev pub IsFree : Bool → Result (List Release) → Type 0
IsFree reuse (err e) = Unit {0}
IsFree reuse (ok []) = Unit {0}
IsFree reuse (ok (q ∷ h)) =
    (reuse ≡ true) × ((r : Release) × IsLatest (q ∷ h) r × (is_free r.info.code ≡ true))

reused :
    (start name : Bytes) (b : Bool)
    → (if b then ok start else err (name_in_use start)) ≡ ok name
    → (name ≡ start) × (b ≡ true)
reused start name true k = (cc, refl)
reused start name false k = cc

claim-IsFree :
    (start name : Bytes) (reuse : Bool) (h l : List Release)
    → reverse_by sort_by_revision h ≡ l
    → claim start reuse l ≡ ok name
    → (name ≡ start) × IsFree reuse (ok h)
unfolding claim reverse_by sort_by_revision sort
claim-IsFree start name reuse [] [] e k = (cc, tt)
claim-IsFree start name reuse [] (r ∷ l) e k = absurd (nil_cons (sym nothing ∙ e))
  where
    nothing : reverse_by sort_by_revision [] ≡ []
    nothing = refl

    nil_cons : [] ≡ r ∷ l → ⊥
    nil_cons e = cc
claim-IsFree start name reuse (q ∷ h) [] e k = absurd (reverse_by-nil q h e)
claim-IsFree start name true (q ∷ h) (r ∷ l) e k =
    let (same, free) = reused start name (is_free r.info.code) k in
    (same, (refl, (r, reverse_by-IsLatest (q ∷ h) l r e, free)))
claim-IsFree start name false (q ∷ h) (r ∷ l) e k = cc

claim_history-IsFree :
    (start name : Bytes) (reuse : Bool) (x : Result (List Release))
    → claim_history start reuse x ≡ ok name
    → (name ≡ start) × IsFree reuse x
unfolding claim_history
claim_history-IsFree start name reuse (err e) k = (cc, tt)
claim_history-IsFree start name reuse (ok h) k = claim-IsFree start name reuse h _ refl k

module _ (D : Driver) where
  -- A name that was made up is at most 53 bytes long, and no release 1 of it is found.
  abbrev pub IsFresh : Bytes → Store D → Type 0
  IsFresh name s = (length name ≤ 53) × (says_not_found (Store.get D name (int32 1) s) ≡ true)

  cut-le : (raw : Bytes) → length (if ltb 53 (length raw) then take 53 raw else raw) ≤ 53
  cut-le raw = elim (Bool-cases (ltb 53 (length raw))) [
    | inl long ↦ rw long (length-take 53 raw)
    | inr short ↦ rw short (ground arith)
  ]

  tried :
      (cut name : Bytes) (b : Bool) (rest : Result Bytes) (s : Store D)
      → length cut ≤ 53
      → says_not_found (Store.get D cut (int32 1) s) ≡ b
      → (if b then ok cut else rest) ≡ ok name
      → (rest ≡ ok name → IsFresh name s)
      → IsFresh name s
  tried cut name true rest s short free k again =
      let e : cut ≡ name = cc in subst (λ n. IsFresh n s) e (short, free)
  tried cut name false rest s short taken k again = again k

  try_names-IsFresh :
      (gen : ℕ → Bytes) (left i : ℕ) (s : Store D) (name : Bytes)
      → try_names D gen left i s ≡ ok name
      → IsFresh name s
  unfolding try_names
  try_names-IsFresh gen zero i s name h = cc
  try_names-IsFresh gen (suc left) i s name h =
      tried _ name _ _ s (cut-le (gen i)) refl h (try_names-IsFresh gen left (suc i) s name)

  -- what a name that was accepted has
  abbrev pub IsAccepted : Bytes → Bool → Store D → Bytes → Type 0
  IsAccepted [] reuse s name = IsFresh name s
  IsAccepted (c ∷ start) reuse s name =
      (name ≡ c ∷ start) × (length name ≤ 53) × IsFree reuse (Store.history D (c ∷ start) s)

  -- A name that uniqName returns is at most 53 bytes long. Where the request has a name, it is that
  -- name, and its history lets an install take it; else it was made up, and no release 1 of it is
  -- found.
  pub uniq_name-IsAccepted :
      (env : Env) (start name : Bytes) (reuse : Bool) (s : Server D)
      → uniq_name D env start reuse s ≡ ok name
      → IsAccepted start reuse s.store name
  unfolding uniq_name create_uniq_name
  uniq_name-IsAccepted env [] name reuse s h =
      try_names-IsFresh (env.name_sep s.calls) 5 0 s.store name h
  uniq_name-IsAccepted env (c ∷ start) name reuse s h =
      elim (Bool-cases (ltb 53 (length (c ∷ start)))) [
        | inl long ↦ (let k = rw long at h in cc)
        | inr short ↦
            (let (same, free) = claim_history-IsFree (c ∷ start) name reuse _ (rw short at h) in
              (same, subst (λ n. length n ≤ 53) (sym same) (ground arith), free))
      ]
