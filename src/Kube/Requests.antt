-- ===== src/Kube/Requests.antt =====
-- The requests that an action of pkg/kube makes, and what it returns.
use helm.Kube.Api.{
  create_object, Request, delete_object, patch_object, create_namespace, delete_pod, Act, ask, wrap,
  wrapping, Api, from_error, tell,
}
use helm.Result.{Result, ok, err, lift, attempt, ◌>>=◌, continue}
use helm.Common.{
  Bytes, All, All-append, append-nil, ◌∷◌, ap, true, ◌∙◌, refl, Bool, ◌++◌, [], List, append_assoc,
  ◌≡◌, false, sym,
}

-- a request that changes nothing in the cluster
unfoldable pub is_read : {O : Type 0} → Request O → Bool
is_read (delete_object _ _ _) = false
is_read (create_object _ _ _) = false
is_read (patch_object _ _ _ _ _) = false
is_read (create_namespace _) = false
is_read (delete_pod _ _ _) = false
is_read _ = true

-- the predicate holds of a result that is no error
abbrev pub Holds : {A : Type 0} → (A → Type 0) → Result A → Type 0
Holds R (ok a) = R a
Holds R (err e) = Unit

module _ {O : Type 0} (P : Request O → Type 0) where
  -- from `s` to `t` only requests of the kind P are made
  abbrev pub Made : List (Request O) → List (Request O) → Type 0
  Made s t = (qs : List (Request O)) × (t ≡ s ++ qs) × All P qs

  pub Made-none : (s : List (Request O)) → Made s s
  Made-none s = ([], sym (append-nil s), tt)

  pub Made-one : (s : List (Request O)) (q : Request O) → P q → Made s (s ++ q ∷ [])
  Made-one s q p = (q ∷ [], refl, (p, tt))

  pub Made-trans : (s t u : List (Request O)) → Made s t → Made t u → Made s u
  Made-trans s t u (qs, e, a) (rs, f, b) =
      (qs ++ rs, f ∙ (ap (λ x. x ++ rs) e ∙ append_assoc s qs rs), All-append P qs rs a b)

  module _ {A : Type 0} (R : A → Type 0) where
    abbrev pub Runs : List (Request O) → Result A × List (Request O) → Type 0
    Runs s x = Made s x.1 × Holds R x.0

  pub Holds-any : {A : Type 0} (r : Result A) → Holds (λ _. Unit {0}) r
  Holds-any (ok a) = tt
  Holds-any (err e) = tt

  pub Runs-any :
      {A : Type 0} (R : A → Type 0) (s : List (Request O)) (x : Result A × List (Request O))
      → Runs R s x
      → Runs (λ _. Unit {0}) s x
  Runs-any R s x (h, _) = (h, Holds-any x.0)

  pub Runs-weaken :
      {A : Type 0} (Q R : A → Type 0) (s : List (Request O)) (x : Result A × List (Request O))
      → Runs Q s x
      → ((a : A) → Q a → R a)
      → Runs R s x
  Runs-weaken Q R s (ok a, t) (h, q) k = (h, k a q)
  Runs-weaken Q R s (err e, t) (h, q) k = (h, tt)

  module _ {A B : Type 0} (Q : A → Type 0) (R : B → Type 0) (m : Act O A) (f : A → Act O B)
      (s : List (Request O)) where
    pub >>=-Runs :
        Runs Q s (m s)
        → ((a : A) (t : List (Request O)) → Q a → Runs R t (f a t))
        → Runs R s ((m >>= f) s)
    unfolding ◌>>=◌
    >>=-Runs h k = go (m s) h
      where
        go : (x : Result A × List (Request O)) → Runs Q s x → Runs R s (continue x.0 f x.1)
        go (ok a, t) (h, q) = let (j, r) = k a t q in (Made-trans s t (f a t).1 h j, r)
        go (err e, t) (h, _) = (h, tt)

  pub attempt-Runs :
      {A : Type 0} (R : A → Type 0) (m : Act O A) (s : List (Request O))
      → Runs R s (m s)
      → Runs (Holds R) s (attempt m s)
  attempt-Runs R m s h = h

  wrap-Holds :
      {A : Type 0} (R : A → Type 0) (msg : Bytes) (r : Result A) → Holds R r → Holds R (wrap msg r)
  wrap-Holds R msg (ok a) h = h
  wrap-Holds R msg (err e) h = tt

  pub wrapping-Runs :
      {A : Type 0} (R : A → Type 0) (msg : Bytes) (m : Act O A) (s : List (Request O))
      → Runs R s (m s)
      → Runs R s (wrapping msg m s)
  wrapping-Runs R msg m s (h, r) = (h, wrap-Holds R msg (m s).0 r)

  pub lift-Runs :
      {A : Type 0} (R : A → Type 0) (r : Result A) (s : List (Request O))
      → Holds R r
      → Runs R s (lift r s)
  lift-Runs R r s h = (Made-none s, h)

  pub ask-Runs :
      {A : Type 0} (answer : List (Request O) → Result A) (q : Request O) (s : List (Request O))
      → P q
      → Runs (λ _. Unit {0}) s (ask answer q s)
  unfolding ask
  ask-Runs answer q s p = (Made-one s q p, Holds-any (answer s))

  Holds-answer : {A : Type 0} (r : Result A) → Holds (λ a. r ≡ ok a) r
  Holds-answer (ok a) = refl
  Holds-answer (err e) = tt

  -- with the answer
  pub ask-Runs_answer :
      {A : Type 0} (answer : List (Request O) → Result A) (q : Request O) (s : List (Request O))
      → P q
      → Runs (λ a. answer s ≡ ok a) s (ask answer q s)
  unfolding ask
  ask-Runs_answer answer q s p = (Made-one s q p, Holds-answer (answer s))

  pub tell-Runs :
      (api : Api O) (q : Request O) (s : List (Request O))
      → P q
      → Runs (λ _. Unit {0}) s (tell api q s)
  unfolding tell
  tell-Runs api q s p = ask-Runs (λ s. from_error (api.reply s q)) q s p
