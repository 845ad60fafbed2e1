-- ===== src/Result/Ends.antt =====
-- What holds of the value and the state when an action returns without an error.
use helm.Common.{Bool, true, false, if◌then◌else◌, ◌≡◌, refl, subst}
use helm.Result.{Result, ok, err, Exec, continue, ◌>>=◌}

module _ {ℓ κ} {S A : Type ℓ} where
  abbrev pub Ends : (A → S → Type κ) → Result A × S → Type κ
  Ends P (ok a, s) = P a s
  Ends P (err e, s) = Unit

  -- the same of an attempt, where it succeeded
  abbrev pub IfOk : (A → S → Type κ) → Result A → S → Type κ
  IfOk P (ok a) s = P a s
  IfOk P (err e) s = Unit

  pub attempt-Ends : (P : A → S → Type κ) (x : Result A × S) → Ends P x → IfOk P x.0 x.1
  attempt-Ends P (ok a, s) h = h
  attempt-Ends P (err e, s) h = tt

  pub Ends-eq :
      (P : A → S → Type κ) {x : Result A × S} {a : A} {s : S} → Ends P x → x ≡ (ok a, s) → P a s
  Ends-eq P h e = subst (Ends P) e h

  pub Ends-weaken :
      (P Q : A → S → Type κ) (x : Result A × S)
      → Ends P x
      → ((a : A) (s : S) → P a s → Q a s)
      → Ends Q x
  Ends-weaken P Q (ok a, s) h k = k a s h
  Ends-weaken P Q (err e, s) h k = tt

  -- with what holds of the state in any case
  pub Ends-with :
      (P : A → S → Type κ) (R : S → Type κ) (x : Result A × S)
      → Ends P x
      → R x.1
      → Ends (λ a s. P a s × R s) x
  Ends-with P R (ok a, s) h k = (h, k)
  Ends-with P R (err e, s) h k = tt

  pub if-Ends :
      (P : A → S → Type κ) (b : Bool) (m n : Exec S A) (s : S)
      → (b ≡ true → Ends P (m s))
      → (b ≡ false → Ends P (n s))
      → Ends P ((if b then m else n) s)
  if-Ends P true m n s h k = h refl
  if-Ends P false m n s h k = k refl

module _ {ℓ κ} {S A B : Type ℓ} (P : A → S → Type κ) (Q : B → S → Type κ) where
  Ends-step :
      (f : A → Exec S B) (x : Result A × S)
      → Ends P x
      → ((a : A) (t : S) → P a t → Ends Q (f a t))
      → Ends Q (continue x.0 f x.1)
  Ends-step f (ok a, t) h k = k a t h
  Ends-step f (err e, t) h k = tt

  pub >>=-Ends :
      (m : Exec S A) (f : A → Exec S B) (s : S)
      → Ends P (m s)
      → ((a : A) (t : S) → P a t → Ends Q (f a t))
      → Ends Q ((m >>= f) s)
  unfolding ◌>>=◌
  >>=-Ends m f s h k = Ends-step f (m s) h k

module _ {ℓ κ} {S A B : Type ℓ} (Q : B → S → Type κ) where
  -- with no more known of the first step than what it returned
  pub >>=-Ends_any :
      (m : Exec S A) (f : A → Exec S B) (s : S)
      → ((a : A) (t : S) → m s ≡ (ok a, t) → Ends Q (f a t))
      → Ends Q ((m >>= f) s)
  unfolding ◌>>=◌
  >>=-Ends_any m f s k = go (m s) refl
    where
      go : (x : Result A × S) → m s ≡ x → Ends Q (continue x.0 f x.1)
      go (ok a, t) e = k a t e
      go (err x, t) e = tt

  -- a first step that only reads the state
  pub reads-Ends :
      (g : S → Result A) (f : A → Exec S B) (s : S)
      → ((a : A) → g s ≡ ok a → Ends Q (f a s))
      → Ends Q (((λ t. (g t, t)) >>= f) s)
  unfolding ◌>>=◌
  reads-Ends g f s k = go (g s) refl
    where
      go : (x : Result A) → g s ≡ x → Ends Q (continue x f s)
      go (ok a) e = k a e
      go (err x) e = tt
