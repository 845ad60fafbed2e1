-- ===== src/Result/Frame.antt =====
-- What an action may change: a reflexive and transitive relation between the state before and after.
use helm.Common.{Bool, true, false, if◌then◌else◌}
use helm.Result.{Result, ok, err, Exec, continue, ◌>>=◌}

pub record IsFrame {ℓ} {S : Type ℓ} (R : S → S → Type ℓ) : Type ℓ where
  pub rfl : (s : S) → R s s
  pub trans : (s t u : S) → R s t → R t u → R s u

module _ {ℓ} {S : Type ℓ} (R : S → S → Type ℓ) where
  -- Every run of the action relates the state before and after.
  abbrev pub Keeps : {A : Type ℓ} → Exec S A → Type ℓ
  Keeps m = (s : S) → R s (m s).1

module _ {ℓ} {S : Type ℓ} {R : S → S → Type ℓ} (frame : IsFrame R) where
  open frame use {rfl, trans}

  keeps_step :
      {A B : Type ℓ} (f : A → Exec S B) (s : S) (r : Result A) (t : S)
      → R s t
      → ((a : A) → Keeps R (f a))
      → R s (continue r f t).1
  keeps_step f s (ok a) t h k = trans s t (f a t).1 h (k a t)
  keeps_step f s (err e) t h k = h

  pub >>=-Keeps :
      {A B : Type ℓ} (m : Exec S A) (f : A → Exec S B)
      → Keeps R m
      → ((a : A) → Keeps R (f a))
      → Keeps R (m >>= f)
  unfolding ◌>>=◌
  >>=-Keeps m f h k s = keeps_step f s (m s).0 (m s).1 (h s) k

  pub if-Keeps :
      {A : Type ℓ} (b : Bool) (m n : Exec S A)
      → Keeps R m
      → Keeps R n
      → Keeps R (if b then m else n)
  if-Keeps true m n h k = h
  if-Keeps false m n h k = k

-- A returned value has the property.
abbrev pub Yields {ℓ κ} : {A : Type ℓ} → (A → Type κ) → Result A → Type κ
Yields P (ok a) = P a
Yields P (err e) = Unit

module _ {ℓ κ} {S A B : Type ℓ} (P : B → Type κ) where
  Yields-step :
      (f : A → Exec S B) (r : Result A) (t : S)
      → ((a : A) (u : S) → Yields P (f a u).0)
      → Yields P (continue r f t).0
  Yields-step f (ok a) t h = h a t
  Yields-step f (err e) t h = tt

  pub >>=-Yields :
      (m : Exec S A) (f : A → Exec S B) (s : S)
      → ((a : A) (u : S) → Yields P (f a u).0)
      → Yields P ((m >>= f) s).0
  unfolding ◌>>=◌
  >>=-Yields m f s h = Yields-step f (m s).0 (m s).1 h

module _ {ℓ κ} {S : Type ℓ} {R : S → S → Type ℓ} (frame : IsFrame R) {A B : Type ℓ}
    (P : A → Type κ) where
  open frame use {trans}

  keeps_yielding :
      (f : A → Exec S B) (s : S) (r : Result A) (t : S)
      → R s t
      → Yields P r
      → ((a : A) → P a → Keeps R (f a))
      → R s (continue r f t).1
  keeps_yielding f s (ok a) t h p k = trans s t (f a t).1 h (k a p t)
  keeps_yielding f s (err e) t h p k = h

  -- Only the values that the first step can return go on.
  pub >>=-Keeps_yielding :
      (m : Exec S A) (f : A → Exec S B)
      → Keeps R m
      → ((s : S) → Yields P (m s).0)
      → ((a : A) → P a → Keeps R (f a))
      → Keeps R (m >>= f)
  unfolding ◌>>=◌
  >>=-Keeps_yielding m f h y k s = keeps_yielding f s (m s).0 (m s).1 (h s) (y s) k
