-- ===== src/Result.antt =====
-- Errors as values, with their messages, since the code tests messages by `strings.Contains`; and
-- actions that change a state and may return an error beside it.
pub mod Frame
pub mod Ends
use helm.Common.{
  ℕ, Bytes, codes, Bool, true, false, List, [], ◌∷◌, ◌++◌, ◌≡◌, refl, arith, if◌then◌else◌, ◌==◌,
  ◌||◌,
}
use helm.Common.Text.{contains, has_prefix}
use helm.Common.Decimal.{format}

pub data Error : Type 0 where
  -- pkg/storage/errors
  release_not_found release_exists invalid_key : Bytes → Error
  -- pkg/storage
  no_deployed no_revision : Bytes → Error
  deletion_errors : ℕ → Error → Error
  -- pkg/tiller
  missing_chart missing_release invalid_revision invalid_name pending no_name : Error
  name_too_long name_in_use name_exists already_deleted unknown_hook : Bytes → Error
  validation_failed corrupted_record no_api_versions : Error → Error
  install_failed : Bytes → Error → Error
  deletion_completed force_delete_failed : ℕ → Bytes → Error
  object_not_found : Bytes → Bytes → Error
  -- kube.ErrNoObjectsVisited, and a panic on a nil pointer
  no_objects_visited nil_pointer : Error
  -- an error of the cluster, a backend or the renderer, by its message
  external : Bytes → Error

-- `%q` for texts without control characters
unfoldable pub quote : Bytes → Bytes
quote s = b'"' ∷ (escape s ++ b'"' ∷ [])
  where
    escape : Bytes → Bytes
    escape [] = []
    escape (c ∷ s) = if c == b'"' || c == 92 then 92 ∷ c ∷ escape s else c ∷ escape s

-- err.Error()
unfoldable pub message : Error → Bytes
unfolding quote format
message (release_not_found k) = codes "release: " ++ (quote k ++ codes " not found")
message (release_exists k) = codes "release: " ++ (quote k ++ codes " already exists")
message (invalid_key k) = codes "release: " ++ (quote k ++ codes " invalid key")
message (no_deployed n) = quote n ++ codes " has no deployed releases"
message (no_revision n) = codes "no revision for release " ++ quote n
message (deletion_errors c e) =
    codes "encountered " ++ (format c ++ (codes " deletion errors. First is: " ++ message e))
message missing_chart = codes "no chart provided"
message missing_release = codes "no release provided"
message invalid_revision = codes "invalid release revision"
message invalid_name =
    codes "invalid release name, must match regex ^(([A-Za-z0-9][-A-Za-z0-9_.]*)?[A-Za-z0-9])+$ "
    ++ codes "and the length must not be longer than 53"
message pending = codes "another operation (install/upgrade/rollback) is in progress"
message no_name = codes "no available release name found"
message (name_too_long n) = codes "release name " ++ (quote n ++ codes " exceeds max length of 53")
message (name_in_use n) =
    codes "a release named " ++ (n ++ codes " is in use, cannot re-use a name that is still in use")
message (name_exists n) =
    codes "a release named "
    ++ (n
        ++ (codes " already exists.\nRun: helm ls --all "
            ++ (n
                ++ (codes "; to check the status of the release\nOr run: helm del --purge "
                    ++ (n ++ codes "; to delete it")))))
message (already_deleted n) = codes "the release named " ++ (quote n ++ codes " is already deleted")
message (unknown_hook h) = codes "unknown hook " ++ h
message (validation_failed e) = codes "validation failed: " ++ message e
message (corrupted_record e) =
    codes "corrupted release record. You must manually delete the resources: " ++ message e
message (no_api_versions e) = codes "Could not get apiVersions from Kubernetes: " ++ message e
message (install_failed n e) = codes "release " ++ (n ++ (codes " failed: " ++ message e))
message (deletion_completed c es) =
    codes "deletion completed with " ++ (format c ++ (codes " error(s): " ++ es))
message (force_delete_failed c es) =
    codes "Upgrade --force successfully deleted the previous release, but encountered "
    ++ (format c ++ (codes " error(s) and cannot continue: " ++ es))
message (object_not_found r o) =
    codes "release "
    ++ (quote r ++ (codes ": object " ++ (quote o ++ codes " not found, skipping delete")))
message no_objects_visited = codes "no objects visited"
message nil_pointer = codes "runtime error: invalid memory address or nil pointer dereference"
message (external m) = m

-- strings.Contains(err.Error(), text)
unfoldable pub mentions : Bytes → Error → Bool
unfolding contains message
mentions text e = contains (message e) text

contains-append_right : (s t u : Bytes) → contains t u ≡ true → contains (s ++ t) u ≡ true
unfolding contains
contains-append_right [] t u h = h
contains-append_right (c ∷ s) t u h = ground (arith, contains-append_right s t u h)

-- The message of ErrReleaseNotFound says "not found", whatever the key.
pub mentions-release_not_found :
    (k : Bytes) → mentions (codes "not found") (release_not_found k) ≡ true
unfolding mentions
mentions-release_not_found k =
    contains-append_right (codes "release: ") (quote k ++ codes " not found") (codes "not found")
      (contains-append_right (quote k) (codes " not found") (codes "not found") refl)

pub data Result {ℓ} (A : Type ℓ) : Type ℓ where
  ok : A → Result A
  err : Error → Result A

module _ {ℓ κ} {A : Type ℓ} {B : Type κ} where
  abbrev pub bind : Result A → (A → Result B) → Result B
  bind (ok a) f = f a
  bind (err e) f = err e

-- An action: what it did before it failed stays done.
abbrev pub Exec {ℓ} : Type ℓ → Type ℓ → Type ℓ
Exec S A = S → Result A × S

module _ {ℓ} {S A : Type ℓ} where
  abbrev pub pure : A → Exec S A
  pure a s = (ok a, s)

  abbrev pub raise : Error → Exec S A
  raise e s = (err e, s)

  abbrev pub lift : Result A → Exec S A
  lift r s = (r, s)

  -- the error as a value: `if err := …; err != nil`
  abbrev pub attempt : Exec S A → Exec S (Result A)
  attempt m s = let (r, s') = m s in (ok r, s')

module _ {ℓ} {S A B : Type ℓ} where
  abbrev pub continue : Result A → (A → Exec S B) → Exec S B
  continue (ok a) f s = f a s
  continue (err e) f s = (err e, s)

  infixl 10 ◌>>=◌ ◌>>◌
  unfoldable pub ◌>>=◌ : Exec S A → (A → Exec S B) → Exec S B
  ◌>>=◌ m f s = let (r, s') = m s in continue r f s'

  abbrev pub ◌>>◌ : Exec S A → Exec S B → Exec S B
  m >> n = m >>= λ _. n

module _ {ℓ} {S A B : Type ℓ} (m : Exec S A) (f : A → Exec S B) (s : S) where
  -- A block that returns went through its first step.
  pub >>=-eq-ok :
      (b : B) (t : S)
      → (m >>= f) s ≡ (ok b, t)
      → (a : A) × (u : S) × (m s ≡ (ok a, u)) × (f a u ≡ (ok b, t))
  unfolding ◌>>=◌
  >>=-eq-ok b t h = go (m s) refl h
    where
      go :
          (x : Result A × S)
          → m s ≡ x
          → continue x.0 f x.1 ≡ (ok b, t)
          → (a : A) × (u : S) × (m s ≡ (ok a, u)) × (f a u ≡ (ok b, t))
      go (ok a, u) e k = (a, u, e, k)
      go (err x, u) e k = cc
