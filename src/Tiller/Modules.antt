-- ===== src/Tiller/Modules.antt =====
-- LocalReleaseModule and DeleteRelease of pkg/tiller/release_modules.go, pkg/tiller/resource_policy.go
-- and pkg/kube/resource_policy.go.
pub mod Keep
use helm.Common.{
  ℕ, Bytes, codes, Bool, true, false, leb, ◌==◌, if◌then◌else◌, ◌&&◌, ◌||◌, not, Option, none, some,
  List, [], ◌∷◌, ◌++◌,
}
use helm.Common.Text.{eqb, contains}
use helm.Common.Decimal.{Int64}
use helm.Release.{Release}
use helm.Result.{
  Error, Result, ok, err, Exec, pure, attempt, object_not_found, corrupted_record, no_api_versions,
  no_objects_visited, ◌>>=◌, ◌>>◌,
}
use helm.Storage.Driver.{Driver}
use helm.Tiller.Server.{
  Env, Server, Action, Manifest, UpdateOptions, kube, kube_create, kube_get, kube_delete,
  kube_update, discover_versions,
}
use helm.Tiller.Hooks.{named}

-- ResourcePolicyIsKeep
unfoldable pub resource_policy_is_keep : List (Bytes × Bytes) → Bool
unfolding named
resource_policy_is_keep annotations = elim (named (codes "helm.sh/resource-policy") annotations) [
  | none ↦ false
  | some policy ↦ not (eqb policy (codes "delete"))
]

-- filterManifestsToKeep: the manifests to keep, and the remaining ones
unfoldable pub filter_manifests_to_keep : List Manifest → List Manifest × List Manifest
unfolding resource_policy_is_keep
filter_manifests_to_keep [] = ([], [])
filter_manifests_to_keep (m ∷ ms) =
    let (keep, remaining) = filter_manifests_to_keep ms in
    if resource_policy_is_keep m.annotations then (m ∷ keep, remaining) else (keep, m ∷ remaining)

is_space : ℕ → Bool
is_space c = c == b' ' || (leb 9 c && leb c 13)

trim_left : Bytes → Bytes
unfolding is_space
trim_left [] = []
trim_left (c ∷ s) = if is_space c then trim_left s else c ∷ s

trim_right : Bytes → Bytes
unfolding is_space
trim_right [] = []
trim_right (c ∷ s) = elim (trim_right s) [
  | [] ↦ if is_space c then [] else c ∷ []
  | d ∷ t ↦ c ∷ d ∷ t
]

-- strings.TrimSpace, of ASCII text
unfoldable pub trim_space : Bytes → Bytes
unfolding trim_left trim_right
trim_space s = trim_right (trim_left s)

abbrev metadata_name : Manifest → Bytes
metadata_name m = elim m.metadata_name [ none ↦ [] | some n ↦ n ]

abbrev object_text : Manifest → Bytes
object_text m = elim m.metadata_name [
  | none ↦ []
  | some n ↦ codes "[" ++ (m.kind ++ (codes "] " ++ n))
]

-- the message of an object that is gone
abbrev rewritten : Release → Manifest → Error → Error
rewritten rel m no_objects_visited = object_not_found rel.name (object_text m)
rewritten rel m e = e

module _ (D : Driver) (env : Env) where
  unfoldable pub module_create : Release → Int64 → Bool → Action D (Unit {0})
  unfolding kube
  module_create r timeout wait = kube D env (kube_create r.namespace r.manifest timeout wait)

  -- LocalReleaseModule.Update and Rollback, which are the same
  unfoldable pub module_update : Release → Release → UpdateOptions → Action D (Unit {0})
  unfolding kube
  module_update current target opts =
      kube D env (kube_update target.namespace current.manifest target.manifest opts)

  abbrev kept_line : Manifest → Bytes → Bytes
  kept_line m [] =
      codes "These resources were kept due to the resource policy:\n"
      ++ (codes "[" ++ (m.kind ++ (codes "] " ++ (metadata_name m ++ codes "\n"))))
  kept_line m (c ∷ s) =
      (c ∷ s) ++ (codes "[" ++ (m.kind ++ (codes "] " ++ (metadata_name m ++ codes "\n"))))

  abbrev is_present : Result (Unit {0}) → Bytes → Bool
  is_present (ok _) output = not (contains output (codes "==> MISSING\nKIND\t\tNAME\n"))
  is_present (err e) output = false

  -- summarizeKeptManifests
  unfoldable pub summarize_kept : Bytes → List Manifest → Bytes → Server D → Bytes × Server D
  unfolding kube contains
  summarize_kept namespace [] msg s = (msg, s)
  summarize_kept namespace (m ∷ ms) msg s =
      let call = kube_get namespace m.content in
      let output = env.output s.calls call in
      let (r, s') = kube D env call s in
      summarize_kept namespace ms (if is_present r output then kept_line m msg else msg) s'

  abbrev pub with_error : Release → Manifest → List Error → Result (Unit {0}) → List Error
  with_error rel m errs (ok _) = errs
  with_error rel m errs (err e) = errs ++ rewritten rel m e ∷ []

  -- the deletion of a file with content
  abbrev pub delete_file :
      Release → Manifest → List Error → Bytes → Server D → List Error × Server D
  delete_file rel m errs [] s = (errs, s)
  delete_file rel m errs (c ∷ b) s =
      let (r, s') = kube D env (kube_delete rel.namespace (c ∷ b)) s in
      (with_error rel m errs r, s')

  -- the loop of DeleteRelease: a failed deletion does not stop it
  unfoldable pub delete_files :
      Release → List Manifest → List Error → Server D → List Error × Server D
  unfolding kube trim_space
  delete_files rel [] errs s = (errs, s)
  delete_files rel (m ∷ ms) errs s =
      let (errs', s') = delete_file rel m errs (trim_space m.content) s in
      delete_files rel ms errs' s'

  unfoldable pub delete_split :
      Release → Result (List Manifest) → Server D → (Bytes × List Error) × Server D
  unfolding summarize_kept delete_files filter_manifests_to_keep
  delete_split rel (err e) s = ((rel.manifest, corrupted_record e ∷ []), s)
  delete_split rel (ok files) s =
      let (keep, remove) = filter_manifests_to_keep files in
      let (kept, s') = summarize_kept rel.namespace keep [] s in
      let (errs, s'') = delete_files rel remove [] s' in ((kept, errs), s'')

  -- DeleteRelease: what was kept, and the errors
  unfoldable pub delete_release : Release → Server D → (Bytes × List Error) × Server D
  unfolding delete_split
  delete_release rel s = delete_split rel (env.uninstall_manifests rel.manifest) s

  -- LocalReleaseModule.Delete
  unfoldable pub module_delete : Release → Server D → (Bytes × List Error) × Server D
  unfolding kube delete_release
  module_delete rel s =
      let (r, s') = kube D env discover_versions s in
      elim r [ err e ↦ ((rel.manifest, no_api_versions e ∷ []), s') | ok _ ↦ delete_release rel s' ]
