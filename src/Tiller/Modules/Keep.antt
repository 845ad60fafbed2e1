-- ===== src/Tiller/Modules/Keep.antt =====
-- Which resources the deletion of a release keeps, and which calls it makes.
use helm.Common.{Bool, not, if◌then◌else◌, ◌≡◌, refl, arith, List, [], ◌∷◌, ◌++◌, map, Bytes}
use helm.Release.{Release}
use helm.Result.{ok, Error}
use helm.Storage.Driver.{Driver}
use helm.Tiller.Server.{Env, Server, Manifest, Call, kube, kube_get, kube_delete}
use helm.Tiller.Hooks.Script.{called, called_none, called_twice}
use helm.Tiller.Modules.{
  resource_policy_is_keep, filter_manifests_to_keep, trim_space, summarize_kept, delete_file,
  delete_files, delete_split, delete_release,
}

-- the manifests that pass a test, in order
unfoldable pub select : (Manifest → Bool) → List Manifest → List Manifest
select p [] = []
select p (m ∷ ms) = if p m then m ∷ select p ms else select p ms

abbrev pub is_kept : Manifest → Bool
is_kept m = resource_policy_is_keep m.annotations

-- The manifests are split, in order, by their resource policy.
pub filter_manifests_to_keep-select :
    (ms : List Manifest)
    → filter_manifests_to_keep ms ≡ (select is_kept ms, select (λ m. not (is_kept m)) ms)
unfolding filter_manifests_to_keep select
filter_manifests_to_keep-select [] = refl
filter_manifests_to_keep-select (m ∷ ms) = ground (arith, filter_manifests_to_keep-select ms)

-- one call for each manifest that is not blank
unfoldable pub deletions : Bytes → List Manifest → List Call
unfolding trim_space
deletions ns [] = []
deletions ns (m ∷ ms) = elim (trim_space m.content) [
  | [] ↦ deletions ns ms
  | c ∷ b ↦ kube_delete ns (c ∷ b) ∷ deletions ns ms
]

module _ (D : Driver) (env : Env) where
  summarize_kept-calls :
      (ns : Bytes) (ms : List Manifest) (msg : Bytes) (s : Server D)
      → (summarize_kept D env ns ms msg s).1 ≡ called D s (map (λ m. kube_get ns m.content) ms)
  unfolding summarize_kept kube
  summarize_kept-calls ns [] msg s = called_none D s
  summarize_kept-calls ns (m ∷ ms) msg s =
      let call = kube_get ns m.content in
      called_twice D s (called D s (call ∷ [])) _ (call ∷ []) (map (λ m. kube_get ns m.content) ms)
        refl (summarize_kept-calls ns ms _ (called D s (call ∷ [])))

  delete_file-calls :
      (rel : Release) (m : Manifest) (errs : List Error) (body : Bytes) (s : Server D)
      (ms : List Manifest)
      → ((errs : List Error) (t : Server D)
          → (delete_files D env rel ms errs t).1 ≡ called D t (deletions rel.namespace ms))
      → (let (errs', s') = delete_file D env rel m errs body s in
          (delete_files D env rel ms errs' s').1)
        ≡ called D s (elim body [
          | [] ↦ deletions rel.namespace ms
          | c ∷ b ↦ kube_delete rel.namespace (c ∷ b) ∷ deletions rel.namespace ms
        ])
  unfolding kube
  delete_file-calls rel m errs [] s ms h = h errs s
  delete_file-calls rel m errs (c ∷ b) s ms h =
      let call = kube_delete rel.namespace (c ∷ b) in
      called_twice D s (called D s (call ∷ [])) _ (call ∷ []) (deletions rel.namespace ms) refl
        (h _ (called D s (call ∷ [])))

  delete_files-calls :
      (rel : Release) (ms : List Manifest) (errs : List Error) (s : Server D)
      → (delete_files D env rel ms errs s).1 ≡ called D s (deletions rel.namespace ms)
  unfolding delete_files deletions
  delete_files-calls rel [] errs s = called_none D s
  delete_files-calls rel (m ∷ ms) errs s =
      delete_file-calls rel m errs (trim_space m.content) s ms (delete_files-calls rel ms)

  -- Where its manifest can be split, the deletion of a release asks the cluster about the
  -- resources that are kept by policy, and then deletes the others that are not blank, one by one
  -- in their order, also after errors. It changes nothing else.
  pub delete_release-calls :
      (rel : Release) (s : Server D) (files : List Manifest)
      → env.uninstall_manifests rel.manifest ≡ ok files
      → (delete_release D env rel s).1
        ≡ called D s (
            map (λ m. kube_get rel.namespace m.content) (select is_kept files)
            ++ deletions rel.namespace (select (λ m. not (is_kept m)) files))
  unfolding delete_release delete_split
  delete_release-calls rel s files split =
      let keep = select is_kept files in
      let remove = select (λ m. not (is_kept m)) files in
      rw (split, filter_manifests_to_keep-select files)
        (called_twice D s (summarize_kept D env rel.namespace keep [] s).1 _ _ _
          (summarize_kept-calls rel.namespace keep [] s)
          (delete_files-calls rel remove [] (summarize_kept D env rel.namespace keep [] s).1))
