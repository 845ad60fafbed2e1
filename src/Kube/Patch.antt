-- ===== src/Kube/Patch.antt =====
-- createPatch, getSelectorFromObject and updateResource of pkg/kube/client.go.
use helm.Common.Text.{eqb}
use helm.Kube.Api.{
  Labels, PatchType, strategic_merge_patch_type, merge_patch_type, patch_object, list_pods,
  delete_pod, Typed, replication_controller, apps_v1_deployment, apps_v1beta1_deployment,
  apps_v1beta2_deployment, extensions_deployment, extensions_daemon_set, apps_v1_daemon_set,
  apps_v1beta2_daemon_set, apps_v1_stateful_set, apps_v1beta1_stateful_set,
  apps_v1beta2_stateful_set, extensions_replica_set, apps_v1_replica_set, batch_job, Pod, Api, Act,
  from_error, ask, tell, get_info, create_resource, delete_resource, wrap, wrapping,
}
use helm.Result.{
  Error, external, message, Result, ok, err, bind, pure, raise, lift, attempt, ◌>>=◌, ◌>>◌,
  nil_pointer,
}
use helm.Kube.Infos.{Info}
use helm.Common.{
  ◌||◌, if◌then◌else◌, Bytes, codes, Bool, none, List, true, ◌∷◌, some, ◌++◌, Option, [], false,
}

-- Spec.Selector.MatchLabels
abbrev pub match_labels : Option Labels → Result (Option Labels)
match_labels none = err nil_pointer
match_labels (some selector) = ok (some selector)

-- getSelectorFromObject: the selector, if the type has one; a nil label selector panics
unfoldable pub get_selector_from_object : Typed → Result (Option Labels)
get_selector_from_object (replication_controller _ selector) = ok (some selector)
get_selector_from_object (extensions_replica_set _ selector) = match_labels selector
get_selector_from_object (apps_v1_replica_set _ selector) = match_labels selector
get_selector_from_object (extensions_deployment _ _ selector) = match_labels selector
get_selector_from_object (apps_v1beta1_deployment _ _ selector) = match_labels selector
get_selector_from_object (apps_v1beta2_deployment _ _ selector) = match_labels selector
get_selector_from_object (apps_v1_deployment _ _ selector) = match_labels selector
get_selector_from_object (extensions_daemon_set _ selector) = match_labels selector
get_selector_from_object (apps_v1beta2_daemon_set _ selector) = match_labels selector
get_selector_from_object (apps_v1_daemon_set _ selector) = match_labels selector
get_selector_from_object (batch_job selector) = match_labels selector
get_selector_from_object (apps_v1_stateful_set _ selector) = match_labels selector
get_selector_from_object (apps_v1beta1_stateful_set _ selector) = match_labels selector
get_selector_from_object (apps_v1beta2_stateful_set _ selector) = match_labels selector
get_selector_from_object _ = ok none

module _ {O : Type 0} (api : Api O) where
  abbrev pub is_generic : O × Option Error → Bool
  is_generic (versioned, none) = api.is_unstructured versioned || api.is_crd versioned
  is_generic (versioned, some e) =
      api.is_not_registered e || (api.is_unstructured versioned || api.is_crd versioned)

  -- the patch for what asVersioned has returned
  unfoldable pub patch_of : Bytes → Bytes → O × Option Error → Result (Option (PatchType × Bytes))
  patch_of old new versioned = elim (is_generic versioned) [
    | true ↦
        bind (wrap (codes "failed to create merge patch: ") (api.create_merge_patch old new))
          λ p. ok (some (merge_patch_type, p))
    | false ↦ elim versioned.1 [
      | some e ↦ err (external (codes "failed to get versionedObject: " ++ message e))
      | none ↦
          bind
            (wrap (codes "failed to create two-way merge patch: ")
              (api.create_two_way_merge_patch old new versioned.0))
            λ p. ok (some (strategic_merge_patch_type, p))
    ]
  ]

  -- createPatch: no patch where the data are equal
  unfoldable pub create_patch : Info O → O → Result (Option (PatchType × Bytes))
  unfolding patch_of eqb
  create_patch target current =
      bind (wrap (codes "serializing current configuration: ") (api.marshal current)) λ old.
        bind (wrap (codes "serializing target configuration: ") (api.marshal target.object))
          λ new. if eqb old new then ok none else patch_of old new (api.as_versioned target)

  -- A failed patch: with force, the resource is deleted and created again.
  unfoldable pub recreate_resource : Bool → Info O → Error → Act O (Info O)
  unfolding delete_resource create_resource
  recreate_resource true target e =
      delete_resource api target
      >> wrapping (codes "Failed to recreate resource: ") (create_resource api target)
  recreate_resource false target e = raise e

  -- the target after a patch: a refresh that fails is not noticed
  abbrev pub refreshed : Info O → Result (Info O) → Info O
  refreshed target (ok i) = i
  refreshed target (err e) = target

  abbrev pub patched : Bool → Info O → Result O → Act O (Info O)
  patched force target (ok obj) = pure (refreshed target (api.refresh target obj))
  patched force target (err e) = recreate_resource force target e

  unfoldable pub apply_patch : Bool → Info O → Option (PatchType × Bytes) → Act O (Info O)
  unfolding ask get_info recreate_resource
  apply_patch force target none =
      wrapping (codes "error trying to refresh resource information: ") (get_info api target)
  apply_patch force target (some (type, patch)) =
      attempt (
        ask (λ s. api.patch s target.namespace target.name target.kind type patch)
          (patch_object target.namespace target.name target.kind type patch))
      >>= λ r. patched force target r

  unfoldable pub delete_pods : List Pod → Act O (Unit {0})
  unfolding tell
  delete_pods [] = pure tt
  delete_pods (p ∷ ps) = tell api (delete_pod p.namespace p.name p.uid) >> delete_pods ps

  -- the pods of a resource are deleted, so that they start again
  unfoldable pub restart_pods : Info O → Option Labels → Act O (Unit {0})
  unfolding ask delete_pods
  restart_pods target none = pure tt
  restart_pods target (some selector) =
      (λ s. lift (from_error (api.kubernetes_client_set s)) s) >>= λ client.
      ask (λ s. api.pods s target.namespace selector) (list_pods target.namespace selector)
      >>= λ ps. delete_pods ps

  unfoldable pub recreate_pods : Bool → Info O → Act O (Info O)
  unfolding restart_pods get_selector_from_object
  recreate_pods false target = pure target
  recreate_pods true target =
      lift (get_selector_from_object (api.type_of (api.as_versioned target).0)) >>= λ selector.
      restart_pods target selector >>= λ u. pure target

  -- updateResource: the target as it is then
  unfoldable pub update_resource : Info O → O → Bool → Bool → Act O (Info O)
  unfolding create_patch apply_patch recreate_pods
  update_resource target current force recreate =
      lift (wrap (codes "failed to create patch: ") (create_patch target current)) >>= λ patch.
      apply_patch force target patch >>= λ i. recreate_pods recreate i
