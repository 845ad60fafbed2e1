-- ===== src/Kube/Update/Changes.antt =====
-- What UpdateWithOptions of pkg/kube/client.go may change in the cluster.
use helm.Kube.Update.Scope.{IsStable}
use helm.Kube.Api.{
  create_object, Request, delete_object, patch_object, create_namespace, delete_pod, Api,
}
use helm.Result.{Result}
use helm.Common.{◌||◌, Bytes, List, ◌⊎◌, Mem, ◌≡◌, true}
use helm.Kube.Infos.{Info}
use helm.Kube.Infos
use helm.Tiller.Server.{UpdateOptions}

-- one of the resources has the name, the namespace and the kind
abbrev pub Named : {O : Type 0} → List (Info O) → (namespace name kind : Bytes) → Type 0
Named {O} is ns n k = (i : Info O) × Mem i is × (i.namespace ≡ ns) × (i.name ≡ n) × (i.kind ≡ k)

-- What an update from the resources of `original` to those of `target` may ask for: every read;
-- the creation of a target, and a patch of one; the deletion of a resource that only the original
-- has, and with force or cleanup of a target; and with recreate the deletion of a pod.
abbrev pub IsInScope :
    {O : Type 0} → UpdateOptions → List (Info O) → List (Info O) → Request O → Type 0
IsInScope opts original target (delete_object ns n k) =
    Named (Infos.difference original target) ns n k
    ⊎ (Named target ns n k × ((opts.force || opts.cleanup_on_fail) ≡ true))
IsInScope {O} opts original target (create_object ns k obj) =
    (i : Info O) × Mem i target × (i.namespace ≡ ns) × (i.kind ≡ k) × (i.object ≡ obj)
IsInScope opts original target (patch_object ns n k _ _) = Named target ns n k
IsInScope opts original target (create_namespace _) = ⊥
IsInScope opts original target (delete_pod _ _ _) = opts.recreate ≡ true
IsInScope opts original target _ = Unit

module _ {O : Type 0} (opts : UpdateOptions) (original target : List (Info O)) where
  module _ (api : Api O) (stable : IsStable api) where
    abbrev P : Request O → Type 0
    P = IsInScope opts original target

    abbrev Deletable : Info O → Type 0
    Deletable i = P (delete_object i.namespace i.name i.kind)
