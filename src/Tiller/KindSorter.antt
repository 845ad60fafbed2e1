-- ===== src/Tiller/KindSorter.antt =====
-- pkg/tiller/kind_sorter.go
pub mod Order
use Prim.Native.Nat.{ℕ, zero, suc}
use helm.Common.{
  Bytes, codes, Bool, true, false, ltb, ◌==◌, if◌then◌else◌, not, Option, none, some, List, [], ◌∷◌,
  map, String,
}
use helm.Common.Text.{eqb, lessb}
use helm.Common.Sort.{sort}
use helm.Tiller.Server.{Manifest}

abbrev pub SortOrder : Type 0
SortOrder = List Bytes

abbrev pub install_order : SortOrder
install_order =
    codes "Namespace"
    ∷ codes "NetworkPolicy"
    ∷ codes "ResourceQuota"
    ∷ codes "LimitRange"
    ∷ codes "PodSecurityPolicy"
    ∷ codes "PodDisruptionBudget"
    ∷ codes "Secret"
    ∷ codes "ConfigMap"
    ∷ codes "StorageClass"
    ∷ codes "PersistentVolume"
    ∷ codes "PersistentVolumeClaim"
    ∷ codes "ServiceAccount"
    ∷ codes "CustomResourceDefinition"
    ∷ codes "ClusterRole"
    ∷ codes "ClusterRoleList"
    ∷ codes "ClusterRoleBinding"
    ∷ codes "ClusterRoleBindingList"
    ∷ codes "Role"
    ∷ codes "RoleList"
    ∷ codes "RoleBinding"
    ∷ codes "RoleBindingList"
    ∷ codes "Service"
    ∷ codes "DaemonSet"
    ∷ codes "Pod"
    ∷ codes "ReplicationController"
    ∷ codes "ReplicaSet"
    ∷ codes "Deployment"
    ∷ codes "HorizontalPodAutoscaler"
    ∷ codes "StatefulSet"
    ∷ codes "Job"
    ∷ codes "CronJob"
    ∷ codes "Ingress"
    ∷ codes "APIService"
    ∷ []

abbrev pub uninstall_order : SortOrder
uninstall_order =
    codes "APIService"
    ∷ codes "Ingress"
    ∷ codes "Service"
    ∷ codes "CronJob"
    ∷ codes "Job"
    ∷ codes "StatefulSet"
    ∷ codes "HorizontalPodAutoscaler"
    ∷ codes "Deployment"
    ∷ codes "ReplicaSet"
    ∷ codes "ReplicationController"
    ∷ codes "Pod"
    ∷ codes "DaemonSet"
    ∷ codes "RoleBindingList"
    ∷ codes "RoleBinding"
    ∷ codes "RoleList"
    ∷ codes "Role"
    ∷ codes "ClusterRoleBindingList"
    ∷ codes "ClusterRoleBinding"
    ∷ codes "ClusterRoleList"
    ∷ codes "ClusterRole"
    ∷ codes "CustomResourceDefinition"
    ∷ codes "ServiceAccount"
    ∷ codes "PersistentVolumeClaim"
    ∷ codes "PersistentVolume"
    ∷ codes "StorageClass"
    ∷ codes "ConfigMap"
    ∷ codes "Secret"
    ∷ codes "PodDisruptionBudget"
    ∷ codes "PodSecurityPolicy"
    ∷ codes "LimitRange"
    ∷ codes "ResourceQuota"
    ∷ codes "NetworkPolicy"
    ∷ codes "Namespace"
    ∷ []

-- The map of newKindSorter, read at a kind: the last position of the kind in the order.
unfoldable pub ordering : ℕ → SortOrder → Bytes → Option ℕ
unfolding eqb
ordering v [] kind = none
ordering v (k ∷ ks) kind = elim (ordering (suc v) ks kind) [
  | some w ↦ some w
  | none ↦ if eqb k kind then some v else none
]

-- the comparison in kindSorter.Less, of two kinds at their positions
unfoldable pub less_at : Option ℕ → Manifest → Option ℕ → Manifest → Bool
unfolding eqb lessb
less_at none a none b = if not (eqb a.kind b.kind) then lessb a.kind b.kind else lessb a.name b.name
less_at none a (some second) b = false
less_at (some first) a none b = true
less_at (some first) a (some second) b =
    if first == second then lessb a.name b.name else ltb first second

-- kindSorter.Less
unfoldable pub less_kind : SortOrder → Manifest → Manifest → Bool
unfolding less_at ordering
less_kind order a b = less_at (ordering 0 order a.kind) a (ordering 0 order b.kind) b

-- sortByKind
unfoldable pub sort_by_kind : List Manifest → SortOrder → List Manifest
unfolding sort less_kind
sort_by_kind manifests order = sort (less_kind order) manifests
