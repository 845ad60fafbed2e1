-- ===== src/Kube/Api.antt =====
-- The API server and the API machinery as pkg/kube uses them. A request is kept in the order it is
-- made, and the answer to one may depend on all before it. The libraries (client-go, cli-runtime,
-- json-patch, deploymentutil) are fields of `Api`.

use helm.Common.{ℕ, Bytes, Bool, Option, none, some, List, [], ◌∷◌, ◌++◌, false, true, zero, suc}
use helm.Common.Decimal.{Int32, Int64}
use helm.Result.{Error, Result, ok, err, Exec, ◌>>=◌, external, message, lift, pure, raise}
use helm.Kube.Infos.{Info}

-- map[string]string
abbrev pub Labels : Type 0
Labels = List (Bytes × Bytes)

-- types.PatchType
pub data PatchType : Type 0 where
  strategic_merge_patch_type merge_patch_type : PatchType

-- What goes over the wire: a read, a creation, a deletion in the background and a patch of an
-- object; namespaces; and what the waits read.
pub data Request (O : Type 0) : Type 0 where
  get_object delete_object watch_objects : (namespace name kind : Bytes) → Request O
  create_object : (namespace kind : Bytes) → O → Request O
  patch_object : (namespace name kind : Bytes) → PatchType → Bytes → Request O
  get_namespace create_namespace : (namespace : Bytes) → Request O
  list_pods : (namespace : Bytes) → Labels → Request O
  delete_pod : (namespace name uid : Bytes) → Request O
  get_pod get_deployment get_new_replica_set get_claim get_service :
      (namespace name : Bytes) → Request O

-- The types of objects that the client tells apart, with what it reads of them. A pointer to a
-- label selector may be nil.
pub data Typed : Type 0 where
  replication_controller : (namespace : Bytes) → (selector : Labels) → Typed
  pod : (namespace name : Bytes) → Typed
  apps_v1_deployment apps_v1beta1_deployment apps_v1beta2_deployment extensions_deployment :
      (namespace name : Bytes) → (selector : Option Labels) → Typed
  extensions_daemon_set apps_v1_daemon_set apps_v1beta2_daemon_set :
      (namespace : Bytes) → (selector : Option Labels) → Typed
  apps_v1_stateful_set apps_v1beta1_stateful_set apps_v1beta2_stateful_set :
      (namespace : Bytes) → (selector : Option Labels) → Typed
  extensions_replica_set apps_v1beta2_replica_set apps_v1_replica_set :
      (namespace : Bytes) → (selector : Option Labels) → Typed
  batch_job : (selector : Option Labels) → Typed
  persistent_volume_claim service : (namespace name : Bytes) → Typed
  other : Typed

-- v1.ConditionStatus
pub data ConditionStatus : Type 0 where
  condition_true condition_false condition_unknown : ConditionStatus

-- The conditions of a pod: whether one is of the type Ready, and its status.
pub record Pod : Type 0 where
  pub namespace : Bytes
  pub name : Bytes
  pub uid : Bytes
  pub conditions : List (Bool × ConditionStatus)

-- v1.ServiceType
pub data ServiceType : Type 0 where
  cluster_ip node_port load_balancer external_name : ServiceType

pub record Service : Type 0 where
  pub service_type : ServiceType
  pub cluster_ip : Bytes
  -- Status.LoadBalancer.Ingress is not nil
  pub has_ingress : Bool

pub record Deployment : Type 0 where
  pub paused : Bool
  -- Spec.Replicas, which may be nil
  pub replicas : Option Int32

pub record Api (O : Type 0) : Type 0 where
  -- BuildUnstructured: the resources of a manifest in a namespace
  pub build : List (Request O) → Bytes → Bytes → Result (List (Info O))
  pub kubernetes_client_set : List (Request O) → Option Error
  -- helper.Get and info.Get, helper.Create, helper.Patch: the object
  pub get : List (Request O) → (namespace name kind : Bytes) → Result O
  pub create : List (Request O) → (namespace kind : Bytes) → O → Result O
  pub patch : List (Request O) → (namespace name kind : Bytes) → PatchType → Bytes → Result O
  -- the other requests that only succeed or fail
  pub reply : List (Request O) → Request O → Option Error
  pub pods : List (Request O) → Bytes → Labels → Result (List Pod)
  pub pod_named : List (Request O) → Bytes → Bytes → Result Pod
  pub deployment_named : List (Request O) → Bytes → Bytes → Result Deployment
  -- deploymentutil.GetNewReplicaSet: the ready replicas of the replica set, which may be nil
  pub new_replica_set : List (Request O) → Deployment → Result (Option Int32)
  -- whether the claim is bound
  pub claim_named : List (Request O) → Bytes → Bytes → Result Bool
  pub service_named : List (Request O) → Bytes → Bytes → Result Service
  -- deploymentutil.MaxUnavailable
  pub max_unavailable : Deployment → Int32
  -- info.Refresh with an object
  pub refresh : Info O → O → Result (Info O)
  -- errors.IsNotFound, errors.IsAlreadyExists, runtime.IsNotRegisteredError
  pub is_not_found : Error → Bool
  pub is_already_exists : Error → Bool
  pub is_not_registered : Error → Bool
  -- metadataAccessor.Annotations: nil with an error
  pub annotations : O → Result (List (Bytes × Bytes))
  -- json.Marshal, jsonpatch.CreateMergePatch, strategicpatch.CreateTwoWayMergePatch
  pub marshal : O → Result Bytes
  pub create_merge_patch : Bytes → Bytes → Result Bytes
  pub create_two_way_merge_patch : Bytes → Bytes → O → Result Bytes
  -- asVersioned: the object, and an error beside it
  pub as_versioned : Info O → O × Option Error
  pub is_unstructured : O → Bool
  pub is_crd : O → Bool
  pub type_of : O → Typed
  -- info.Object.GetObjectKind().GroupVersionKind().Kind
  pub object_kind : O → Bytes
  -- how often wait.Poll tries a condition again until the timeout, in seconds
  pub retries : List (Request O) → Int64 → ℕ
  -- wait.ErrWaitTimeout
  pub err_wait_timeout : Error
  -- fmt.Errorf of a format without operands
  pub errorf : Bytes → Error

abbrev pub Act : Type 0 → Type 0 → Type 0
Act O A = Exec (List (Request O)) A

abbrev pub from_error : Option Error → Result (Unit {0})
from_error none = ok tt
from_error (some e) = err e

module _ {O A : Type 0} where
  -- a request, and its answer
  unfoldable pub ask : (List (Request O) → Result A) → Request O → Act O A
  ask answer q s = (answer s, s ++ q ∷ [])

module _ {O : Type 0} (api : Api O) where
  -- a request that only succeeds or fails
  unfoldable pub tell : Request O → Act O (Unit {0})
  unfolding ask
  tell q = ask (λ s. from_error (api.reply s q)) q

  -- helper.Get
  unfoldable pub get_helper : Info O → Act O O
  unfolding ask
  get_helper i =
      ask (λ s. api.get s i.namespace i.name i.kind) (get_object i.namespace i.name i.kind)

  -- info.Get: the info with the object that is there
  unfoldable pub get_info : Info O → Act O (Info O)
  unfolding get_helper
  get_info i = get_helper i >>= λ obj. pure (record i { object = obj })

  unfoldable pub create_resource : Info O → Act O (Info O)
  unfolding ask
  create_resource i =
      ask (λ s. api.create s i.namespace i.kind i.object)
        (create_object i.namespace i.kind i.object)
      >>= λ obj. lift (api.refresh i obj)

  unfoldable pub delete_resource : Info O → Act O (Unit {0})
  unfolding tell
  delete_resource i = tell (delete_object i.namespace i.name i.kind)

  abbrev pub unless_done : Act O (Unit {0}) → Bool → Act O (Unit {0})
  unless_done again true = pure tt
  unless_done again false = again

  -- wait.Poll: the condition is tried at least once, and again until the timeout
  unfoldable pub poll : ℕ → Act O Bool → Act O (Unit {0})
  poll zero cond = cond >>= λ done. unless_done (raise api.err_wait_timeout) done
  poll (suc n) cond = cond >>= λ done. unless_done (poll n cond) done

-- fmt.Errorf of a text and an error
abbrev pub wrap : {A : Type 0} → Bytes → Result A → Result A
wrap text (ok a) = ok a
wrap text (err e) = err (external (text ++ message e))

abbrev pub wrapping : {O A : Type 0} → Bytes → Act O A → Act O A
wrapping text m s = let (r, s') = m s in (wrap text r, s')
