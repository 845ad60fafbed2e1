-- ===== src/Kube/Wait.antt =====
-- pkg/kube/wait.go: the wait until pods, services, claims and deployments are ready; and Create of
-- pkg/kube/client.go, which ends with it.
pub mod Reads
use helm.Common.Text.{eqb}
use helm.Common.Decimal.{Int32, Int64}
use helm.Kube.Perform.{perform, build, ensure_namespace}
use helm.Kube.Api.{
  other, Labels, list_pods, get_pod, get_deployment, get_new_replica_set, get_claim, get_service,
  Typed, replication_controller, pod, apps_v1_deployment, apps_v1beta1_deployment,
  apps_v1beta2_deployment, extensions_deployment, extensions_daemon_set, apps_v1_daemon_set,
  apps_v1beta2_daemon_set, apps_v1_stateful_set, apps_v1beta1_stateful_set,
  apps_v1beta2_stateful_set, extensions_replica_set, apps_v1beta2_replica_set, apps_v1_replica_set,
  batch_job, persistent_volume_claim, service, ConditionStatus, condition_true, Pod, ServiceType,
  load_balancer, external_name, Service, Deployment, Api, Act, from_error, ask, create_resource,
  poll,
}
use helm.Result.{nil_pointer, Result, ok, err, pure, raise, lift, ◌>>=◌, ◌>>◌}
use helm.Kube.Infos.{Info}
use helm.Common.{
  leb, if◌then◌else◌, Bytes, codes, ◌∷◌, Bool, List, ◌++◌, ◌&&◌, not, ◌-◌, [], ◌%◌, Option, some,
  false, ◌+◌, none, true,
}

-- isPodReady
unfoldable pub is_pod_ready : List (Bool × ConditionStatus) → Bool
is_pod_ready [] = false
is_pod_ready ((true, condition_true) ∷ cs) = true
is_pod_ready (c ∷ cs) = is_pod_ready cs

unfoldable pub pods_ready : List Pod → Bool
unfolding is_pod_ready
pods_ready [] = true
pods_ready (p ∷ ps) = is_pod_ready p.conditions && pods_ready ps

abbrev pub is_balanced : ServiceType → Bool → Bool
is_balanced load_balancer ingress = ingress
is_balanced _ ingress = true

-- The test against v1.ClusterIPNone is implied by the one against the empty text.
abbrev pub is_service_ready : Service → Bool
is_service_ready s = elim s.service_type [
  | external_name ↦ true
  | _ ↦
      not (not (eqb s.cluster_ip (codes "None")) && eqb s.cluster_ip [])
      && is_balanced s.service_type s.has_ingress
]

unfoldable pub services_ready : List Service → Bool
unfolding eqb
services_ready [] = true
services_ready (s ∷ ss) = is_service_ready s && services_ready ss

-- whether each claim is bound
unfoldable pub volumes_ready : List Bool → Bool
volumes_ready [] = true
volumes_ready (b ∷ bs) = b && volumes_ready bs

-- `ready >= replicas - unavailable`, of int32 numbers
abbrev pub enough : (ready replicas unavailable : Int32) → Bool
enough ready replicas unavailable =
    leb ((replicas + 4294967296 + 2147483648 - unavailable) % 4294967296) ready

-- What one round of the wait has collected: pods, services, claims, and of the deployments the
-- ready replicas, the wanted ones and those that may be unavailable.
pub record Waited : Type 0 where
  pub pods : List Pod
  pub services : List Service
  pub claims : List Bool
  pub deployments : List (Int32 × Option Int32 × Int32)

unfoldable pub deployments_ready : List (Int32 × Option Int32 × Int32) → Result Bool
deployments_ready [] = ok true
deployments_ready ((ready, none, unavailable) ∷ ds) = err nil_pointer
deployments_ready ((ready, some replicas, unavailable) ∷ ds) =
    elim (enough ready replicas unavailable) [ true ↦ deployments_ready ds | false ↦ ok false ]

unfoldable pub is_ready : Waited → Result Bool
unfolding pods_ready services_ready volumes_ready deployments_ready
is_ready w = elim (pods_ready w.pods && (services_ready w.services && volumes_ready w.claims)) [
  | true ↦ deployments_ready w.deployments
  | false ↦ ok false
]

-- What the switch over one resource comes to: more to wait for, or that the round is over, since
-- a deployment has no replica set yet.
pub data Seen : Type 0 where
  collected : Waited → Seen
  not_ready : Seen

module _ {O : Type 0} (api : Api O) where
  -- getPods
  unfoldable pub get_pods : Bytes → Labels → Act O (List Pod)
  unfolding ask
  get_pods namespace selector =
      ask (λ s. api.pods s namespace selector) (list_pods namespace selector)

  abbrev pub with_pods : Waited → List Pod → Seen
  with_pods w ps = collected (record w { pods = w.pods ++ ps })

  -- the pods of a label selector, which is a pointer
  unfoldable pub selected_pods : Waited → Bytes → Option Labels → Act O Seen
  unfolding get_pods
  selected_pods w namespace none = raise nil_pointer
  selected_pods w namespace (some selector) =
      get_pods namespace selector >>= λ ps. pure (with_pods w ps)

  abbrev pub with_replica_set : Waited → Deployment → Option Int32 → Seen
  with_replica_set w d none = not_ready
  with_replica_set w d (some ready) =
      collected (record w {
        deployments = w.deployments ++ (ready, d.replicas, api.max_unavailable d) ∷ [];
      })

  -- a deployment that is paused is not waited for
  abbrev pub unless_paused : Waited → Deployment → Bytes → Bytes → Bool → Act O Seen
  unless_paused w d namespace name true = pure (collected w)
  unless_paused w d namespace name false =
      ask (λ s. api.new_replica_set s d) (get_new_replica_set namespace name) >>= λ rs.
      pure (with_replica_set w d rs)

  unfoldable pub deployment_of : Waited → Bytes → Bytes → Act O Seen
  unfolding ask
  deployment_of w namespace name =
      ask (λ s. api.deployment_named s namespace name) (get_deployment namespace name) >>= λ d.
      unless_paused w d namespace name d.paused

  -- the switch over the type of a resource
  unfoldable pub observe : Waited → Typed → Act O Seen
  unfolding ask get_pods selected_pods deployment_of
  observe w (replication_controller namespace selector) =
      get_pods namespace selector >>= λ ps. pure (with_pods w ps)
  observe w (pod namespace name) =
      ask (λ s. api.pod_named s namespace name) (get_pod namespace name) >>= λ p.
      pure (with_pods w (p ∷ []))
  observe w (apps_v1_deployment namespace name _) = deployment_of w namespace name
  observe w (apps_v1beta1_deployment namespace name _) = deployment_of w namespace name
  observe w (apps_v1beta2_deployment namespace name _) = deployment_of w namespace name
  observe w (extensions_deployment namespace name _) = deployment_of w namespace name
  observe w (extensions_daemon_set namespace selector) = selected_pods w namespace selector
  observe w (apps_v1_daemon_set namespace selector) = selected_pods w namespace selector
  observe w (apps_v1beta2_daemon_set namespace selector) = selected_pods w namespace selector
  observe w (apps_v1_stateful_set namespace selector) = selected_pods w namespace selector
  observe w (apps_v1beta1_stateful_set namespace selector) = selected_pods w namespace selector
  observe w (apps_v1beta2_stateful_set namespace selector) = selected_pods w namespace selector
  observe w (extensions_replica_set namespace selector) = selected_pods w namespace selector
  observe w (apps_v1beta2_replica_set namespace selector) = selected_pods w namespace selector
  observe w (apps_v1_replica_set namespace selector) = selected_pods w namespace selector
  observe w (persistent_volume_claim namespace name) =
      ask (λ s. api.claim_named s namespace name) (get_claim namespace name) >>= λ bound.
      pure (collected (record w { claims = w.claims ++ bound ∷ [] }))
  observe w (service namespace name) =
      ask (λ s. api.service_named s namespace name) (get_service namespace name) >>= λ svc.
      pure (collected (record w { services = w.services ++ svc ∷ [] }))
  observe w (batch_job _) = pure (collected w)
  observe w other = pure (collected w)

  abbrev pub go_on : (Waited → Act O Bool) → Seen → Act O Bool
  go_on next (collected w) = next w
  go_on next not_ready = pure false

  -- one round: the condition of the poll
  unfoldable pub wait_round : List (Info O) → Waited → Act O Bool
  unfolding observe is_ready
  wait_round [] w = lift (is_ready w)
  wait_round (i ∷ is) w =
      observe w (api.type_of (api.as_versioned i).0) >>= λ seen. go_on (wait_round is) seen

  abbrev pub none_waited : Waited
  none_waited = record { pods = []; services = []; claims = []; deployments = [] }

  -- waitForResources
  unfoldable pub wait_for_resources : Int64 → List (Info O) → Act O (Unit {0})
  unfolding poll wait_round
  wait_for_resources timeout created s =
      (lift (from_error (api.kubernetes_client_set s))
          >> poll api (api.retries s timeout) (wait_round created none_waited))
        s

  -- Client.Create
  unfoldable pub create : Bytes → Bytes → Int64 → Bool → Act O (Unit {0})
  unfolding ensure_namespace perform create_resource wait_for_resources
  create namespace manifest timeout should_wait s =
      (lift (from_error (api.kubernetes_client_set s))
          >> (ensure_namespace api namespace
              >> (build api namespace manifest >>= λ infos.
                  perform api (create_resource api) infos >>= λ created.
                  if should_wait then wait_for_resources timeout created else pure tt)))
        s
