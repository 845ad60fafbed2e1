-- ===== src/Kube/Watch.antt =====
-- The watches of pkg/kube/client.go: hooks until they are ready, pods until they are complete, and
-- the poll of a custom resource definition. The events that a watch sees until its timeout are a
-- parameter, and so is what the API machinery reads of an object.
pub mod Ready
use helm.Common.Text.{eqb}
use helm.Common.Decimal.{Int64}
use helm.Kube.Perform.{perform, build}
use helm.Kube.Api.{
  Act, Request, watch_objects, ConditionStatus, condition_true, condition_false, Api, from_error,
  get_info, poll, wrap, wrapping,
}
use helm.Result.{Error, external, Result, ok, err, bind, pure, raise, lift, ◌>>=◌, ◌>>◌}
use helm.Common.{
  if◌then◌else◌, Bytes, codes, List, ◌∷◌, inl, ◌⊎◌, true, Option, ◌++◌, inr, [], not, false, Bool,
}
use helm.Kube.Infos.{Info}

-- watch.Event
pub data WatchEvent (O : Type 0) : Type 0 where
  added modified deleted : O → WatchEvent O
  error_event other_event : O → WatchEvent O

-- batch.JobConditionType
pub data JobCondition : Type 0 where
  job_complete job_failed other_condition : JobCondition

-- apiextensions.CustomResourceDefinitionConditionType
pub data CrdCondition : Type 0 where
  established names_accepted other_crd_condition : CrdCondition

-- v1.PodPhase
pub data PodPhase : Type 0 where
  pod_pending pod_running pod_succeeded pod_failed pod_unknown : PodPhase

pub record Watches (O : Type 0) : Type 0 where
  -- the events of a watch on one object until the timeout in seconds
  pub events : List (Request O) → Info O → Int64 → List (WatchEvent O)
  -- fields.ParseSelector of a name
  pub selector_error : Bytes → Option Error
  -- scheme.Scheme.Convert to a job: the type, the status and the reason of each condition
  pub job_conditions : O → Result (List (JobCondition × ConditionStatus × Bytes))
  -- the name and the conditions of a custom resource definition
  pub crd_conditions : O → Result (Bytes × List (CrdCondition × ConditionStatus))
  -- the phase of a pod, or the name of another type
  pub pod_phase : O → PodPhase ⊎ Bytes

-- watchtools.ListWatchUntil, on the events that come: until the condition holds or fails
unfoldable pub until :
    {O : Type 0} → Error → (WatchEvent O → Result Bool) → List (WatchEvent O) → Result (Unit {0})
until timed_out cond [] = err timed_out
until timed_out cond (e ∷ es) =
    let rest = until timed_out cond es in bind (cond e) λ done. if done then ok tt else rest

-- the loop of waitForJob
unfoldable pub job_state : List (JobCondition × ConditionStatus × Bytes) → Result Bool
job_state [] = ok false
job_state ((job_complete, condition_true, reason) ∷ cs) = ok true
job_state ((job_failed, condition_true, reason) ∷ cs) =
    err (external (codes "Job failed: " ++ reason))
job_state (c ∷ cs) = job_state cs

-- the loop of pollCRDUntilEstablished
unfoldable pub crd_state : Bytes → List (CrdCondition × ConditionStatus) → Result Bool
crd_state name [] = ok false
crd_state name ((established, condition_true) ∷ cs) = ok true
crd_state name ((names_accepted, condition_false) ∷ cs) =
    err (external (codes "naming conflict detected for CRD " ++ name))
crd_state name (c ∷ cs) = crd_state name cs

module _ {O : Type 0} (api : Api O) (watches : Watches O) where
  -- waitForJob
  unfoldable pub wait_for_job : O → Result Bool
  unfolding job_state
  wait_for_job obj = bind (watches.job_conditions obj) job_state

  abbrev pub ready_object : Bool → O → Result Bool
  ready_object true obj = wait_for_job obj
  ready_object false obj = ok true

  -- the condition of watchUntilReady
  unfoldable pub is_ready_event : Info O → WatchEvent O → Result Bool
  unfolding wait_for_job eqb
  is_ready_event info (added obj) = ready_object (eqb info.kind (codes "Job")) obj
  is_ready_event info (modified obj) = ready_object (eqb info.kind (codes "Job")) obj
  is_ready_event info (deleted obj) = ok true
  is_ready_event info (error_event obj) = err (external (codes "Failed to deploy " ++ info.name))
  is_ready_event info (other_event obj) = ok false

  abbrev pub watch : (WatchEvent O → Result Bool) → Int64 → Info O → Act O (Unit {0})
  watch cond timeout info s = (
    until api.err_wait_timeout cond (watches.events s info timeout),
    s ++ watch_objects info.namespace info.name info.kind ∷ [],
  )

  -- watchUntilReady
  unfoldable pub watch_info_until_ready : Int64 → Info O → Act O (Unit {0})
  unfolding until is_ready_event
  watch_info_until_ready timeout info =
      lift (from_error (watches.selector_error info.name))
      >> watch (is_ready_event info) timeout info

  -- Client.WatchUntilReady
  unfoldable pub watch_until_ready : Bytes → Bytes → Int64 → Bool → Act O (Unit {0})
  unfolding perform watch_info_until_ready
  watch_until_ready namespace manifest timeout should_wait =
      build api namespace manifest >>= λ infos.
      perform api (watch_info_until_ready timeout) infos >>= λ us. pure tt

  abbrev pub crd_of : Info O → Result Bool
  crd_of info =
      bind (wrap (codes "unable to convert to CRD type: ") (watches.crd_conditions info.object))
        λ c. crd_state c.0 c.1

  -- pollCRDUntilEstablished
  unfoldable pub poll_crd_until_established : Int64 → Info O → Act O (Unit {0})
  unfolding poll get_info crd_state
  poll_crd_until_established timeout info s =
      poll api (api.retries s timeout)
        (wrapping (codes "unable to get CRD: ") (get_info api info) >>= λ i. lift (crd_of i)) s

  -- Client.WaitUntilCRDEstablished, in all namespaces
  unfoldable pub wait_until_crd_established : Bytes → Int64 → Act O (Unit {0})
  unfolding perform poll_crd_until_established
  wait_until_crd_established manifest timeout = build api [] manifest >>= λ infos.
      perform api (poll_crd_until_established timeout) infos >>= λ us. pure tt

  abbrev pub complete : PodPhase → Bool
  complete pod_failed = true
  complete pod_succeeded = true
  complete _ = false

  abbrev pub object_of : WatchEvent O → O
  object_of (added obj) = obj
  object_of (modified obj) = obj
  object_of (deleted obj) = obj
  object_of (error_event obj) = obj
  object_of (other_event obj) = obj

  abbrev pub complete_unless_deleted : WatchEvent O → PodPhase → Result Bool
  complete_unless_deleted (deleted _) phase = err (external (codes "pod not found"))
  complete_unless_deleted _ phase = ok (complete phase)

  abbrev pub complete_pod : WatchEvent O → PodPhase ⊎ Bytes → Result Bool
  complete_pod e (inl phase) = complete_unless_deleted e phase
  complete_pod e (inr type) = err (external (codes "expected a *v1.Pod, got " ++ type))

  -- isPodComplete
  unfoldable pub is_pod_complete : WatchEvent O → Result Bool
  is_pod_complete e = complete_pod e (watches.pod_phase (object_of e))

  abbrev pub phase_of : Info O → Result PodPhase
  phase_of info = elim (watches.pod_phase info.object) [
    | inl phase ↦ ok phase
    | inr type ↦ err (external (codes "interface conversion: runtime.Object is " ++ type))
  ]

  -- WaitAndGetCompletedPodPhase for the resources that were built; none is a panic
  unfoldable pub completed_phase : Int64 → List (Info O) → Act O PodPhase
  unfolding until is_pod_complete get_info eqb
  completed_phase timeout [] = raise (external (codes "runtime error: index out of range"))
  completed_phase timeout (info ∷ is) =
      if not (eqb info.kind (codes "Pod"))
      then raise (external (info.name ++ codes " is not a Pod"))
      else watch is_pod_complete timeout info >> (get_info api info >>= λ i. lift (phase_of i))

  -- Client.WaitAndGetCompletedPodPhase
  unfoldable pub wait_and_get_completed_pod_phase : Bytes → Bytes → Int64 → Act O PodPhase
  unfolding completed_phase
  wait_and_get_completed_pod_phase namespace manifest timeout =
      build api namespace manifest >>= completed_phase timeout
