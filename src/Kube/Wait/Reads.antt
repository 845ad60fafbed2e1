-- ===== src/Kube/Wait/Reads.antt =====
-- The requests of the wait in pkg/kube/wait.go.
use helm.Common.Decimal.{Int64}
use helm.Kube.Requests.{is_read, Made-none, Runs, Holds-any, >>=-Runs, lift-Runs, ask-Runs}
use helm.Kube.Api.{
  other, Labels, Request, Typed, replication_controller, pod, apps_v1_deployment,
  apps_v1beta1_deployment, apps_v1beta2_deployment, extensions_deployment, extensions_daemon_set,
  apps_v1_daemon_set, apps_v1beta2_daemon_set, apps_v1_stateful_set, apps_v1beta1_stateful_set,
  apps_v1beta2_stateful_set, extensions_replica_set, apps_v1beta2_replica_set, apps_v1_replica_set,
  batch_job, persistent_volume_claim, service, Deployment, Api, Act, ask, poll, unless_done,
}
use helm.Result.{Result, ok, pure, ◌>>=◌}
use helm.Common.{
  Bytes, some, refl, Option, suc, ◌∷◌, Bool, true, List, ℕ, false, [], ◌≡◌, none, zero, ◌++◌,
}
use helm.Kube.Infos.{Info}
use helm.Kube.Wait.{
  observe, Waited, collected, not_ready, get_pods, with_pods, selected_pods, with_replica_set,
  deployment_of, wait_round, none_waited, wait_for_resources, unless_paused, go_on,
}

module _ {O : Type 0} (api : Api O) (P : Request O → Type 0)
    (reads : (q : Request O) → is_read q ≡ true → P q) where
  abbrev Quiet : {A : Type 0} → List (Request O) → Result A × List (Request O) → Type 0
  Quiet = Runs P (λ _. Unit {0})

  pub read-Runs :
      {A : Type 0} (answer : List (Request O) → Result A) (q : Request O) (s : List (Request O))
      → is_read q ≡ true
      → Quiet s (ask answer q s)
  read-Runs answer q s h = ask-Runs P answer q s (reads q h)

  then_pure :
      {A B : Type 0} (m : Act O A) (f : A → B) (s : List (Request O))
      → Quiet s (m s)
      → Quiet s ((m >>= λ a. pure (f a)) s)
  then_pure m f s h =
      >>=-Runs P (λ _. Unit {0}) (λ _. Unit {0}) m (λ a. pure (f a)) s h
        λ a t _. lift-Runs P (λ _. Unit {0}) (ok (f a)) t tt

  selected_pods-Runs :
      (w : Waited) (namespace : Bytes) (selector : Option Labels) (s : List (Request O))
      → Quiet s (selected_pods api w namespace selector s)
  unfolding selected_pods get_pods is_read
  selected_pods-Runs w namespace none s = (Made-none P s, tt)
  selected_pods-Runs w namespace (some selector) s =
      then_pure (get_pods api namespace selector) (λ ps. with_pods api w ps) s
        (read-Runs (λ s. api.pods s namespace selector) _ s refl)

  unless_paused-Runs :
      (w : Waited) (d : Deployment) (namespace name : Bytes) (paused : Bool) (s : List (Request O))
      → Quiet s (unless_paused api w d namespace name paused s)
  unfolding is_read
  unless_paused-Runs w d namespace name true s = (Made-none P s, tt)
  unless_paused-Runs w d namespace name false s =
      then_pure _ (λ rs. with_replica_set api w d rs) s
        (read-Runs (λ s. api.new_replica_set s d) _ s refl)

  deployment_of-Runs :
      (w : Waited) (namespace name : Bytes) (s : List (Request O))
      → Quiet s (deployment_of api w namespace name s)
  unfolding deployment_of is_read
  deployment_of-Runs w namespace name s =
      >>=-Runs P (λ _. Unit {0}) (λ _. Unit {0}) _ _ s
        (read-Runs (λ s. api.deployment_named s namespace name) _ s refl)
        λ d t _. unless_paused-Runs w d namespace name d.paused t

  observe-Runs : (w : Waited) (x : Typed) (s : List (Request O)) → Quiet s (observe api w x s)
  unfolding observe get_pods is_read
  observe-Runs w (replication_controller namespace selector) s =
      then_pure (get_pods api namespace selector) (λ ps. with_pods api w ps) s
        (read-Runs (λ s. api.pods s namespace selector) _ s refl)
  observe-Runs w (pod namespace name) s =
      then_pure _ (λ p. with_pods api w (p ∷ [])) s
        (read-Runs (λ s. api.pod_named s namespace name) _ s refl)
  observe-Runs w (apps_v1_deployment n m _) s = deployment_of-Runs w n m s
  observe-Runs w (apps_v1beta1_deployment n m _) s = deployment_of-Runs w n m s
  observe-Runs w (apps_v1beta2_deployment n m _) s = deployment_of-Runs w n m s
  observe-Runs w (extensions_deployment n m _) s = deployment_of-Runs w n m s
  observe-Runs w (extensions_daemon_set n l) s = selected_pods-Runs w n l s
  observe-Runs w (apps_v1_daemon_set n l) s = selected_pods-Runs w n l s
  observe-Runs w (apps_v1beta2_daemon_set n l) s = selected_pods-Runs w n l s
  observe-Runs w (apps_v1_stateful_set n l) s = selected_pods-Runs w n l s
  observe-Runs w (apps_v1beta1_stateful_set n l) s = selected_pods-Runs w n l s
  observe-Runs w (apps_v1beta2_stateful_set n l) s = selected_pods-Runs w n l s
  observe-Runs w (extensions_replica_set n l) s = selected_pods-Runs w n l s
  observe-Runs w (apps_v1beta2_replica_set n l) s = selected_pods-Runs w n l s
  observe-Runs w (apps_v1_replica_set n l) s = selected_pods-Runs w n l s
  observe-Runs w (persistent_volume_claim n m) s =
      then_pure _ (λ bound. collected (record w { claims = w.claims ++ bound ∷ [] })) s
        (read-Runs (λ s. api.claim_named s n m) _ s refl)
  observe-Runs w (service n m) s =
      then_pure _ (λ svc. collected (record w { services = w.services ++ svc ∷ [] })) s
        (read-Runs (λ s. api.service_named s n m) _ s refl)
  observe-Runs w (batch_job _) s = (Made-none P s, tt)
  observe-Runs w other s = (Made-none P s, tt)

  wait_round-Runs :
      (is : List (Info O)) (w : Waited) (s : List (Request O)) → Quiet s (wait_round api is w s)
  unfolding wait_round
  wait_round-Runs [] w s = lift-Runs P (λ _. Unit {0}) _ s (Holds-any P _)
  wait_round-Runs (i ∷ is) w s =
      >>=-Runs P (λ _. Unit {0}) (λ _. Unit {0}) _ _ s (observe-Runs w _ s)
        λ seen t _. elim seen as (λ x. Quiet t (go_on api (wait_round api is) x t)) [
          | collected v ↦ wait_round-Runs is v t
          | not_ready ↦ (Made-none P t, tt)
        ]

  unless_done-Runs :
      (again : Act O (Unit {0})) (done : Bool) (s : List (Request O))
      → Quiet s (again s)
      → Quiet s (unless_done api again done s)
  unless_done-Runs again true s h = (Made-none P s, tt)
  unless_done-Runs again false s h = h

  pub poll-Runs :
      (n : ℕ) (cond : Act O Bool) (s : List (Request O))
      → ((t : List (Request O)) → Quiet t (cond t))
      → Quiet s (poll api n cond s)
  unfolding poll
  poll-Runs zero cond s h =
      >>=-Runs P (λ _. Unit {0}) (λ _. Unit {0}) cond _ s (h s)
        λ b t _. unless_done-Runs _ b t (Made-none P t, tt)
  poll-Runs (suc n) cond s h =
      >>=-Runs P (λ _. Unit {0}) (λ _. Unit {0}) cond _ s (h s)
        λ b t _. unless_done-Runs _ b t (poll-Runs n cond t h)

  pub wait_for_resources-Runs :
      (timeout : Int64) (created : List (Info O)) (s : List (Request O))
      → Quiet s (wait_for_resources api timeout created s)
  unfolding wait_for_resources
  wait_for_resources-Runs timeout created s =
      >>=-Runs P (λ _. Unit {0}) (λ _. Unit {0}) _ _ s
        (lift-Runs P (λ _. Unit {0}) _ s (Holds-any P _))
        λ _ t _. poll-Runs _ _ t (λ u. wait_round-Runs created (none_waited api) u)
