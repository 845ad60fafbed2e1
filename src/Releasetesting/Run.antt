-- ===== src/Releasetesting/Run.antt =====
-- The run of a test suite in pkg/releasetesting: tests that run in parallel start in the order of
-- the list, and here each ends before the next.
use helm.Kube.Watch.{PodPhase}
use helm.Tiller.Server.{answer}
use helm.Result.{
  Error, external, message, Result, ok, err, bind, pure, raise, lift, attempt, ◌>>=◌, ◌>>◌,
}
use helm.Release.{Hook}
use helm.Common.{if◌then◌else◌, Bytes, codes, Option, ◌∷◌, none, some, List, [], ◌++◌}
use helm.Releasetesting.{
  Act, Environment, Event, TestCase, TestRun, TestStatus, assigned, new_tests, create_pod, wait_pod,
  delete_pod, build_pod, pod_logs, sent, test_unknown, test_success, test_failure, test_running,
}

module _ (env : Environment) where
  -- extractTestManifestsFromHooks
  unfoldable pub extract_test_manifests : List Hook → List Bytes
  extract_test_manifests [] = []
  extract_test_manifests (h ∷ hs) = env.split_manifests h.manifest ++ extract_test_manifests hs

  abbrev pub happens : Event → (List Event → Option Error) → Act (Unit {0})
  happens e reply s = (answer (reply s), s ++ e ∷ [])

  unfoldable pub stream_message : Bytes → TestStatus → Act (Unit {0})
  stream_message msg status = happens (sent msg status) (λ s. env.send s msg status)

  abbrev pub stream_error : Bytes → Act (Unit {0})
  stream_error info = stream_message (codes "ERROR: " ++ info) test_failure

  -- streamResult
  unfoldable pub stream_result : TestRun → Act (Unit {0})
  unfolding stream_message
  stream_result r = elim r.status [
    | test_success ↦ stream_message (codes "PASSED: " ++ r.name) test_success
    | test_failure ↦
        stream_message
          (codes "FAILED: "
            ++ (r.name
                ++ (codes ", run `kubectl logs "
                    ++ (r.name
                        ++ (codes " --namespace " ++ (env.namespace ++ codes "` for more info"))))))
          test_failure
    | _ ↦ stream_message (codes "UNKNOWN: " ++ (r.name ++ (codes ": " ++ r.info))) test_unknown
  ]

  abbrev pub with_status : TestStatus → Bytes → TestRun → TestRun
  with_status status info r = record r { status = status; info = info }

  -- the end of a run: the time, and no error
  abbrev pub completed : TestRun → Act TestRun
  completed r s = (ok (record r { completed_at = some (env.now s) }), s)

  -- the end of a test whose pod was created, after the wait for it
  unfoldable pub conclude : TestCase → TestRun → Result PodPhase → Act TestRun
  unfolding stream_result stream_message
  conclude t r (ok phase) =
      let r' = record r { status = assigned t.expected_success phase } in
      stream_result r' >> completed r'
  conclude t r (err e) =
      stream_error (message e) >> completed (with_status test_unknown (message e) r)

  -- the message of a failed creation; where it cannot be sent, the error of the creation
  abbrev pub not_created : Error → TestRun → Result (Unit {0}) → Act TestRun
  not_created e r (ok _) = completed (with_status test_failure (message e) r)
  not_created e r (err _) = raise e

  -- the run after the creation of the pod
  unfoldable pub after_creation : TestCase → TestRun → Result (Unit {0}) → Act TestRun
  unfolding conclude stream_message
  after_creation t r (ok _) =
      (λ s. (ok (env.phase s t.manifest), s ++ wait_pod t.manifest ∷ [])) >>= λ p. conclude t r p
  after_creation t r (err e) = attempt (stream_error (message e)) >>= λ u. not_created e r u

  -- test.run: the result of the test, unless the stream fails
  unfoldable pub run : TestCase → Act TestRun
  unfolding after_creation stream_message
  run t s =
      let r = record t.result { started_at = some (env.now s) } in
      (stream_message (codes "RUNNING: " ++ r.name) test_running
          >> (attempt (happens (create_pod t.manifest) (λ s. env.create s t.manifest)) >>= λ c.
              after_creation t (record r { status = test_running }) c))
        s

  -- one test after the other, until one fails to be run
  unfoldable pub run_each : List TestCase → Act (List TestRun)
  unfolding run
  run_each [] = pure []
  run_each (t ∷ ts) = run t >>= λ r. run_each ts >>= λ rs. pure (r ∷ rs)

  -- in parallel all are run, and the first error is returned
  unfoldable pub run_parallel : List TestCase → Act (List TestRun)
  unfolding run
  run_parallel [] = pure []
  run_parallel (t ∷ ts) = attempt (run t) >>= λ r.
      attempt (run_parallel ts) >>= λ rs. lift (bind r λ a. bind rs λ as'. ok (a ∷ as'))

  abbrev pub announce : List Bytes → Act (Unit {0})
  announce [] = attempt (stream_message (codes "No Tests Found") test_unknown) >>= λ r. pure tt
  announce (m ∷ ms) = pure tt

  -- TestSuite.Run: the results
  unfoldable pub run_suite : List Bytes → Act (List TestRun)
  unfolding new_tests run_each run_parallel stream_message
  run_suite manifests =
      announce manifests
      >> (lift (new_tests env manifests) >>= λ tests.
          if env.parallel then run_parallel tests else run_each tests)

  abbrev pub report : Result (Unit {0}) → Act (Unit {0})
  report (ok _) = pure tt
  report (err e) = attempt (stream_error (message e)) >>= λ r. pure tt

  -- DeleteTestPods
  unfoldable pub delete_test_pods : List Bytes → Act (Unit {0})
  unfolding stream_message
  delete_test_pods [] = pure tt
  delete_test_pods (m ∷ ms) = attempt (happens (delete_pod m) (λ s. env.delete s m)) >>= λ r.
      report r >> delete_test_pods ms

  abbrev pub send_logs : Bytes → Result Bytes → Act (Unit {0})
  send_logs name (err e) = report (err e)
  send_logs name (ok text) =
      attempt (
        stream_message (codes "\nPOD LOGS: " ++ (name ++ (codes "\n" ++ env.escape text)))
          test_running)
      >>= λ r. pure tt

  abbrev pub logs_of : Result (Option Bytes) → Act (Unit {0})
  logs_of (err e) = report (err e)
  logs_of (ok none) =
      report (err (external (codes "Pod manifest is invalid. Unable to obtain the logs")))
  logs_of (ok (some name)) =
      (λ s. (ok (env.logs s name), s ++ pod_logs name ∷ [])) >>= send_logs name

  -- GetLogs
  unfoldable pub get_logs : List Bytes → Act (Unit {0})
  unfolding stream_message
  get_logs [] = pure tt
  get_logs (m ∷ ms) =
      ((λ s. (ok (env.first_pod s m), s ++ build_pod m ∷ [])) >>= logs_of) >> get_logs ms
