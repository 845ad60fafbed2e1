-- ===== src/Releasetesting/Tests.antt =====
-- The theorem on release tests, applied to a suite of one test; and a hook of two test events.
use helm.Kube.Watch.{pod_succeeded}
use helm.Common.Words.{is_space}
use helm.Result.Ends.{Ends}
use helm.Result.{ok, ◌>>=◌}
use helm.Release.{release_test_success, release_test_failure, Hook}
use helm.Common.{codes, length, some, ◌∷◌, [], false, ◌≡◌, refl, none}
use helm.Releasetesting.{Environment, test_success, TestRun, test_events, trim_comma}
use helm.Releasetesting.Run.{run_suite}

abbrev world : Environment
world = record {
  namespace = codes "web";
  parallel = false;
  create = λ s m. none;
  phase = λ s m. ok pod_succeeded;
  delete = λ s m. none;
  first_pod = λ s m. ok none;
  logs = λ s name. ok [];
  send = λ s msg status. none;
  now = λ s. length s;
  parse_head = λ m. ok (record {
    version = codes "v1";
    kind = codes "Pod";
    metadata = some (codes "check", (codes "helm.sh/hook", codes "test-success") ∷ []);
  });
  split_manifests = λ m. m ∷ [];
  escape = λ text. text;
}

abbrev passed : TestRun
passed = record {
  name = codes "check";
  status = test_success;
  info = [];
  started_at = some 0;
  completed_at = some 4;
}

suite_passes : (run_suite world (codes "pod" ∷ []) []).0 ≡ ok (passed ∷ [])
unfolding run_suite ◌>>=◌ is_space trim_comma
suite_passes = refl

twice : (h : Hook) → test_events h (release_test_success ∷ release_test_failure ∷ []) ≡ h ∷ h ∷ []
unfolding test_events
twice h = refl
