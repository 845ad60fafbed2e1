-- ===== src/Releasetesting.antt =====
-- pkg/releasetesting and FilterTestHooks of pkg/hooks/hooks.go: the tests of a release, its hooks
-- and their environment. What is done is kept as a list of events, and every answer may depend on
-- the events before it.

pub mod Run
pub mod Passed
mod Tests
use helm.Kube.Watch.{PodPhase, pod_succeeded, pod_failed}
use helm.Tiller.Server.{answer}
use helm.Common.Text.{eqb}
use helm.Common.Words.{trim_space, to_lower, split1}
use helm.Tiller.SortManifests.{SimpleHead, hook_anno, or_empty}
use helm.Result.{
  Error, nil_pointer, external, message, Result, ok, err, bind, Exec, pure, raise, lift, attempt,
  ◌>>=◌, ◌>>◌,
}
use helm.Release.{Timestamp, HookEvent, release_test_success, release_test_failure, event_eq, Hook}
use helm.Tiller.Hooks.{named}
use helm.Common.{
  ◌||◌, ◌==◌, if◌then◌else◌, Bytes, codes, not, Bool, Option, ◌∷◌, none, true, some, List, [],
  false, ◌++◌,
}

-- release.TestRun_Status
pub data TestStatus : Type 0 where
  test_unknown test_success test_failure test_running : TestStatus

-- release.TestRun
pub record TestRun : Type 0 where
  pub name : Bytes
  pub status : TestStatus
  pub info : Bytes
  pub started_at : Option Timestamp
  pub completed_at : Option Timestamp

-- The calls of the cluster and the messages on the stream.
pub data Event : Type 0 where
  create_pod wait_pod delete_pod build_pod : (manifest : Bytes) → Event
  pod_logs : (name : Bytes) → Event
  sent : (msg : Bytes) → TestStatus → Event

-- Environment, with the world behind it
pub record Environment : Type 0 where
  pub namespace : Bytes
  pub parallel : Bool
  -- KubeClient.Create, WaitAndGetCompletedPodPhase, Delete, and Build with the name of the first pod
  pub create : List Event → Bytes → Option Error
  pub phase : List Event → Bytes → Result PodPhase
  pub delete : List Event → Bytes → Option Error
  pub first_pod : List Event → Bytes → Result (Option Bytes)
  -- GetPodLogs and the reading of the stream
  pub logs : List Event → Bytes → Result Bytes
  pub send : List Event → Bytes → TestStatus → Option Error
  -- timeconv.Now
  pub now : List Event → Timestamp
  -- yaml.Unmarshal of a manifest's head, releaseutil.SplitManifests, and the escaping of logs
  pub parse_head : Bytes → Result SimpleHead
  pub split_manifests : Bytes → List Bytes
  pub escape : Bytes → Bytes

-- test
pub record TestCase : Type 0 where
  pub manifest : Bytes
  pub expected_success : Bool
  pub result : TestRun

abbrev pub Act : Type 0 → Type 0
Act A = Exec (List Event) A

abbrev pub is_test_event : HookEvent → Bool
is_test_event e = event_eq e release_test_success || event_eq e release_test_failure

-- A hook is taken once for each of its events that is a test.
unfoldable pub test_events : Hook → List HookEvent → List Hook
test_events h [] = []
test_events h (e ∷ es) = let rest = test_events h es in if is_test_event e then h ∷ rest else rest

-- FilterTestHooks
unfoldable pub filter_test_hooks : List Hook → List Hook
unfolding test_events
filter_test_hooks [] = []
filter_test_hooks (h ∷ hs) = test_events h h.events ++ filter_test_hooks hs

-- expectedSuccess
unfoldable pub expected_success : List Bytes → Result Bool
unfolding to_lower trim_space eqb
expected_success [] = err (external (codes "No test-success or test-failure hook found"))
expected_success (t ∷ ts) =
    let hook = to_lower (trim_space t) in
    let rest = expected_success ts in
    if eqb hook (codes "test-success")
    then ok true
    else (if eqb hook (codes "test-failure") then ok false else rest)

-- strings.TrimSuffix(s, ",")
unfoldable pub trim_comma : Bytes → Bytes
trim_comma [] = []
trim_comma (c ∷ []) = if c == b',' then [] else c ∷ []
trim_comma (c ∷ d ∷ s) = c ∷ trim_comma (d ∷ s)

abbrev pub test_of : Bytes → Bytes → Bool → TestCase
test_of manifest name expected = record {
  manifest = manifest;
  expected_success = expected;
  result = record {
    name = trim_comma name;
    status = test_unknown;
    info = [];
    started_at = none;
    completed_at = none;
  };
}

-- the test of a head with metadata, which is a pointer
unfoldable pub test_of_head :
    Bytes → Bytes → Option (Bytes × List (Bytes × Bytes)) → Result TestCase
unfolding eqb expected_success split1 named
test_of_head manifest kind none = err nil_pointer
test_of_head manifest kind (some (name, annotations)) =
    if not (eqb kind (codes "Pod"))
    then err (external (name ++ codes " is not a pod"))
    else bind (expected_success (split1 b',' (or_empty (named hook_anno annotations))))
        λ e. ok (test_of manifest name e)

-- assignTestResult
abbrev pub assigned : Bool → PodPhase → TestStatus
assigned true pod_succeeded = test_success
assigned false pod_succeeded = test_failure
assigned false pod_failed = test_success
assigned true pod_failed = test_failure
assigned expected _ = test_unknown

module _ (env : Environment) where
  -- newTest
  unfoldable pub new_test : Bytes → Result TestCase
  unfolding test_of_head
  new_test manifest = bind (env.parse_head manifest) λ sh. test_of_head manifest sh.kind sh.metadata

  unfoldable pub new_tests : List Bytes → Result (List TestCase)
  unfolding new_test
  new_tests [] = ok []
  new_tests (m ∷ ms) = let rest = new_tests ms in bind (new_test m) λ t. bind rest λ ts. ok (t ∷ ts)
