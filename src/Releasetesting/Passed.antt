-- ===== src/Releasetesting/Passed.antt =====
-- The results of the tests of a release in pkg/releasetesting.
use helm.Kube.Watch.{PodPhase, pod_succeeded, pod_failed}
use helm.Result.Ends.{Ends}
use helm.Result.{Result, ok, err}
use helm.Common.{◌++◌, Bytes, true, Bool, List, false, none, ◌≡◌, [], ◌∷◌}
use helm.Releasetesting.{create_pod, test_success, TestRun, Event, Environment, TestCase, new_test}

-- the phase in which the pod of a test ends when the test passes
abbrev pub wanted : Bool → PodPhase
wanted true = pod_succeeded
wanted false = pod_failed

module _ (env : Environment) where
  -- After some history the pod is created, and right after that seen in the phase.
  abbrev pub SeenIn : PodPhase → Bytes → Type 0
  SeenIn phase m =
      (h : List Event) × (env.create h m ≡ none) × (env.phase (h ++ create_pod m ∷ []) m ≡ ok phase)

  -- Of a test: the result has its name, and is a success only where the pod was created and then
  -- seen in the phase that the test expects.
  abbrev pub IsResultOf : TestCase → TestRun → Type 0
  IsResultOf t r =
      (r.name ≡ t.result.name)
      × (r.status ≡ test_success → SeenIn (wanted t.expected_success) t.manifest)

  abbrev Concludes : TestCase → Result TestRun × List Event → Type 0
  Concludes t = Ends (λ r _. IsResultOf t r)

  abbrev pub AllResultOf : List TestCase → List TestRun → Type 0
  AllResultOf [] [] = Unit
  AllResultOf (t ∷ ts) (r ∷ rs) = IsResultOf t r × AllResultOf ts rs
  AllResultOf _ _ = ⊥

  abbrev Good : {A : Type 0} → (A → Type 0) → Result A → Type 0
  Good P (ok a) = P a
  Good P (err e) = Unit

  -- the tests of the manifests, in order
  abbrev pub AllTestOf : List Bytes → List TestCase → Type 0
  AllTestOf [] [] = Unit
  AllTestOf (m ∷ ms) (t ∷ ts) = (t.manifest ≡ m) × (new_test env m ≡ ok t) × AllTestOf ms ts
  AllTestOf _ _ = ⊥
