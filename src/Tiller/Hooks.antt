-- ===== src/Tiller/Hooks.antt =====
-- The hooks of a release: `events` and `deletePolices` of pkg/tiller/hooks.go,
-- pkg/tiller/hook_sorter.go, and execHook of pkg/tiller/release_server.go.
pub mod Frame
pub mod Stamped
pub mod Script
pub mod Weight
use helm.Common.{
  ℕ, zero, suc, ◌+◌, Bytes, codes, Bool, true, false, ltb, ◌==◌, if◌then◌else◌, not, Option, none,
  some, List, [], ◌∷◌, map,
}
use helm.Common.Text.{eqb, lessb}
use helm.Common.Sort.{sort}
use helm.Common.Decimal.{Int64, int64}
use helm.Release.{
  Release, Hook, HookEvent, DeletePolicy, Timestamp, event_eq, policy_eq, pre_install, post_install,
  pre_delete, post_delete, pre_upgrade, post_upgrade, pre_rollback, post_rollback,
  release_test_success, release_test_failure, crd_install, on_succeeded, on_failed, before_creation,
}
use helm.Result.{Result, ok, err, Exec, pure, raise, attempt, unknown_hook, ◌>>=◌, ◌>>◌}
use helm.Storage.Driver.{Driver}
use helm.Tiller.Server.{
  Env, Server, Action, kube, current_time, kube_create, kube_delete_with_timeout,
  kube_watch_until_ready, kube_wait_until_crd_established,
}

-- The hook types of pkg/hooks, by their names.
abbrev pub event_names : List (Bytes × HookEvent)
event_names =
    (codes "pre-install", pre_install)
    ∷ (codes "post-install", post_install)
    ∷ (codes "pre-delete", pre_delete)
    ∷ (codes "post-delete", post_delete)
    ∷ (codes "pre-upgrade", pre_upgrade)
    ∷ (codes "post-upgrade", post_upgrade)
    ∷ (codes "pre-rollback", pre_rollback)
    ∷ (codes "post-rollback", post_rollback)
    ∷ (codes "test-success", release_test_success)
    ∷ (codes "test-failure", release_test_failure)
    ∷ (codes "crd-install", crd_install)
    ∷ []

abbrev pub policy_names : List (Bytes × DeletePolicy)
policy_names =
    (codes "hook-succeeded", on_succeeded)
    ∷ (codes "hook-failed", on_failed)
    ∷ (codes "before-hook-creation", before_creation)
    ∷ []

unfoldable pub named : {A : Type 0} → Bytes → List (Bytes × A) → Option A
unfolding eqb
named k [] = none
named k ((j, a) ∷ l) = if eqb j k then some a else named k l

has_policy : DeletePolicy → List DeletePolicy → Bool
has_policy dp [] = false
has_policy dp (v ∷ vs) = if policy_eq dp v then true else has_policy dp vs

-- hookHasDeletePolicy
unfoldable pub hook_has_delete_policy : Hook → Bytes → Bool
unfolding named has_policy
hook_has_delete_policy h policy = elim (named policy policy_names) [
  | none ↦ false
  | some dp ↦ has_policy dp h.delete_policies
]

-- A hook of a release, with its place in the release's list: `execHook` holds pointers to hooks.
abbrev pub Placed : Type 0
Placed = ℕ × Hook

-- hookWeightSorter.Less
abbrev pub less_weight : Placed → Placed → Bool
less_weight (_, h) (_, k) =
    if h.weight == k.weight then lessb h.name k.name else ltb h.weight k.weight

unfoldable pub sort_by_hook_weight : List Placed → List Placed
unfolding sort
sort_by_hook_weight = sort less_weight

for_events : HookEvent → Placed → List HookEvent → List Placed → List Placed
for_events code h [] rest = rest
for_events code h (e ∷ es) rest =
    if event_eq e code then h ∷ for_events code h es rest else for_events code h es rest

-- The hooks that fire on an event: one for each time that the hook names it.
unfoldable pub executing : HookEvent → ℕ → List Hook → List Placed
unfolding for_events
executing code i [] = []
executing code i (h ∷ hs) = for_events code (i, h) h.events (executing code (suc i) hs)

-- `h.LastRun = now`, of the hook at a place
unfoldable pub stamp : ℕ → Timestamp → List Hook → List Hook
stamp i now [] = []
stamp zero now (h ∷ hs) = record h { last_run = some now } ∷ hs
stamp (suc i) now (h ∷ hs) = h ∷ stamp i now hs

module _ (D : Driver) (env : Env) where
  -- deleteHookByPolicy
  unfoldable pub delete_hook_by_policy : Bytes → Hook → Bytes → Action D (Unit {0})
  unfolding kube hook_has_delete_policy
  delete_hook_by_policy namespace h policy =
      if hook_has_delete_policy h policy
      then kube D env (
          kube_delete_with_timeout namespace h.manifest h.delete_timeout
            (ltb (int64 0) h.delete_timeout))
      else pure tt

  abbrev pub after_wait : Bytes → Hook → Result (Unit {0}) → Action D (Unit {0})
  after_wait namespace h (ok _) = pure tt
  after_wait namespace h (err e) =
      delete_hook_by_policy namespace h (codes "hook-failed") >> raise e

  -- the wait for a hook that was created: a failure may delete the hook by policy
  unfoldable pub await_hook : Bytes → Bool → Int64 → Hook → Action D (Unit {0})
  unfolding kube delete_hook_by_policy
  await_hook namespace crd timeout h =
      if crd
      then kube D env (kube_wait_until_crd_established h.manifest timeout)
      else attempt (kube D env (kube_watch_until_ready namespace h.manifest timeout false))
        >>= after_wait namespace h

  -- one round of the first loop of execHook, where `crd` says that the hook is crd-install
  unfoldable pub run_hook : Bytes → Bool → Int64 → Hook → Action D (Unit {0})
  unfolding kube delete_hook_by_policy await_hook
  run_hook namespace crd timeout h = do
    delete_hook_by_policy namespace h (codes "before-hook-creation")
    kube D env (kube_create namespace h.manifest timeout false)
    await_hook namespace crd timeout h

  unfoldable pub run_hooks : Bytes → Bool → Int64 → List Placed → Action D (Unit {0})
  unfolding run_hook
  run_hooks namespace crd timeout [] = pure tt
  run_hooks namespace crd timeout ((_, h) ∷ hs) =
      run_hook namespace crd timeout h >> run_hooks namespace crd timeout hs

  -- the rest of a round of the second loop, behind the deletion by policy
  abbrev pub stamp_deleted :
      ℕ
      → List Hook
      → (List Hook → Action D (Result (Unit {0}) × List Hook))
      → Result (Unit {0})
      → Action D (Result (Unit {0}) × List Hook)
  stamp_deleted i hooks go_on (err e) = pure (err e, hooks)
  stamp_deleted i hooks go_on (ok _) = do now ← current_time D env; go_on (stamp i now hooks)

  -- The second loop: hooks that ran are deleted by policy and stamped. It returns the release's
  -- hooks, stamped as far as it came.
  unfoldable pub finish_hooks :
      Bytes → List Placed → List Hook → Action D (Result (Unit {0}) × List Hook)
  unfolding delete_hook_by_policy
  finish_hooks namespace [] hooks = pure (ok tt, hooks)
  finish_hooks namespace ((i, h) ∷ hs) hooks =
      attempt (delete_hook_by_policy namespace h (codes "hook-succeeded"))
      >>= stamp_deleted i hooks (finish_hooks namespace hs)

  abbrev pub hooks_ran :
      Release → List Placed → Result (Unit {0}) → Action D (Result (Unit {0}) × Release)
  hooks_ran r hs (err e) = pure (err e, r)
  hooks_ran r hs (ok _) = do
    done ← finish_hooks r.namespace hs r.hooks
    pure (done.0, record r { hooks = done.1 })

  unfoldable pub exec_event :
      Release → Bytes → Int64 → Option HookEvent → Action D (Result (Unit {0}) × Release)
  unfolding run_hooks finish_hooks sort_by_hook_weight executing
  exec_event r hook timeout none = pure (err (unknown_hook hook), r)
  exec_event r hook timeout (some code) = do
    let hs = sort_by_hook_weight (executing code 0 r.hooks)
    ran ← attempt (run_hooks r.namespace (eqb hook (codes "crd-install")) timeout hs)
    hooks_ran r hs ran

  -- execHook, on the hooks of a release: its error, and the release with the hooks stamped
  unfoldable pub exec_hook : Release → Bytes → Int64 → Action D (Result (Unit {0}) × Release)
  unfolding exec_event named
  exec_hook r hook timeout = exec_event r hook timeout (named hook event_names)

  -- `if !req.DisableHooks { … }`
  abbrev pub hooks_unless : Bool → Release → Bytes → Int64 → Action D (Result (Unit {0}) × Release)
  hooks_unless disabled r hook timeout =
      if disabled then pure (ok tt, r) else exec_hook r hook timeout

  -- where an error of the hooks ends the operation
  abbrev pub or_fail : Result (Unit {0}) × Release → Action D Release
  or_fail (ok _, r) = pure r
  or_fail (err e, r) = raise e
