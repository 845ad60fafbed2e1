-- ===== src/Tiller/Hooks/Frame.antt =====
-- Hooks and the calls of the cluster leave the store as it was.
use helm.Common.Text.{eqb}
use helm.Common.{
  ltb, false, ℕ, Bytes, Bool, ◌≡◌, refl, ◌∙◌, List, [], ◌∷◌, Option, none, some, codes,
}
use helm.Common.Decimal.{Int64, int64}
use helm.Release.{Release, Hook, HookEvent}
use helm.Result.{Result, ok, err}
use helm.Result.Frame.{IsFrame, Keeps, >>=-Keeps, if-Keeps}
use helm.Storage.Driver.{Driver}
use helm.Tiller.Server.{
  Env, Server, Call, kube, Action, versions_found, capabilities, server_version, discover_resources,
  kube_delete_with_timeout, kube_wait_until_crd_established, kube_watch_until_ready, kube_create,
}
use helm.Tiller.Hooks.{
  Placed, delete_hook_by_policy, after_wait, await_hook, run_hook, run_hooks, stamp_deleted,
  finish_hooks, hooks_ran, exec_event, exec_hook, hooks_unless, or_fail, named, event_names, stamp,
  sort_by_hook_weight, executing,
}

module _ (D : Driver) (env : Env) where
  abbrev pub SameStore : Server D → Server D → Type 0
  SameStore s t = t.store ≡ s.store

  frame : IsFrame SameStore
  frame = record { rfl = λ s. refl; trans = λ s t u h k. k ∙ h }

  kube-Keeps : (c : Call) → Keeps SameStore (kube D env c)
  unfolding kube
  kube-Keeps c s = refl

  versions_found-Keeps : (r : Result (Unit {0})) → Keeps SameStore (versions_found D env r)
  versions_found-Keeps (ok _) = frame.rfl
  versions_found-Keeps (err e) = frame.rfl

  pub capabilities-Keeps : Keeps SameStore (capabilities D env)
  unfolding capabilities
  capabilities-Keeps =
      >>=-Keeps frame _ _ (kube-Keeps server_version)
        λ _. >>=-Keeps frame _ _ (kube-Keeps discover_resources) versions_found-Keeps

  delete_hook_by_policy-Keeps :
      (ns : Bytes) (h : Hook) (policy : Bytes)
      → Keeps SameStore (delete_hook_by_policy D env ns h policy)
  unfolding delete_hook_by_policy
  delete_hook_by_policy-Keeps ns h policy =
      if-Keeps frame _ _ _
        (kube-Keeps (
          kube_delete_with_timeout ns h.manifest h.delete_timeout (ltb (int64 0) h.delete_timeout)))
        frame.rfl

  after_wait-Keeps :
      (ns : Bytes) (h : Hook) (r : Result (Unit {0})) → Keeps SameStore (after_wait D env ns h r)
  after_wait-Keeps ns h (ok _) = frame.rfl
  after_wait-Keeps ns h (err e) =
      >>=-Keeps frame _ _ (delete_hook_by_policy-Keeps ns h (codes "hook-failed")) λ _. frame.rfl

  await_hook-Keeps :
      (ns : Bytes) (crd : Bool) (timeout : Int64) (h : Hook)
      → Keeps SameStore (await_hook D env ns crd timeout h)
  unfolding await_hook
  await_hook-Keeps ns crd timeout h =
      if-Keeps frame _ _ _ (kube-Keeps (kube_wait_until_crd_established h.manifest timeout)) (
        >>=-Keeps frame _ _ (kube-Keeps (kube_watch_until_ready ns h.manifest timeout false))
          (after_wait-Keeps ns h))

  run_hook-Keeps :
      (ns : Bytes) (crd : Bool) (timeout : Int64) (h : Hook)
      → Keeps SameStore (run_hook D env ns crd timeout h)
  unfolding run_hook
  run_hook-Keeps ns crd timeout h =
      >>=-Keeps frame _ _ (delete_hook_by_policy-Keeps ns h (codes "before-hook-creation")) λ _.
        >>=-Keeps frame _ _ (kube-Keeps (kube_create ns h.manifest timeout false))
          λ _. await_hook-Keeps ns crd timeout h

  run_hooks-Keeps :
      (ns : Bytes) (crd : Bool) (timeout : Int64) (hs : List Placed)
      → Keeps SameStore (run_hooks D env ns crd timeout hs)
  unfolding run_hooks
  run_hooks-Keeps ns crd timeout [] = frame.rfl
  run_hooks-Keeps ns crd timeout ((_, h) ∷ hs) =
      >>=-Keeps frame _ _ (run_hook-Keeps ns crd timeout h) λ _. run_hooks-Keeps ns crd timeout hs

  stamp_deleted-Keeps :
      (i : ℕ) (hooks : List Hook) (go_on : List Hook → Action D (Result (Unit {0}) × List Hook))
      (r : Result (Unit {0}))
      → ((js : List Hook) → Keeps SameStore (go_on js))
      → Keeps SameStore (stamp_deleted D env i hooks go_on r)
  stamp_deleted-Keeps i hooks go_on (err e) k = frame.rfl
  stamp_deleted-Keeps i hooks go_on (ok _) k =
      >>=-Keeps frame _ _ frame.rfl λ now. k (stamp i now hooks)

  finish_hooks-Keeps :
      (ns : Bytes) (hs : List Placed) (hooks : List Hook)
      → Keeps SameStore (finish_hooks D env ns hs hooks)
  unfolding finish_hooks
  finish_hooks-Keeps ns [] hooks = frame.rfl
  finish_hooks-Keeps ns ((i, h) ∷ hs) hooks =
      >>=-Keeps frame _ _ (delete_hook_by_policy-Keeps ns h (codes "hook-succeeded"))
        λ r. stamp_deleted-Keeps i hooks (finish_hooks D env ns hs) r (finish_hooks-Keeps ns hs)

  hooks_ran-Keeps :
      (r : Release) (hs : List Placed) (x : Result (Unit {0}))
      → Keeps SameStore (hooks_ran D env r hs x)
  hooks_ran-Keeps r hs (err e) = frame.rfl
  hooks_ran-Keeps r hs (ok _) =
      >>=-Keeps frame _ _ (finish_hooks-Keeps r.namespace hs r.hooks) λ _. frame.rfl

  exec_event-Keeps :
      (r : Release) (hook : Bytes) (timeout : Int64) (code : Option HookEvent)
      → Keeps SameStore (exec_event D env r hook timeout code)
  unfolding exec_event
  exec_event-Keeps r hook timeout none = frame.rfl
  exec_event-Keeps r hook timeout (some code) =
      let hs = sort_by_hook_weight (executing code 0 r.hooks) in
      >>=-Keeps frame _ _ (run_hooks-Keeps r.namespace (eqb hook (codes "crd-install")) timeout hs)
        (hooks_ran-Keeps r hs)

  pub hooks_unless-Keeps :
      (disabled : Bool) (r : Release) (hook : Bytes) (timeout : Int64)
      → Keeps SameStore (hooks_unless D env disabled r hook timeout)
  unfolding exec_hook
  hooks_unless-Keeps disabled r hook timeout =
      if-Keeps frame _ _ _ frame.rfl (exec_event-Keeps r hook timeout (named hook event_names))

  pub or_fail-Keeps : (p : Result (Unit {0}) × Release) → Keeps SameStore (or_fail D env p)
  or_fail-Keeps (ok _, r) = frame.rfl
  or_fail-Keeps (err e, r) = frame.rfl
