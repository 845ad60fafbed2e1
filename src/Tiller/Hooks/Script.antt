-- ===== src/Tiller/Hooks/Script.antt =====
-- The calls of the cluster that the hooks of an event make.
use helm.Common.{
  Bytes, codes, Bool, true, false, if◌then◌else◌, ltb, List, [], ◌∷◌, ◌++◌, append_assoc,
  append-nil, ◌≡◌, refl, sym, ap, ◌∙◌, Option, none, some, ℕ, Perm,
}
use helm.Common.Decimal.{Int64, int64}
use helm.Common.Text.{eqb}
use helm.Release.{Release, Hook, HookEvent}
use helm.Result.{Result, ok, err, pure, ◌>>=◌, Error}
use helm.Result.Ends.{
  Ends, >>=-Ends, Ends-weaken, IfOk, attempt-Ends, >>=-Ends_any, Ends-eq, reads-Ends,
}
use helm.Storage.Driver.{Driver}
use helm.Tiller.Server.{
  Env, Server, Action, Call, kube, kube_create, kube_delete_with_timeout, kube_watch_until_ready,
  kube_wait_until_crd_established, answer,
}
use helm.Common.Sort.{IsOrdered}
use helm.Tiller.Hooks.Weight.{Fires, MayPrecede, executing-Fires, sort_by_hook_weight-IsOrdered}
use helm.Tiller.Hooks.{
  Placed, hook_has_delete_policy, delete_hook_by_policy, run_hook, run_hooks, await_hook,
  finish_hooks, hooks_ran, exec_event, exec_hook, named, event_names, sort_by_hook_weight,
  executing, after_wait, stamp_deleted, stamp,
}

-- the deletion of a hook that has the policy
unfoldable pub deletion : Bytes → Hook → Bytes → List Call
deletion ns h policy =
    if hook_has_delete_policy h policy
    then kube_delete_with_timeout ns h.manifest h.delete_timeout (ltb (int64 0) h.delete_timeout)
      ∷ []
    else []

-- A hook is created anew and waited for.
unfoldable pub hook_calls : Bytes → Bool → Int64 → Hook → List Call
unfolding deletion
hook_calls ns crd timeout h =
    deletion ns h (codes "before-hook-creation")
    ++ kube_create ns h.manifest timeout false
      ∷ (if crd
          then kube_wait_until_crd_established h.manifest timeout
          else kube_watch_until_ready ns h.manifest timeout false)
      ∷ []

unfoldable pub all_hook_calls : Bytes → Bool → Int64 → List Placed → List Call
unfolding hook_calls
all_hook_calls ns crd timeout [] = []
all_hook_calls ns crd timeout ((i, h) ∷ hs) =
    hook_calls ns crd timeout h ++ all_hook_calls ns crd timeout hs

-- When all have run, they are deleted by policy.
unfoldable pub all_deletions : Bytes → List Placed → List Call
unfolding deletion
all_deletions ns [] = []
all_deletions ns ((i, h) ∷ hs) = deletion ns h (codes "hook-succeeded") ++ all_deletions ns hs

-- the calls of a successful run of hooks, in their order
unfoldable pub event_calls : Release → Bytes → Int64 → List Placed → List Call
unfolding all_hook_calls all_deletions
event_calls r hook timeout hs =
    all_hook_calls r.namespace (eqb hook (codes "crd-install")) timeout hs
    ++ all_deletions r.namespace hs

module _ (D : Driver) where
  -- the state with more calls made
  abbrev pub called : Server D → List Call → Server D
  called s cs = record s { calls = s.calls ++ cs }

  pub called_none : (s : Server D) → s ≡ called s []
  called_none s = ap (λ cs. record { store = s.store; calls = cs }) (sym (append-nil s.calls))

  pub called_twice :
      (s t u : Server D) (cs ds : List Call)
      → t ≡ called s cs
      → u ≡ called t ds
      → u ≡ called s (cs ++ ds)
  called_twice s t u cs ds e f =
      f
      ∙ (ap (λ v. called v ds) e
          ∙ ap (λ ks. record { store = s.store; calls = ks }) (append_assoc s.calls cs ds))

  abbrev Calls : {A : Type 0} → Server D → List Call → A → Server D → Type 0
  Calls s cs a t = t ≡ called s cs

  module _ {A B : Type 0} where
    seq-Ends :
        (s : Server D) (cs ds : List Call) (m : Action D A) (f : A → Action D B)
        → Ends (Calls s cs) (m s)
        → ((a : A) (t : Server D) → Ends (Calls t ds) (f a t))
        → Ends (Calls s (cs ++ ds)) ((m >>= f) s)
    seq-Ends s cs ds m f h k = >>=-Ends (Calls s cs) (Calls s (cs ++ ds)) m f s h λ a t e.
        Ends-weaken (Calls t ds) (Calls s (cs ++ ds)) (f a t) (k a t)
          λ b u e'. called_twice s t u cs ds e e'

  module _ (env : Env) where
    answer-Ends :
        (P : Unit {0} → Server D → Type 0) (o : Option Error) (s : Server D)
        → P tt s
        → Ends P (answer o, s)
    answer-Ends P none s h = h
    answer-Ends P (some e) s h = tt

    kube-Ends : (c : Call) (s : Server D) → Ends (Calls s (c ∷ [])) (kube D env c s)
    unfolding kube
    kube-Ends c s = answer-Ends (Calls s (c ∷ [])) (env.reply s.calls c) (called s (c ∷ [])) refl

    if_kube-Ends :
        (b : Bool) (c : Call) (s : Server D)
        → Ends (Calls s (if b then c ∷ [] else [])) ((if b then kube D env c else pure tt) s)
    if_kube-Ends true c s = kube-Ends c s
    if_kube-Ends false c s = called_none s

    after_wait-Ends :
        (ns : Bytes) (h : Hook) (cs : List Call) (s : Server D) (r : Result (Unit {0}))
        (t : Server D)
        → IfOk (Calls s cs) r t
        → Ends (Calls s cs) (after_wait D env ns h r t)
    after_wait-Ends ns h cs s (ok _) t k = k
    after_wait-Ends ns h cs s (err e) t k = >>=-Ends_any (Calls s cs) _ _ t λ _ _ _. tt

    module _ (ns : Bytes) where
      delete_hook-Ends :
          (h : Hook) (policy : Bytes) (s : Server D)
          → Ends (Calls s (deletion ns h policy)) (delete_hook_by_policy D env ns h policy s)
      unfolding delete_hook_by_policy deletion
      delete_hook-Ends h policy s = if_kube-Ends (hook_has_delete_policy h policy) _ s

      await_hook-Ends :
          (crd : Bool) (timeout : Int64) (h : Hook) (s : Server D)
          → Ends
              (Calls s (
                (if crd
                  then kube_wait_until_crd_established h.manifest timeout
                  else kube_watch_until_ready ns h.manifest timeout false)
                ∷ []))
              (await_hook D env ns crd timeout h s)
      unfolding await_hook
      await_hook-Ends true timeout h s = kube-Ends _ s
      await_hook-Ends false timeout h s =
          let watch = kube_watch_until_ready ns h.manifest timeout false in
          >>=-Ends (IfOk (Calls s (watch ∷ []))) (Calls s (watch ∷ [])) _ _ s
            (attempt-Ends (Calls s (watch ∷ [])) (kube D env watch s) (kube-Ends watch s))
            λ r t k. after_wait-Ends ns h (watch ∷ []) s r t k

      run_hook-Ends :
          (crd : Bool) (timeout : Int64) (h : Hook) (s : Server D)
          → Ends (Calls s (hook_calls ns crd timeout h)) (run_hook D env ns crd timeout h s)
      unfolding run_hook hook_calls
      run_hook-Ends crd timeout h s =
          seq-Ends s _ _ _ _ (delete_hook-Ends h (codes "before-hook-creation") s)
            λ _ t. seq-Ends t _ _ _ _ (kube-Ends _ t) λ _ u. await_hook-Ends crd timeout h u

      run_hooks-Ends :
          (crd : Bool) (timeout : Int64) (hs : List Placed) (s : Server D)
          → Ends (Calls s (all_hook_calls ns crd timeout hs)) (run_hooks D env ns crd timeout hs s)
      unfolding run_hooks all_hook_calls
      run_hooks-Ends crd timeout [] s = called_none s
      run_hooks-Ends crd timeout ((i, h) ∷ hs) s =
          seq-Ends s _ _ _ _ (run_hook-Ends crd timeout h s) λ _ t. run_hooks-Ends crd timeout hs t

  module _ (env : Env) (r : Release) where
    -- On success the state has the calls, and the release is `r` but for the times of its hooks.
    Finished : {B : Type 0} → Server D → List Call → Result (Unit {0}) × B → Server D → Type 0
    Finished s cs (ok _, b) t = t ≡ called s cs
    Finished s cs (err e, b) t = Unit {0}

    stamp_deleted-Ends :
        (i : ℕ) (hooks : List Hook) (go_on : List Hook → Action D (Result (Unit {0}) × List Hook))
        (cs ds : List Call) (s : Server D) (x : Result (Unit {0})) (t : Server D)
        → IfOk (Calls s cs) x t
        → ((hooks : List Hook) (u : Server D) → Ends (Finished u ds) (go_on hooks u))
        → Ends (Finished s (cs ++ ds)) (stamp_deleted D env i hooks go_on x t)
    unfolding Finished
    stamp_deleted-Ends i hooks go_on cs ds s (err e) t h k = tt
    stamp_deleted-Ends i hooks go_on cs ds s (ok _) t h k =
        reads-Ends (Finished s (cs ++ ds)) (λ u. ok (env.now u.calls)) _ t
          λ now _.
            Ends-weaken (Finished t ds) (Finished s (cs ++ ds)) (go_on (stamp i now hooks) t)
              (k (stamp i now hooks) t) (joined h)
      where
        joined :
            t ≡ called s cs
            → (p : Result (Unit {0}) × List Hook) (u : Server D) → Finished t ds p u
            → Finished s (cs ++ ds) p u
        joined h (ok _, hooks) u e = called_twice s t u cs ds h e
        joined h (err x, hooks) u e = tt

    finish_hooks-Ends :
        (ns : Bytes) (hs : List Placed) (hooks : List Hook) (s : Server D)
        → Ends (Finished s (all_deletions ns hs)) (finish_hooks D env ns hs hooks s)
    unfolding finish_hooks all_deletions Finished
    finish_hooks-Ends ns [] hooks s = called_none s
    finish_hooks-Ends ns ((i, h) ∷ hs) hooks s =
        let cs = deletion ns h (codes "hook-succeeded") in
        >>=-Ends (IfOk (Calls s cs)) (Finished s (cs ++ all_deletions ns hs)) _ _ s
          (attempt-Ends (Calls s cs) (delete_hook_by_policy D env ns h (codes "hook-succeeded") s)
            (delete_hook-Ends env ns h (codes "hook-succeeded") s))
          λ x t k.
            stamp_deleted-Ends i hooks (finish_hooks D env ns hs) cs (all_deletions ns hs) s x t k
              (finish_hooks-Ends ns hs)

    hooks_ran-Ends :
        (hs : List Placed) (s : Server D) (x : Result (Unit {0})) (t : Server D) (cs : List Call)
        → IfOk (Calls s cs) x t
        → Ends (Finished s (cs ++ all_deletions r.namespace hs)) (hooks_ran D env r hs x t)
    unfolding Finished
    hooks_ran-Ends hs s (err e) t cs h = tt
    hooks_ran-Ends hs s (ok _) t cs h =
        >>=-Ends (Finished t (all_deletions r.namespace hs))
          (Finished s (cs ++ all_deletions r.namespace hs)) _ _ t
          (finish_hooks-Ends r.namespace hs r.hooks t) joined
      where
        joined :
            (p : Result (Unit {0}) × List Hook) (u : Server D)
            → Finished t (all_deletions r.namespace hs) p u
            → Finished s (cs ++ all_deletions r.namespace hs) (p.0, record r { hooks = p.1 }) u
        joined (ok _, hooks) u e = called_twice s t u cs (all_deletions r.namespace hs) h e
        joined (err x, hooks) u e = tt

    exec_event-Ends :
        (hook : Bytes) (timeout : Int64) (code : HookEvent) (s : Server D)
        → Ends
            (Finished s
              (event_calls r hook timeout (sort_by_hook_weight (executing code 0 r.hooks))))
            (exec_event D env r hook timeout (some code) s)
    unfolding exec_event event_calls
    exec_event-Ends hook timeout code s =
        let hs = sort_by_hook_weight (executing code 0 r.hooks) in
        let cs = all_hook_calls r.namespace (eqb hook (codes "crd-install")) timeout hs in
        >>=-Ends (IfOk (Calls s cs)) (Finished s (cs ++ all_deletions r.namespace hs)) _ _ s
          (attempt-Ends (Calls s cs) (run_hooks D env r.namespace _ timeout hs s)
            (run_hooks-Ends env r.namespace _ timeout hs s))
          λ x t k. hooks_ran-Ends hs s x t cs k

    -- When the hooks of a known event succeed, the store is as it was and the cluster was called
    -- for the hooks that name the event and no others, each as often as it names it, in the order of
    -- their weights and at the same weight of their names, one after the other: each was deleted where its policy says so before its creation, created, and
    -- waited for; and after all of them, those were deleted whose policy says so on success.
    pub exec_hook-calls :
        (hook : Bytes) (code : HookEvent) (timeout : Int64) (s t : Server D) (r' : Release)
        → named hook event_names ≡ some code
        → exec_hook D env r hook timeout s ≡ (ok (ok tt, r'), t)
        → (chosen hs : List Placed) × Fires code 0 r.hooks chosen
          × Perm hs chosen
          × IsOrdered MayPrecede hs
          × (t ≡ called s (event_calls r hook timeout hs))
    unfolding exec_hook Finished
    exec_hook-calls hook code timeout s t r' known ran =
        let chosen : List Placed = executing code 0 r.hooks in
        let hs : List Placed = sort_by_hook_weight chosen in
        let (perm, ordered) = sort_by_hook_weight-IsOrdered chosen in
        (
          chosen,
          hs,
          executing-Fires code 0 r.hooks,
          perm,
          ordered,
          Ends-eq (Finished s (event_calls r hook timeout hs)) (exec_event-Ends hook timeout code s)
              (rw known at ran),
        )
