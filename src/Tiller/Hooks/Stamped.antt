-- ===== src/Tiller/Hooks/Stamped.antt =====
-- Running the hooks of a release changes nothing of the release but the times of its hooks.
use helm.Common.{
  ℕ, zero, suc, [], ◌∷◌, subst, Bytes, Bool, ◌≡◌, refl, List, Option, none, some, ◌∙◌, ap,
}
use helm.Common.Decimal.{Int64}
use helm.Release.{Release, Hook, HookEvent}
use helm.Result.{Result, ok, err, ◌>>=◌}
use helm.Result.Ends.{Ends, Ends-with, Ends-weaken, >>=-Ends_any, if-Ends, >>=-Ends}
use helm.Storage.Driver.{Driver}
use helm.Tiller.Server.{Env, Server}
use helm.Tiller.Hooks.Frame.{SameStore, hooks_unless-Keeps, or_fail-Keeps}
use helm.Tiller.Hooks.{
  Placed, exec_hook, exec_event, hooks_ran, hooks_unless, or_fail, named, event_names, Action,
  stamp, finish_hooks, stamp_deleted,
}

-- The same hooks in the same order, each with a time of its last run of its own.
abbrev pub SameHooks : List Hook → List Hook → Type 0
SameHooks [] [] = Unit
SameHooks (h ∷ hs) (k ∷ ks) = (k ≡ record h { last_run = k.last_run }) × SameHooks hs ks
SameHooks _ _ = ⊥

pub SameHooks-refl : (hs : List Hook) → SameHooks hs hs
SameHooks-refl [] = tt
SameHooks-refl (h ∷ hs) = (refl, SameHooks-refl hs)

pub SameHooks-trans : (hs js ks : List Hook) → SameHooks hs js → SameHooks js ks → SameHooks hs ks
SameHooks-trans [] [] [] a b = tt
SameHooks-trans [] [] (k ∷ ks) a b = b
SameHooks-trans [] (j ∷ js) ks a b = absurd a
SameHooks-trans (h ∷ hs) [] ks a b = absurd a
SameHooks-trans (h ∷ hs) (j ∷ js) [] a b = b
SameHooks-trans (h ∷ hs) (j ∷ js) (k ∷ ks) (e, a) (f, b) =
    let at_time : Hook → Hook = λ q. record q { last_run = k.last_run } in
    (f ∙ ap at_time e, SameHooks-trans hs js ks a b)

stamp-SameHooks : (i now : ℕ) (hs : List Hook) → SameHooks hs (stamp i now hs)
unfolding stamp
stamp-SameHooks i now [] = tt
stamp-SameHooks zero now (h ∷ hs) = (refl, SameHooks-refl hs)
stamp-SameHooks (suc i) now (h ∷ hs) = (refl, stamp-SameHooks i now hs)

-- Two releases that differ in the times of their hooks at most.
abbrev pub IsStamped : Release → Release → Type 0
IsStamped r r' = (hs : List Hook) × SameHooks r.hooks hs × (r' ≡ record r { hooks = hs })

pub IsStamped-refl : (r : Release) → IsStamped r r
IsStamped-refl r = (r.hooks, SameHooks-refl r.hooks, refl)

module _ (D : Driver) (env : Env) (namespace : Bytes) where
  abbrev Finished : List Hook → Result (Unit {0}) × List Hook → Server D → Type 0
  Finished hooks p s = SameHooks hooks p.1

  stamp_deleted-Ends :
      (i : ℕ) (hooks : List Hook) (go_on : List Hook → Action D (Result (Unit {0}) × List Hook))
      (x : Result (Unit {0})) (s : Server D)
      → ((js : List Hook) (t : Server D) → Ends (Finished js) (go_on js t))
      → Ends (Finished hooks) (stamp_deleted D env i hooks go_on x s)
  stamp_deleted-Ends i hooks go_on (err e) s k = SameHooks-refl hooks
  stamp_deleted-Ends i hooks go_on (ok _) s k = >>=-Ends_any (Finished hooks) _ _ s λ now t _.
      Ends-weaken (Finished (stamp i now hooks)) (Finished hooks) _ (k (stamp i now hooks) t)
        λ p u h. SameHooks-trans hooks (stamp i now hooks) p.1 (stamp-SameHooks i now hooks) h

  finish_hooks-Ends :
      (hs : List Placed) (hooks : List Hook) (s : Server D)
      → Ends (Finished hooks) (finish_hooks D env namespace hs hooks s)
  unfolding finish_hooks
  finish_hooks-Ends [] hooks s = SameHooks-refl hooks
  finish_hooks-Ends ((i, h) ∷ hs) hooks s = >>=-Ends_any (Finished hooks) _ _ s λ x t _.
      stamp_deleted-Ends i hooks (finish_hooks D env namespace hs) x t
        λ js u. finish_hooks-Ends hs js u

module _ (D : Driver) (env : Env) (r : Release) where
  abbrev pub Kept : Result (Unit {0}) × Release → Server D → Type 0
  Kept p s = IsStamped r p.1

  hooks_ran-Ends :
      (hs : List Placed) (x : Result (Unit {0})) (s : Server D)
      → Ends Kept (hooks_ran D env r hs x s)
  hooks_ran-Ends hs (err e) s = IsStamped-refl r
  hooks_ran-Ends hs (ok _) s =
      >>=-Ends (Finished D env r.namespace r.hooks) Kept _ _ s
        (finish_hooks-Ends D env r.namespace hs r.hooks s) λ done t h. (done.1, h, refl)

  exec_event-Ends :
      (hook : Bytes) (timeout : Int64) (code : Option HookEvent) (s : Server D)
      → Ends Kept (exec_event D env r hook timeout code s)
  unfolding exec_event
  exec_event-Ends hook timeout none s = IsStamped-refl r
  exec_event-Ends hook timeout (some code) s =
      >>=-Ends_any Kept _ _ s λ ran t _. hooks_ran-Ends _ ran t

  pub hooks_unless-Ends :
      (disabled : Bool) (hook : Bytes) (timeout : Int64) (s : Server D)
      → Ends Kept (hooks_unless D env disabled r hook timeout s)
  unfolding exec_hook
  hooks_unless-Ends disabled hook timeout s =
      if-Ends Kept disabled _ _ s (λ _. IsStamped-refl r)
        (λ _. exec_event-Ends hook timeout (named hook event_names) s)

  pub or_fail-Ends :
      (p : Result (Unit {0}) × Release) (s : Server D)
      → IsStamped r p.1
      → Ends (λ r' _. IsStamped r r') (or_fail D env p s)
  or_fail-Ends (ok _, r') s h = h
  or_fail-Ends (err e, r') s h = tt

pub IsStamped-trans : (r s t : Release) → IsStamped r s → IsStamped s t → IsStamped r t
IsStamped-trans r s t (hs, a, e) (js, b, f) =
    let stamp_all : Release → Release = λ q. record q { hooks = js } in
    let from_hs : SameHooks hs js = subst (λ q. SameHooks q.hooks js) e b in
    (js, SameHooks-trans r.hooks hs js a from_hs, f ∙ ap stamp_all e)

-- The hooks of an event run around a step that needs the release.
module _ {A : Type 0} (D : Driver) (env : Env) (Q : A → Server D → Type 0) where
  pub through_hooks :
      (r : Release) (disabled : Bool) (hook : Bytes) (timeout : Int64) (f : Release → Action D A)
      (s : Server D)
      → ((r' : Release) (t : Server D) → IsStamped r r' → t.store ≡ s.store → Ends Q (f r' t))
      → Ends Q ((hooks_unless D env disabled r hook timeout >>= λ p. or_fail D env p >>= f) s)
  through_hooks r disabled hook timeout f s k =
      >>=-Ends Ran Q _ _ s
        (Ends-with (Kept D env r) (SameStore D env s) _
          (hooks_unless-Ends D env r disabled hook timeout s)
          (hooks_unless-Keeps D env disabled r hook timeout s))
        λ p t (h, e).
          >>=-Ends (λ r' u. IsStamped r r' × (u.store ≡ t.store)) Q _ _ t
            (Ends-with (λ r' _. IsStamped r r') (SameStore D env t) _ (or_fail-Ends D env r p t h)
              (or_fail-Keeps D env p t))
            λ r' u (h', e'). k r' u h' (e' ∙ e)
    where
      Ran : Result (Unit {0}) × Release → Server D → Type 0
      Ran p t = IsStamped r p.1 × (t.store ≡ s.store)
