-- ===== src/Tiller/Rollback/Outcome.antt =====
-- What a rollback returns when it returns a release.
use helm.Common.{◌==◌, Bool, true, false, if◌then◌else◌, ◌≡◌, refl, ap, List, ltb, codes}
use helm.Release.{pending_rollback, Release, Hook, deployed, set_status}
use helm.Result.{Result, ok, err, ◌>>=◌, invalid_revision, Error, mentions, pure, raise}
use helm.Result.Ends.{Ends, Ends-eq, >>=-Ends, >>=-Ends_any, if-Ends, reads-Ends}
use helm.Storage.Driver.{Driver}
use helm.Storage.Store
use helm.Storage.Store.{Store}
use helm.Tiller.Server.{Env, Server}
use helm.Tiller.Hooks.Stamped.{SameHooks, IsStamped, through_hooks, IsStamped-trans}
use helm.Tiller.Rollback.{
  RollbackRequest, previous_version, target_release, prepare_rollback, fail_rollback,
  supersede_deployed, cluster_updated, run_rollback, perform_rollback, unless_dry, rollback_release,
  validate_release_name, int32, on_store, pred32, succ32,
}

module _ (D : Driver) (env : Env) (req : RollbackRequest) where
  -- The target was made of the last release of the name and of the release to go back to: that of
  -- the version of the request, or where it has none, of the version before the last.
  pub record IsPrepared (s : Server D) (current target : Release) : Type 0 where
    pub previous : Release
    pub was_last : Store.last D req.name s.store ≡ ok current
    pub was_stored :
        Store.get D req.name
          (if req.version == int32 0 then pred32 current.version else req.version)
          s.store
        ≡ ok previous
    pub name : target.name ≡ req.name
    pub version : target.version ≡ succ32 current.version
    pub namespace : target.namespace ≡ current.namespace
    pub chart : target.chart ≡ previous.chart
    pub config : target.config ≡ previous.config
    pub manifest : target.manifest ≡ previous.manifest
    pub hooks : target.hooks ≡ previous.hooks
    pub code : target.info.code ≡ pending_rollback
    pub first_deployed : target.info.first_deployed ≡ current.info.first_deployed

  prepare_rollback-Ends :
      (s : Server D) → Ends (λ p t. (t ≡ s) × IsPrepared s p.0 p.1) (prepare_rollback D env req s)
  unfolding prepare_rollback target_release previous_version
  prepare_rollback-Ends s =
      let Q : Release × Release → Server D → Type 0 = λ p t. (t ≡ s) × IsPrepared s p.0 p.1 in
      reads-Ends Q (λ _. validate_release_name req.name) _ s
        λ _ _.
          reads-Ends Q (λ _. if ltb req.version (int32 0) then err invalid_revision else ok tt) _ s
            λ _ _.
              reads-Ends Q (λ t. Store.last D req.name t.store) _ s
                λ current last.
                  reads-Ends Q (λ t. Store.get D req.name (previous_version req current) t.store) _
                    s
                    λ previous stored.
                      reads-Ends Q (λ t. ok (env.now t.calls)) _ s
                        λ now _. (
                          refl,
                          record {
                            previous = previous;
                            was_last = last;
                            was_stored = stored;
                            name = refl;
                            version = refl;
                            namespace = refl;
                            chart = refl;
                            config = refl;
                            manifest = refl;
                            hooks = refl;
                            code = refl;
                            first_deployed = refl;
                          },
                        )

  module _ (current target : Release) where
    -- the target with the times of its hooks, deployed
    abbrev IsDeployed : Release → Server D → Type 0
    IsDeployed r t =
        (hs : List Hook) × SameHooks target.hooks hs
        × (r ≡ set_status deployed (record target { hooks = hs }))

    supersede_deployed-Ends :
        (target' : Release) (x : Result (List Release)) (s : Server D)
        → IsStamped target target'
        → Ends IsDeployed (supersede_deployed D env target' x s)
    unfolding supersede_deployed
    supersede_deployed-Ends target' (ok rs) s (hs, a, e) = (hs, a, ap (set_status deployed) e)
    supersede_deployed-Ends target' (err e) s (hs, a, h) =
        if-Ends IsDeployed (mentions (codes "has no deployed releases") e)
          (pure (set_status deployed target')) (raise e) s
          (λ _. (hs, a, ap (set_status deployed) h)) (λ _. tt)

    fail_rollback-Ends :
        (P : Release → Server D → Type 0) (target' : Release) (e : Error) (s : Server D)
        → Ends P (fail_rollback D env current target' e s)
    unfolding fail_rollback ◌>>=◌
    fail_rollback-Ends P target' e s = tt

    cluster_updated-Ends :
        (target' : Release) (x : Result (Unit {0})) (s : Server D)
        → IsStamped target target'
        → Ends IsDeployed (cluster_updated D env current target' req x s)
    unfolding cluster_updated
    cluster_updated-Ends target' (err e) s h = fail_rollback-Ends IsDeployed target' e s
    cluster_updated-Ends target' (ok _) s h =
        through_hooks D env IsDeployed target' req.disable_hooks (codes "post-rollback") req.timeout
          _ s
          λ r t h' _. >>=-Ends_any IsDeployed _ _ t λ _ u _.
            >>=-Ends_any IsDeployed _ _ u λ others v _.
              supersede_deployed-Ends r others v (IsStamped-trans target target' r h h')

    run_rollback-Ends : (s : Server D) → Ends IsDeployed (run_rollback D env current target req s)
    unfolding run_rollback
    run_rollback-Ends s =
        through_hooks D env IsDeployed target req.disable_hooks (codes "pre-rollback") req.timeout _
          s λ r t h _. >>=-Ends_any IsDeployed _ _ t λ x u _. cluster_updated-Ends r x u h

  -- What a rollback returned, and what is stored.
  pub record IsRolledBack (s : Server D) (r : Release) (t : Server D) : Type 0 where
    pub current : Release
    pub target : Release
    pub prepared : IsPrepared s current target
    pub hooks : List Hook
    pub same_hooks : SameHooks target.hooks hooks
    pub result : r ≡ set_status deployed (record target { hooks = hooks })
    pub before : Store D
    pub stored : Store.update D r before ≡ (ok tt, t.store)

  updated :
      (dry_run : Bool) (r : Release) (u v : Server D) (a : Unit {0})
      → dry_run ≡ false
      → unless_dry D env dry_run (on_store D (Store.update D r)) u ≡ (ok a, v)
      → Store.update D r u.store ≡ (ok tt, v.store)
  updated true r u v a live h = cc
  updated false r u v a live h = ap (λ x. (x.0, x.1.store)) h

  perform_rollback-Ends :
      (current target : Release) (s : Server D)
      → req.dry_run ≡ false
      → Ends (IsDeployed current target) (perform_rollback D env current target req s)
  unfolding perform_rollback
  perform_rollback-Ends current target s live =
      if-Ends (IsDeployed current target) req.dry_run (pure target)
        (run_rollback D env current target req) s (λ h. absurd (cc))
        (λ _. run_rollback-Ends current target s)

  rollback-Ends :
      (s : Server D) → req.dry_run ≡ false → Ends (IsRolledBack s) (rollback_release D env req s)
  unfolding rollback_release
  rollback-Ends s live =
      >>=-Ends (λ p u. (u ≡ s) × IsPrepared s p.0 p.1) (IsRolledBack s) _ _ s
        (prepare_rollback-Ends s)
        λ p u h. >>=-Ends_any (IsRolledBack s) _ _ u λ _ v _.
          >>=-Ends (IsDeployed p.0 p.1) (IsRolledBack s) _ _ v
            (perform_rollback-Ends p.0 p.1 v live)
            λ r w d. >>=-Ends_any (IsRolledBack s) _ _ w λ a z k. record {
              current = p.0;
              target = p.1;
              prepared = h.1;
              hooks = d.0;
              same_hooks = d.1;
              result = d.2;
              before = w.store;
              stored = updated req.dry_run r w z a live k;
            }

  -- A rollback that is no dry run and returns a release, returns the target, deployed: the chart,
  -- the values, the manifest and the hooks of the revision to go back to, where the hooks differ in
  -- the times of their last run at most, under the version after the last one; and its last step stores that release.
  pub rollback-IsRolledBack :
      (s t : Server D) (r : Release)
      → req.dry_run ≡ false
      → rollback_release D env req s ≡ (ok r, t)
      → IsRolledBack s r t
  rollback-IsRolledBack s t r live = Ends-eq (IsRolledBack s) (rollback-Ends s live)
