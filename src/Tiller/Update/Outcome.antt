-- ===== src/Tiller/Update/Outcome.antt =====
-- What an update without Force returns when it returns a release.
use helm.Common.{refl, ◌&&◌, Bool, true, false, ◌≡◌, ap, ◌∙◌, List, Bytes, codes}
use helm.Release.{Release, Hook, deployed}
use helm.Result.{Result, ok, err, Error, raise, ◌>>=◌}
use helm.Result.Ends.{Ends, Ends-eq, >>=-Ends, >>=-Ends_any, if-Ends, reads-Ends}
use helm.Storage.Driver.{Driver}
use helm.Storage.Store
use helm.Storage.Store.{Store}
use helm.Tiller.Server.{Env, Server, on_store, validate_release_name}
use helm.Tiller.Hooks.Stamped.{SameHooks, through_hooks, IsStamped, IsStamped-trans}
use helm.Tiller.Rollback.{unless_dry}
use helm.Tiller.Upgrade.{UpdateRequest}
use helm.Tiller.Upgrade.Reuse.{IsRevalued, IsReused}
use helm.Tiller.Update.{
  prepare_update, cluster_upgraded, run_update, perform_update, update_prepared, update_with,
  update_release, upgraded, fail_release,
}
use helm.Tiller.Update.Prepared.{IsPrepared, Prepared, prepare_with-Ends}

-- the update with the times of its hooks, deployed
module _ (D : Driver) (env : Env) (req : UpdateRequest) (update : Release) where
  abbrev IsDeployed : Release → Server D → Type 0
  IsDeployed r t =
      (hs : List Hook) × SameHooks update.hooks hs
      × (r ≡ upgraded D env req (record update { hooks = hs }))

  failed-Ends :
      (P : Release → Server D → Type 0) (msg : Bytes) (r : Release) (e : Error) (s : Server D)
      → Ends P (fail_release D env msg r e s)
  unfolding fail_release ◌>>=◌
  failed-Ends P msg r e s = tt

  cluster_upgraded-Ends :
      (original update' : Release) (x : Result (Unit {0})) (s : Server D)
      → IsStamped update update'
      → Ends IsDeployed (cluster_upgraded D env original update' req x s)
  unfolding cluster_upgraded
  cluster_upgraded-Ends original update' (err e) s h =
      >>=-Ends_any IsDeployed _ _ s λ _ t _. failed-Ends IsDeployed _ update' e t
  cluster_upgraded-Ends original update' (ok _) s h =
      through_hooks D env IsDeployed update' req.disable_hooks (codes "post-upgrade") req.timeout _
        s
        λ r t k _. >>=-Ends_any IsDeployed _ _ t λ _ u _.
          (let st = IsStamped-trans update update' r h k in
            (st.0, st.1, ap (upgraded D env req) st.2))

  run_update-Ends :
      (original : Release) (s : Server D) → Ends IsDeployed (run_update D env original update req s)
  unfolding run_update
  run_update-Ends original s =
      through_hooks D env IsDeployed update req.disable_hooks (codes "pre-upgrade") req.timeout _ s
        λ r t h _. >>=-Ends_any IsDeployed _ _ t λ x u _. cluster_upgraded-Ends original r x u h

module _ (D : Driver) (env : Env) (req : UpdateRequest) (s : Server D) where
  -- What an update returned, and what is stored. `request` is the request with the values in use.
  pub record IsUpgraded (r : Release) (t : Server D) : Type 0 where
    pub request : UpdateRequest
    pub current : Release
    pub update : Release
    pub hooks : List Hook
    pub same_hooks : SameHooks update.hooks hooks
    pub before : Store D
    pub revalued : IsRevalued req request
    pub reused : IsReused env req current request
    pub was_deployed : Store.deployed_release D req.name s.store ≡ ok current
    pub prepared : IsPrepared D env req s request current update
    pub result : r ≡ upgraded D env request (record update { hooks = hooks })
    pub code : r.info.code ≡ deployed
    pub stored : Store.update D r before ≡ (ok tt, t.store)

  updated :
      (dry_run : Bool) (r : Release) (u v : Server D) (a : Unit {0})
      → dry_run ≡ false
      → unless_dry D env dry_run (on_store D (Store.update D r)) u ≡ (ok a, v)
      → Store.update D r u.store ≡ (ok tt, v.store)
  updated true r u v a live h = cc
  updated false r u v a live h = ap (λ x. (x.0, x.1.store)) h

  perform_update-Ends :
      (q : UpdateRequest) (original update : Release) (u : Server D)
      → q.dry_run ≡ false
      → Ends (IsDeployed D env q update) (perform_update D env original update q u)
  unfolding perform_update
  perform_update-Ends q original update u live =
      if-Ends (IsDeployed D env q update) q.dry_run _ (run_update D env original update q) u
        (λ h. absurd (cc)) (λ _. run_update-Ends D env q update original u)

  update_prepared-Ends :
      (q : UpdateRequest) (current update : Release) (t : Server D)
      → q.dry_run ≡ false
      → Prepared D env req s (ok (current, update), q) t
      → Ends IsUpgraded (update_prepared D env q (current, update) t)
  unfolding update_prepared
  update_prepared-Ends q current update t live (revalued, reused, was_deployed, prepared) =
      >>=-Ends_any IsUpgraded _ _ t λ _ u _.
        >>=-Ends (IsDeployed D env q update) IsUpgraded _ _ u
          (perform_update-Ends q current update u live)
          λ r w d. >>=-Ends_any IsUpgraded _ _ w λ a z k. record {
            request = q;
            current = current;
            update = update;
            hooks = d.0;
            before = w.store;
            revalued = revalued;
            reused = reused;
            was_deployed = was_deployed;
            prepared = prepared;
            same_hooks = d.1;
            result = d.2;
            code = ap (λ r. r.info.code) d.2;
            stored = updated q.dry_run r w z a live k;
          }

  update_with-Ends :
      (p : Result (Release × Release) × UpdateRequest) (t : Server D)
      → req.dry_run ≡ false
      → req.force ≡ false
      → Prepared D env req s p t
      → Ends IsUpgraded (update_with D env p.1 p.0 t)
  unfolding update_with
  update_with-Ends (ok (current, update), q) t live plain h =
      let ((c, v, e), _, _, _) = h in
      update_prepared-Ends q current update t (ap (λ r. r.dry_run) e ∙ live) h
  update_with-Ends (err x, q) t live plain (c, v, e) =
      let off : q.force ≡ false = ap (λ r. r.force) e ∙ plain in
      if-Ends IsUpgraded (q.force && _) _ (raise x) t (λ h. absurd (let k = rw off at h in cc))
        (λ _. tt)

  update-Ends :
      req.dry_run ≡ false → req.force ≡ false → Ends IsUpgraded (update_release D env req s)
  unfolding update_release prepare_update
  update-Ends live plain =
      reads-Ends IsUpgraded (λ _. validate_release_name req.name) _ s
        λ _ _.
          >>=-Ends (Prepared D env req s) IsUpgraded _ _ s
            (prepare_with-Ends D env req s req.chart refl)
            λ p t h. update_with-Ends p t live plain h

  -- An update without Force that is no dry run and returns a release, returns it deployed: with the
  -- chart and the values that reuseValues selects, their rendered manifest and hooks, the hooks with
  -- times of their own, in the namespace of the deployed release, under the version after the last
  -- one, which was not pending; and its last step stores that release.
  pub update-IsUpgraded :
      (r : Release) (t : Server D)
      → req.dry_run ≡ false
      → req.force ≡ false
      → update_release D env req s ≡ (ok r, t)
      → IsUpgraded r t
  update-IsUpgraded r t live plain h = Ends-eq IsUpgraded (update-Ends live plain) h
