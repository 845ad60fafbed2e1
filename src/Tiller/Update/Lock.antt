-- ===== src/Tiller/Update/Lock.antt =====
-- A pending operation locks a release against updates.
use helm.Common.{true, false, ◌≡◌, refl, ap, Option, none, some}
use helm.Release.{Release, Chart}
use helm.Result.{Error, Result, ok, err, pending, ◌>>=◌}
use helm.Storage.Driver.{Driver}
use helm.Storage.Store
use helm.Tiller.Server.{Env, Action, Server, validate_release_name}
use helm.Tiller.Update.{
  prepare_reused, prepare_checked, prepare_current, prepare_with, prepare_update, update_with,
  update_release,
}
use helm.Tiller.Upgrade.{reuse_values, UpdateRequest, is_pending}
use helm.Tiller.Upgrade.Reuse.{reuse_values-IsRevalued}

module _ (D : Driver) (env : Env) (req : UpdateRequest) (s : Server D) (last : Release) where
  -- the preparation fails, and goes on with a request of the same mode from the same state
  abbrev Fails : Result (Result (Release × Release) × UpdateRequest) × Server D → Type 0
  Fails x = (e : Error) × (q : UpdateRequest) × (q.force ≡ req.force) × (x ≡ (ok (err e, q), s))

  module _ (found : Store.last D req.name s.store ≡ ok last)
      (locked : is_pending last.info.code ≡ true) where
    prepare_checked-Fails :
        (chart : Chart) (current : Release) (x : Result (Unit {0}) × UpdateRequest)
        → x.1.name ≡ req.name
        → x.1.force ≡ req.force
        → Fails (prepare_checked D env chart current x s)
    unfolding prepare_checked prepare_reused ◌>>=◌
    prepare_checked-Fails chart current (err e, q) name force = (e, q, force, refl)
    prepare_checked-Fails chart current (ok _, q) name force =
        (pending, q, force, rw (name, found, locked) refl)

    prepare_current-Fails :
        (chart : Chart) (r : Result Release) → Fails (prepare_current D env req chart r s)
    unfolding prepare_current
    prepare_current-Fails chart (err e) = (e, req, refl, refl)
    prepare_current-Fails chart (ok current) =
        let (ch, v, e) = reuse_values-IsRevalued env req current in
        prepare_checked-Fails chart current (reuse_values env req current) (ap (λ q. q.name) e)
          (ap (λ q. q.force) e)

    prepare_with-Fails : (ch : Option Chart) → Fails (prepare_with D env req ch s)
    unfolding prepare_with ◌>>=◌
    prepare_with-Fails none = (_, req, refl, refl)
    prepare_with-Fails (some chart) =
        prepare_current-Fails chart (Store.deployed_release D req.name s.store)

  update_locked :
      (r : Result (Unit {0})) (m : Action D (Result (Release × Release) × UpdateRequest))
      → req.force ≡ false
      → Fails (m s)
      → (e : Error) × (((λ t. (r, t)) >>= λ u. m >>= λ p. update_with D env p.1 p.0) s ≡ (err e, s))
  unfolding update_with ◌>>=◌
  update_locked (err e) m plain h = (e, refl)
  update_locked (ok _) m plain (e, q, force, h) = (e, rw (h, force, plain) refl)

  -- An update without Force of a release whose last revision is pending always fails. It changes
  -- nothing, and does not call the cluster.
  pub update_release_pending :
      Store.last D req.name s.store ≡ ok last
      → is_pending last.info.code ≡ true
      → req.force ≡ false
      → (e : Error) × (update_release D env req s ≡ (err e, s))
  unfolding update_release prepare_update ◌>>=◌
  update_release_pending found locked plain =
      update_locked (validate_release_name req.name) (prepare_with D env req req.chart) plain
        (prepare_with-Fails found locked req.chart)
