-- ===== src/Tiller/Update.antt =====
-- pkg/tiller/release_update.go: UpdateRelease. The releases that it makes are in Tiller.Upgrade.
pub mod Lock
pub mod Prepared
pub mod Outcome
use helm.Common.{
  ℕ, Bytes, codes, Bool, true, false, if◌then◌else◌, ◌&&◌, ◌||◌, not, Option, none, some, List, [],
  ◌∷◌, ◌++◌, map, length,
}
use helm.Common.Text.{eqb}
use helm.Common.Decimal.{Int64, succ32}
use helm.Release.{
  Release, Chart, Status, Timestamp, status_eq, superseded, failed, deployed, deleted,
  pending_install, pending_upgrade, pending_rollback, set_status, set_description,
}
use helm.Result.{
  Error, Result, ok, err, Exec, pure, raise, lift, attempt, message, quote, missing_chart, pending,
  nil_pointer, force_delete_failed, ◌>>=◌, ◌>>◌,
}
use helm.Storage.Driver.{Driver}
use helm.Storage.Store
use helm.Tiller.Server.{
  Env, Server, Action, Rendered, UpdateOptions, on_store, from_store, recorded, current_time,
  validate_manifest, validate_release_name, capabilities,
}
use helm.Tiller.Hooks.{hooks_unless, or_fail}
use helm.Tiller.Modules.{module_update, module_delete}
use helm.Tiller.Install.{InstallRequest, prepare_release, with_manifest, described}
use helm.Tiller.Rollback.{unless_dry}
use helm.Tiller.Uninstall.{deleting_release, join}
use helm.Tiller.Upgrade.{
  reuse_values, UpdateRequest, no_values, config_of, set_chart_values, put_values, merge_values,
  carry_with, carry_values, is_pending, updated_release, install_request, options, reuse_values,
}

module _ (D : Driver) (env : Env) where
  -- the rendering and the validation of the updated release
  unfoldable pub render_update :
      UpdateRequest → Chart → Release → Release → Action D (Release × Release)
  unfolding updated_release validate_manifest capabilities
  render_update req chart current last = do
    ts ← current_time D env
    capabilities D env
    rendered ← (λ s. (
      (env.render s.calls chart req.values req.sub_notes (record {
        name = req.name;
        time = ts;
        namespace = current.namespace;
        is_upgrade = true;
        is_install = false;
        revision = succ32 last.version;
      })).0,
      s,
    ))
    let updated = updated_release req ts current last rendered
    validate_manifest D env current.namespace updated.manifest
    pure (current, updated)

  -- prepareUpdate behind reuseValues
  unfoldable pub prepare_reused : UpdateRequest → Chart → Release → Action D (Release × Release)
  unfolding render_update Store.last
  prepare_reused req chart current = do
    last ← from_store D (Store.last D req.name)
    lift (if is_pending last.info.code then err pending else ok tt)
    render_update req chart current last

  unfoldable pub reused_chart : UpdateRequest → Chart → Chart
  reused_chart req chart = elim req.chart [ none ↦ chart | some c ↦ c ]

  unfoldable pub prepare_checked :
      Chart
      → Release
      → Result (Unit {0}) × UpdateRequest
      → Action D (Result (Release × Release) × UpdateRequest)
  unfolding prepare_reused reused_chart
  prepare_checked chart current (err e, req) = pure (err e, req)
  prepare_checked chart current (ok _, req) = do
    prepared ← attempt (prepare_reused req (reused_chart req chart) current)
    pure (prepared, req)

  -- prepareUpdate behind the lookup of the deployed release
  unfoldable pub prepare_current :
      UpdateRequest → Chart → Result Release → Action D (Result (Release × Release) × UpdateRequest)
  unfolding prepare_checked reuse_values
  prepare_current req chart (err e) = pure (err e, req)
  prepare_current req chart (ok current) =
      prepare_checked chart current (reuse_values env req current)

  unfoldable pub prepare_with :
      UpdateRequest → Option Chart → Action D (Result (Release × Release) × UpdateRequest)
  unfolding prepare_current Store.deployed_release
  prepare_with req none = pure (err missing_chart, req)
  prepare_with req (some chart) = do
    current ← attempt (from_store D (Store.deployed_release D req.name))
    prepare_current req chart current

  -- prepareUpdate: the deployed release and the updated one, or an error; and the request, as
  -- reuseValues left it
  unfoldable pub prepare_update :
      UpdateRequest → Action D (Result (Release × Release) × UpdateRequest)
  unfolding prepare_with
  prepare_update req = prepare_with req req.chart

  unfoldable pub fail_release : Bytes → Release → Error → Action D Release
  fail_release msg r e = do recorded D (set_description msg (set_status failed r)) true; raise e

  abbrev pub upgraded : UpdateRequest → Release → Release
  upgraded req r =
      set_description (described req.description (codes "Upgrade complete")) (set_status deployed r)

  -- performUpdate behind the update of the cluster
  unfoldable pub cluster_upgraded :
      Release → Release → UpdateRequest → Result (Unit {0}) → Action D Release
  unfolding fail_release
  cluster_upgraded original updated req (err e) = do
    recorded D original true
    fail_release (codes "Upgrade " ++ (quote updated.name ++ (codes " failed: " ++ message e)))
        updated e
  cluster_upgraded original updated req (ok _) = do
    after ← hooks_unless D env req.disable_hooks updated (codes "post-upgrade") req.timeout
    updated ← or_fail D env after
    recorded D (set_status superseded original) true
    pure (upgraded req updated)

  -- performUpdate, where the request is no dry run
  unfoldable pub run_update : Release → Release → UpdateRequest → Action D Release
  unfolding module_update cluster_upgraded
  run_update original updated req = do
    before ← hooks_unless D env req.disable_hooks updated (codes "pre-upgrade") req.timeout
    updated ← or_fail D env before
    done ← attempt (module_update D env original updated (options req))
    cluster_upgraded original updated req done

  -- performUpdate
  unfoldable pub perform_update : Release → Release → UpdateRequest → Action D Release
  unfolding run_update
  perform_update original updated req =
      if req.dry_run
      then pure (set_description (codes "Dry run complete") updated)
      else run_update original updated req

  finish_force : UpdateRequest → Result (Unit {0}) × Release → Action D Release
  unfolding fail_release
  finish_force req (err e, r) =
      fail_release
        (codes "Release " ++ (quote r.name ++ (codes " failed post-install: " ++ message e))) r e
  finish_force req (ok _, r) = recorded D (upgraded req r) true >> pure (upgraded req r)

  -- performUpdateForce behind the deletion of the old release
  reinstall : UpdateRequest → Release → Release → Action D Release
  unfolding finish_force module_update
  reinstall req old new = do
    gone ← hooks_unless D env req.disable_hooks old (codes "post-delete") req.timeout
    old ← or_fail D env gone
    before ← hooks_unless D env req.disable_hooks new (codes "pre-install") req.timeout
    new ← or_fail D env before
    recorded D new false
    done ← attempt (module_update D env old new (options req))
    elim done [
      | err e ↦
          fail_release (codes "Upgrade " ++ (quote new.name ++ (codes " failed: " ++ message e)))
            new e
      | ok _ ↦ (do
        after ← hooks_unless D env req.disable_hooks new (codes "post-install") req.timeout
        finish_force req after)
    ]

  abbrev or_delete_errors : List Error → Action D Release → Action D Release
  or_delete_errors [] m = m
  or_delete_errors (e ∷ es) m =
      raise (force_delete_failed (length (e ∷ es)) (join (map message (e ∷ es))))

  -- performUpdateForce behind the preparation, where the request is no dry run
  replace_old : UpdateRequest → Release → Release → Action D Release
  unfolding reinstall module_delete join
  replace_old req old new = do
    now ← current_time D env
    let old = deleting_release now old
    recorded D old true
    before ← hooks_unless D env req.disable_hooks old (codes "pre-delete") req.timeout
    old ← or_fail D env before
    removed ← (λ s. let (r, s') = module_delete D env old s in (ok r, s'))
    let old = set_description (codes "Deletion complete") (set_status deleted old)
    recorded D old true
    or_delete_errors removed.1 (reinstall req old new)

  unfoldable pub force_prepared :
      UpdateRequest → Release → Result Release × Bytes → Action D Release
  unfolding replace_old with_manifest
  force_prepared req old (err e, text) = raise (with_manifest req.dry_run text e)
  force_prepared req old (ok new, text) =
      let new = record new { version = succ32 old.version } in
      if req.dry_run
      then pure (set_description (codes "Dry run complete") new)
      else replace_old req old new

  -- performUpdateForce
  unfoldable pub perform_update_force : UpdateRequest → Action D Release
  unfolding force_prepared prepare_release install_request Store.last
  perform_update_force req = do
    old ← from_store D (Store.last D req.name)
    prepared ← (λ s. let (x, t) = prepare_release D env (install_request req old) s in (ok x, t))
    force_prepared req old prepared

  unfoldable pub update_prepared : UpdateRequest → Release × Release → Action D Release
  unfolding perform_update Store.create Store.update
  update_prepared req (current, updated) = do
    unless_dry D env req.dry_run (on_store D (Store.create D updated))
    updated ← perform_update current updated req
    unless_dry D env req.dry_run (on_store D (Store.update D updated))
    pure updated

  -- a panic ends the request, also with Force
  is_panic : Error → Bool
  is_panic nil_pointer = true
  is_panic _ = false

  unfoldable pub update_with : UpdateRequest → Result (Release × Release) → Action D Release
  unfolding perform_update_force update_prepared is_panic
  update_with req (err e) =
      if req.force && not (is_panic e) then perform_update_force req else raise e
  update_with req (ok both) = update_prepared req both

  -- UpdateRelease
  unfoldable pub update_release : UpdateRequest → Action D Release
  unfolding prepare_update update_with validate_release_name
  update_release req = do
    lift (validate_release_name req.name)
    prepared ← prepare_update req
    update_with prepared.1 prepared.0
