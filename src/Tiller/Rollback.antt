-- ===== src/Tiller/Rollback.antt =====
-- pkg/tiller/release_rollback.go
pub mod Outcome
use helm.Common.{
  ℕ, Bytes, codes, Bool, true, false, ltb, leb, ◌==◌, ◌-◌, if◌then◌else◌, not, Option, none, some,
  List, [], ◌∷◌, ◌++◌,
}
use helm.Common.Decimal.{Int32, Int64, int32, succ32, pred32, itoa}
use helm.Release.{
  Release, Timestamp, superseded, failed, deployed, pending_rollback, set_status, set_description,
}
use helm.Result.{
  Error, Result, ok, err, Exec, pure, raise, lift, attempt, message, mentions, quote,
  invalid_revision, ◌>>=◌, ◌>>◌,
}
use helm.Storage.Driver.{Driver}
use helm.Storage.Store
use helm.Tiller.Server.{
  Env, Server, Action, on_store, from_store, recorded, record_release, current_time,
  validate_release_name,
}
use helm.Tiller.Hooks.{hooks_unless, or_fail}
use helm.Tiller.Modules.{module_update}
use helm.Tiller.Install.{described}

-- services.RollbackReleaseRequest
pub record RollbackRequest : Type 0 where
  pub name : Bytes
  pub dry_run : Bool
  pub disable_hooks : Bool
  pub version : Int32
  pub recreate : Bool
  pub timeout : Int64
  pub wait : Bool
  pub force : Bool
  pub description : Bytes
  pub cleanup_on_fail : Bool

-- the revision to go back to
unfoldable pub previous_version : RollbackRequest → Release → Int32
previous_version req current =
    if req.version == int32 0 then pred32 current.version else req.version

-- the release that prepareRollback builds
unfoldable pub target_release : RollbackRequest → Timestamp → Release → Release → Release
unfolding previous_version itoa
target_release req ts current previous = record {
  name = req.name;
  info = record {
    code = pending_rollback;
    notes = previous.info.notes;
    first_deployed = current.info.first_deployed;
    last_deployed = ts;
    deleted_at = none;
    description =
        described req.description (codes "Rollback to " ++ itoa (previous_version req current));
  };
  chart = previous.chart;
  config = previous.config;
  manifest = previous.manifest;
  hooks = previous.hooks;
  version = succ32 current.version;
  namespace = current.namespace;
}

module _ (D : Driver) (env : Env) where
  -- prepareRollback: the current release and the target
  unfoldable pub prepare_rollback : RollbackRequest → Action D (Release × Release)
  unfolding target_release validate_release_name Store.last Store.get previous_version
  prepare_rollback req = do
    lift (validate_release_name req.name)
    lift (if ltb req.version (int32 0) then err invalid_revision else ok tt)
    current ← from_store D (Store.last D req.name)
    previous ← from_store D (Store.get D req.name (previous_version req current))
    now ← current_time D env
    pure (current, target_release req now current previous)

  unfoldable pub supersede_all : List Release → Server D → Server D
  unfolding record_release
  supersede_all [] s = s
  supersede_all (r ∷ rs) s = supersede_all rs (record_release D (set_status superseded r) true s)

  -- the deployed releases, which are superseded; there may be none
  unfoldable pub supersede_deployed : Release → Result (List Release) → Action D Release
  unfolding supersede_all mentions
  supersede_deployed target (ok rs) = λ s. (ok (set_status deployed target), supersede_all rs s)
  supersede_deployed target (err e) =
      if mentions (codes "has no deployed releases") e
      then pure (set_status deployed target)
      else raise e

  -- after the cluster was updated
  unfoldable pub finish_rollback : Release → Release → Action D Release
  unfolding supersede_deployed Store.deployed_all
  finish_rollback current target = do
    recorded D (set_status superseded current) true
    others ← attempt (from_store D (Store.deployed_all D current.name))
    supersede_deployed target others

  unfoldable pub fail_rollback : Release → Release → Error → Action D Release
  fail_rollback current target e = do
    recorded D (set_status superseded current) true
    recorded D
        (set_description
          (codes "Rollback " ++ (quote target.name ++ (codes " failed: " ++ message e)))
          (set_status failed target))
        true
    raise e

  unfoldable pub cluster_updated :
      Release → Release → RollbackRequest → Result (Unit {0}) → Action D Release
  unfolding finish_rollback fail_rollback
  cluster_updated current target req (err e) = fail_rollback current target e
  cluster_updated current target req (ok _) = do
    after ← hooks_unless D env req.disable_hooks target (codes "post-rollback") req.timeout
    target ← or_fail D env after
    finish_rollback current target

  -- performRollback, where the request is no dry run
  unfoldable pub run_rollback : Release → Release → RollbackRequest → Action D Release
  unfolding cluster_updated module_update
  run_rollback current target req = do
    before ← hooks_unless D env req.disable_hooks target (codes "pre-rollback") req.timeout
    target ← or_fail D env before
    updated ← attempt (
        module_update D env current target (record {
          force = req.force;
          recreate = req.recreate;
          timeout = req.timeout;
          should_wait = req.wait;
          cleanup_on_fail = req.cleanup_on_fail;
        }))
    cluster_updated current target req updated

  -- performRollback
  unfoldable pub perform_rollback : Release → Release → RollbackRequest → Action D Release
  unfolding run_rollback
  perform_rollback current target req =
      if req.dry_run then pure target else run_rollback current target req

  -- `if !req.DryRun` around an operation of the store
  abbrev pub unless_dry : Bool → Action D (Unit {0}) → Action D (Unit {0})
  unless_dry dry_run m = if dry_run then pure tt else m

  -- RollbackRelease
  unfoldable pub rollback_release : RollbackRequest → Action D Release
  unfolding prepare_rollback perform_rollback Store.create Store.update
  rollback_release req = do
    (current, target) ← prepare_rollback req
    unless_dry req.dry_run (on_store D (Store.create D target))
    target ← perform_rollback current target req
    unless_dry req.dry_run (on_store D (Store.update D target))
    pure target
