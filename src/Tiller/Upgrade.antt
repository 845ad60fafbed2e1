-- ===== src/Tiller/Upgrade.antt =====
-- The requests to update a release, and the releases made of them: pkg/tiller/release_update.go, and
-- reuseValues of pkg/tiller/release_server.go.
pub mod Reuse
use helm.Common.{
  ℕ, Bytes, codes, Bool, true, false, if◌then◌else◌, ◌&&◌, ◌||◌, not, Option, none, some, List, [],
  ◌∷◌, ◌++◌, map, length,
}
use helm.Common.Text.{eqb}
use helm.Common.Decimal.{Int64, succ32}
use helm.Release.{
  Release, Chart, Status, Timestamp, status_eq, superseded, failed, deployed, deleted,
  pending_install, pending_upgrade, pending_rollback, set_status, set_description,
}
use helm.Result.{
  Error, Result, ok, err, Exec, pure, raise, lift, attempt, message, quote, missing_chart, pending,
  nil_pointer, force_delete_failed, ◌>>=◌, ◌>>◌,
}
use helm.Storage.Driver.{Driver}
use helm.Storage.Store
use helm.Tiller.Server.{
  Env, Server, Action, Rendered, UpdateOptions, on_store, from_store, recorded, current_time,
  validate_manifest, validate_release_name,
}
use helm.Tiller.Hooks.{hooks_unless, or_fail}
use helm.Tiller.Modules.{module_update, module_delete}
use helm.Tiller.Install.{InstallRequest, prepare_release, with_manifest, described}
use helm.Tiller.Rollback.{unless_dry}
use helm.Tiller.Uninstall.{deleting_release, join}

-- services.UpdateReleaseRequest
pub record UpdateRequest : Type 0 where
  pub name : Bytes
  pub chart : Option Chart
  pub values : Option Bytes
  pub dry_run : Bool
  pub disable_hooks : Bool
  pub recreate : Bool
  pub timeout : Int64
  pub reset_values : Bool
  pub wait : Bool
  pub reuse_values : Bool
  pub force : Bool
  pub description : Bytes
  pub sub_notes : Bool
  pub cleanup_on_fail : Bool

-- no values, or the YAML of none
unfoldable pub no_values : Option Bytes → Bool
unfolding eqb
no_values none = true
no_values (some raw) = eqb raw [] || eqb raw (codes "{}\n")

abbrev pub config_of : Release → Option Bytes
config_of r = if no_values r.config then none else r.config

abbrev pub set_chart_values : Bytes → Option Chart → Option Chart
set_chart_values nv none = none
set_chart_values nv (some c) = some (record c { values = some nv })

module _ (env : Env) where
  abbrev pub put_values : UpdateRequest → Result Bytes → Result (Unit {0}) × UpdateRequest
  put_values req (err e) = (err e, req)
  put_values req (ok merged) = (ok tt, record req { values = some merged })

  unfoldable pub merge_values :
      UpdateRequest → Release → Option Bytes → Result (Unit {0}) × UpdateRequest
  unfolding no_values
  merge_values req current none = (err nil_pointer, req)
  merge_values req current (some raw) = put_values req (env.merged_yaml (config_of current) raw)

  abbrev pub carry_with : UpdateRequest → Release → Result Bytes → Result (Unit {0}) × UpdateRequest
  carry_with req current (err e) = (err e, req)
  carry_with req current (ok nv) =
      merge_values (record req { chart = set_chart_values nv req.chart }) current req.values

  -- the branch of ReuseValues
  unfoldable pub carry_values : UpdateRequest → Release → Result (Unit {0}) × UpdateRequest
  unfolding merge_values
  carry_values req current =
      carry_with req current (env.coalesced_yaml current.chart current.config)

  -- reuseValues: its error, and the request, which it changes in place
  unfoldable pub reuse_values : UpdateRequest → Release → Result (Unit {0}) × UpdateRequest
  unfolding carry_values no_values
  reuse_values req current =
      if req.reset_values
      then (ok tt, req)
      else (if req.reuse_values
          then carry_values req current
          else (if no_values req.values && not (no_values current.config)
              then (ok tt, record req { values = current.config })
              else (ok tt, req)))

abbrev pub is_pending : Status → Bool
is_pending sc =
    status_eq sc pending_install || (status_eq sc pending_upgrade || status_eq sc pending_rollback)

-- the release that prepareUpdate builds
unfoldable pub updated_release : UpdateRequest → Timestamp → Release → Release → Rendered → Release
updated_release req ts current last rendered = record {
  name = req.name;
  info = record {
    code = pending_upgrade;
    notes = rendered.notes;
    first_deployed = current.info.first_deployed;
    last_deployed = ts;
    deleted_at = none;
    description = codes "Preparing upgrade";
  };
  chart = req.chart;
  config = req.values;
  manifest = rendered.manifest;
  hooks = rendered.hooks;
  version = succ32 last.version;
  namespace = current.namespace;
}

-- the request that performUpdateForce makes to prepareRelease
unfoldable pub install_request : UpdateRequest → Release → InstallRequest
install_request req old = record {
  chart = req.chart;
  values = req.values;
  dry_run = req.dry_run;
  name = req.name;
  disable_hooks = req.disable_hooks;
  namespace = old.namespace;
  reuse_name = true;
  timeout = req.timeout;
  wait = req.wait;
  disable_crd_hook = false;
  description = [];
  sub_notes = false;
}

abbrev pub options : UpdateRequest → UpdateOptions
options req = record {
  force = req.force;
  recreate = req.recreate;
  timeout = req.timeout;
  should_wait = req.wait;
  cleanup_on_fail = req.cleanup_on_fail;
}
