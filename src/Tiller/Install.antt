-- ===== src/Tiller/Install.antt =====
-- pkg/tiller/release_install.go. gRPC drops a response that comes with an error, so an operation
-- that fails returns its error alone.
pub mod Prepared
pub mod Outcome
use helm.Common.{
  Bytes, codes, Bool, true, false, if◌then◌else◌, ◌&&◌, ◌||◌, not, Option, none, some, List, [],
  ◌∷◌, ◌++◌,
}
use helm.Common.Text.{has_prefix}
use helm.Common.Decimal.{Int64, int32, succ32}
use helm.Release.{
  Release, Hook, HookEvent, Chart, Timestamp, event_eq, crd_install, superseded, failed, deployed,
  pending_install, set_status, set_description,
}
use helm.Result.{
  Error, Result, ok, err, Exec, pure, raise, attempt, external, message, quote, missing_chart,
  validation_failed, install_failed, ◌>>=◌, ◌>>◌,
}
use helm.Releaseutil.Sorter.{sort_by_revision, reverse_by}
use helm.Storage.Driver.{Driver}
use helm.Storage.Store
use helm.Tiller.Server.{
  Env, Server, Action, Rendered, ReleaseOptions, from_store, recorded, current_time,
  validate_manifest, capabilities,
}
use helm.Tiller.Hooks.{hooks_unless, or_fail}
use helm.Tiller.Names.{uniq_name}
use helm.Tiller.Modules.{module_create, module_update}

-- services.InstallReleaseRequest
pub record InstallRequest : Type 0 where
  pub chart : Option Chart
  pub values : Option Bytes
  pub dry_run : Bool
  pub name : Bytes
  pub disable_hooks : Bool
  pub namespace : Bytes
  pub reuse_name : Bool
  pub timeout : Int64
  pub wait : Bool
  pub disable_crd_hook : Bool
  pub description : Bytes
  pub sub_notes : Bool

has_event : HookEvent → List HookEvent → Bool
has_event code [] = false
has_event code (e ∷ es) = if event_eq e code then true else has_event code es

-- hasCRDHook
unfoldable pub has_crd_hook : List Hook → Bool
unfolding has_event
has_crd_hook [] = false
has_crd_hook (h ∷ hs) = if has_event crd_install h.events then true else has_crd_hook hs

-- the release that prepareRelease builds
unfoldable pub initial_release : InstallRequest → Bytes → Timestamp → Rendered → Release
initial_release req name ts rendered = record {
  name = name;
  info = record {
    code = pending_install;
    notes = rendered.notes;
    first_deployed = ts;
    last_deployed = ts;
    deleted_at = none;
    description = codes "Initial install underway";
  };
  chart = req.chart;
  config = req.values;
  manifest = rendered.manifest;
  hooks = rendered.hooks;
  version = int32 1;
  namespace = req.namespace;
}

-- An error of the preparation. Where the dry run of a chart shows a YAML error, the text that was
-- rendered is added.
unfoldable pub with_manifest : Bool → Bytes → Error → Error
with_manifest dry_run manifest e =
    if dry_run && has_prefix (message e) (codes "YAML parse error")
    then external (message e ++ (codes "\n" ++ manifest))
    else e

abbrev pub described : Bytes → Bytes → Bytes
described [] default_text = default_text
described (c ∷ s) default_text = c ∷ s

module _ (D : Driver) (env : Env) where
  abbrev pub built :
      InstallRequest → Bytes → Timestamp → Result Rendered × Bytes → Result Release × Bytes
  built req name ts (ok rendered, text) = (ok (initial_release req name ts rendered), text)
  built req name ts (err e, text) = (err e, text)

  -- the rendering of the chart, once the capabilities are known
  unfoldable pub render_named :
      InstallRequest
      → Chart
      → Bytes
      → Result (Unit {0})
      → Server D
      → (Result Release × Bytes) × Server D
  unfolding initial_release
  render_named req chart name (err e) s = ((err e, []), s)
  render_named req chart name (ok _) s =
      let ts = env.now s.calls in
      (
        built req name ts (
            env.render s.calls chart req.values req.sub_notes (record {
              name = name;
              time = ts;
              namespace = req.namespace;
              is_upgrade = false;
              is_install = true;
              revision = int32 1;
            })),
        s,
      )

  unfoldable pub prepare_named :
      InstallRequest → Chart → Result Bytes → Server D → (Result Release × Bytes) × Server D
  unfolding render_named capabilities
  prepare_named req chart (err e) s = ((err e, []), s)
  prepare_named req chart (ok name) s =
      render_named req chart name (capabilities D env s).0 (capabilities D env s).1

  unfoldable pub prepare_chart :
      InstallRequest → Option Chart → Server D → (Result Release × Bytes) × Server D
  unfolding uniq_name prepare_named
  prepare_chart req none s = ((err missing_chart, []), s)
  prepare_chart req (some chart) s =
      prepare_named req chart (uniq_name D env req.name req.reuse_name s) s

  -- prepareRelease: the release or the error, and what was rendered. Nothing is written.
  unfoldable pub prepare_release : InstallRequest → Server D → (Result Release × Bytes) × Server D
  unfolding prepare_chart
  prepare_release req s = prepare_chart req req.chart s

  failed_with : Release → Bytes → Release
  failed_with r msg = set_description msg (set_status failed r)

  unfoldable pub replaced : Release → Release → Result (Unit {0}) → Action D Release
  unfolding failed_with
  replaced old r (ok _) = pure r
  replaced old r (err e) = do
    recorded D old true
    recorded D
        (failed_with r
          (codes "Release replace " ++ (quote r.name ++ (codes " failed: " ++ message e))))
        true
    raise e

  unfoldable pub replace_last : Release → Release → InstallRequest → Action D Release
  unfolding module_update replaced
  replace_last old r req = do
    recorded D old true
    recorded D r false
    updated ← attempt (
        module_update D env old r (record {
          force = false;
          recreate = false;
          timeout = req.timeout;
          should_wait = req.wait;
          cleanup_on_fail = false;
        }))
    replaced old r updated

  -- the branch of a reused name: `last` is the last release of the name
  unfoldable pub replace_release : Release → Release → InstallRequest → Action D Release
  unfolding replace_last
  replace_release last r req =
      replace_last (set_status superseded last) (record r { version = succ32 last.version }) req

  unfoldable pub created : Release → Result (Unit {0}) → Action D Release
  unfolding failed_with
  created r (ok _) = pure r
  created r (err e) = do
    recorded D
        (failed_with r (codes "Release " ++ (quote r.name ++ (codes " failed: " ++ message e))))
        true
    raise (install_failed r.name e)

  -- the branch of a new name
  unfoldable pub create_release : Release → InstallRequest → Action D Release
  unfolding module_create created
  create_release r req = do
    recorded D r false
    done ← attempt (module_create D env r req.timeout req.wait)
    created r done

  unfoldable pub choose : Bool → List Release → Release → InstallRequest → Action D Release
  unfolding replace_release create_release
  choose true (last ∷ h) r req = replace_release last r req
  choose _ _ r req = create_release r req

  unfoldable pub latest_first : Result (List Release) → List Release
  unfolding reverse_by sort_by_revision
  latest_first (ok h) = reverse_by sort_by_revision h
  latest_first (err e) = []

  unfoldable pub finish_install : InstallRequest → Result (Unit {0}) × Release → Action D Release
  unfolding failed_with
  finish_install req (err e, r) = do
    recorded D
        (failed_with r
          (codes "Release " ++ (quote r.name ++ (codes " failed post-install: " ++ message e))))
        true
    raise e
  finish_install req (ok _, r) = do
    let done =
        set_description (described req.description (codes "Install complete"))
          (set_status deployed r)
    recorded D done true
    pure done

  -- performRelease behind the validation of the manifest
  unfoldable pub install_valid : Release → InstallRequest → Result (Unit {0}) → Action D Release
  unfolding choose latest_first finish_install Store.history
  install_valid r req (err e) = raise (validation_failed e)
  install_valid r req (ok _) = do
    before ← hooks_unless D env req.disable_hooks r (codes "pre-install") req.timeout
    r ← or_fail D env before
    h ← attempt (from_store D (Store.history D req.name))
    r ← choose req.reuse_name (latest_first h) r req
    after ← hooks_unless D env req.disable_hooks r (codes "post-install") req.timeout
    finish_install req after

  -- performRelease, where the request is no dry run
  unfoldable pub perform_install : Release → InstallRequest → Action D Release
  unfolding install_valid validate_manifest
  perform_install r req = do
    crds ←
        hooks_unless D env (req.disable_hooks || req.disable_crd_hook) r (codes "crd-install")
          req.timeout
    r ← or_fail D env crds
    valid ← attempt (validate_manifest D env req.namespace r.manifest)
    install_valid r req valid

  unfoldable pub dry_install : Release → InstallRequest → Action D Release
  unfolding has_crd_hook validate_manifest
  dry_install r req =
      if not req.disable_crd_hook && has_crd_hook r.hooks
      then pure (set_description (codes "Validation skipped because CRDs are not installed") r)
      else validate_manifest D env req.namespace r.manifest
        >> pure (set_description (codes "Dry run complete") r)

  -- performRelease
  unfoldable pub perform_release : Release → InstallRequest → Action D Release
  unfolding dry_install perform_install
  perform_release r req = if req.dry_run then dry_install r req else perform_install r req

  -- InstallRelease behind prepareRelease
  unfoldable pub install_prepared : InstallRequest → Result Release × Bytes → Action D Release
  unfolding perform_release with_manifest
  install_prepared req (err e, text) s = (err (with_manifest req.dry_run text e), s)
  install_prepared req (ok r, text) s = perform_release r req s

  -- InstallRelease
  unfoldable pub install_release : InstallRequest → Action D Release
  unfolding prepare_release install_prepared
  install_release req s =
      let (prepared, t) = prepare_release req s in install_prepared req prepared t
