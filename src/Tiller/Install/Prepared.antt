-- ===== src/Tiller/Install/Prepared.antt =====
-- Where the release of an install comes from: prepareRelease.
use helm.Common.{ap, sym, ◌∙◌, true, false, ◌≡◌, refl, Bytes, Option, none, some}
use helm.Common.Decimal.{int32}
use helm.Release.{pending_install, Release, Chart}
use helm.Result.{Result, ok, err}
use helm.Storage.Driver.{Driver}
use helm.Tiller.Server.{ReleaseOptions, Env, Server, Rendered, capabilities}
use helm.Tiller.Hooks.Frame.{capabilities-Keeps}
use helm.Tiller.Names.{uniq_name}
use helm.Tiller.Install.{
  InstallRequest, initial_release, prepare_chart, prepare_named, built, render_named,
}

module _ (D : Driver) (env : Env) (req : InstallRequest) where
  -- the options of the rendering
  abbrev pub install_options : Bytes → Server D → ReleaseOptions
  install_options name s = record {
    name = name;
    time = env.now s.calls;
    namespace = req.namespace;
    is_upgrade = false;
    is_install = true;
    revision = int32 1;
  }

  -- Where the release came from: a name that is free, and the chart as it is rendered once the
  -- capabilities have been asked for.
  pub record IsPrepared (s t : Server D) (r : Release) : Type 0 where
    pub name : Bytes
    pub rendered : Rendered
    pub text : Bytes
    pub chart : Chart
    pub named : uniq_name D env req.name req.reuse_name s ≡ ok name
    pub given : req.chart ≡ some chart
    pub was_rendered :
        env.render t.calls chart req.values req.sub_notes (install_options name t)
        ≡ (ok rendered, text)
    pub asked : capabilities D env s ≡ (ok tt, t)
    pub same_store : t.store ≡ s.store
    pub same_name : r.name ≡ name
    pub same_namespace : r.namespace ≡ req.namespace
    pub same_chart : r.chart ≡ req.chart
    pub same_config : r.config ≡ req.values
    pub same_manifest : r.manifest ≡ rendered.manifest
    pub same_hooks : r.hooks ≡ rendered.hooks
    pub same_notes : r.info.notes ≡ rendered.notes
    pub first_version : r.version ≡ int32 1
    pub not_yet_deployed : r.info.code ≡ pending_install

  abbrev pub FromPrepared : Server D → (Result Release × Bytes) × Server D → Type 0
  FromPrepared s ((ok r, text), t) = IsPrepared s t r
  FromPrepared s ((err e, text), t) = Unit {0}

  module _ (chart : Chart) (given : req.chart ≡ some chart) (s : Server D) where
    built-FromPrepared :
        (name : Bytes) (t : Server D) (x : Result Rendered × Bytes)
        → uniq_name D env req.name req.reuse_name s ≡ ok name
        → capabilities D env s ≡ (ok tt, t)
        → env.render t.calls chart req.values req.sub_notes (install_options name t) ≡ x
        → FromPrepared s (built D env req name (env.now t.calls) x, t)
    unfolding initial_release
    built-FromPrepared name t (ok rendered, text) named asked shown = record {
      name = name;
      rendered = rendered;
      text = text;
      chart = chart;
      named = named;
      given = given;
      was_rendered = shown;
      asked = asked;
      same_store = sym (ap (λ x. x.1.store) asked) ∙ capabilities-Keeps D env s;
      same_name = refl;
      same_namespace = refl;
      same_chart = refl;
      same_config = refl;
      same_manifest = refl;
      same_hooks = refl;
      same_notes = refl;
      first_version = refl;
      not_yet_deployed = refl;
    }
    built-FromPrepared name t (err e, text) named asked shown = tt

    render_named-FromPrepared :
        (name : Bytes) (x : Result (Unit {0})) (t : Server D)
        → uniq_name D env req.name req.reuse_name s ≡ ok name
        → capabilities D env s ≡ (x, t)
        → FromPrepared s (render_named D env req chart name x t)
    unfolding render_named
    render_named-FromPrepared name (err e) t named asked = tt
    render_named-FromPrepared name (ok _) t named asked =
        built-FromPrepared name t _ named asked refl

    prepare_named-FromPrepared :
        (x : Result Bytes)
        → uniq_name D env req.name req.reuse_name s ≡ x
        → FromPrepared s (prepare_named D env req chart x s)
    unfolding prepare_named
    prepare_named-FromPrepared (err e) named = tt
    prepare_named-FromPrepared (ok name) named = render_named-FromPrepared name _ _ named refl

  pub prepare_chart-FromPrepared :
      (chart : Option Chart) (s : Server D)
      → req.chart ≡ chart
      → FromPrepared s (prepare_chart D env req chart s)
  unfolding prepare_chart
  prepare_chart-FromPrepared none s given = tt
  prepare_chart-FromPrepared (some chart) s given = prepare_named-FromPrepared chart given s _ refl
