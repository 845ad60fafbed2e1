-- ===== src/Tiller/Update/Prepared.antt =====
-- What prepareUpdate makes an update of.
use helm.Common.{
  ℕ, arith, Bool, true, false, if◌then◌else◌, ◌≡◌, refl, sym, ap, ◌∙◌, subst, Option, none, some,
}
use helm.Common.Decimal.{succ32}
use helm.Release.{Release, Chart}
use helm.Result.{Result, ok, err, pending, ◌>>=◌}
use helm.Result.Ends.{Ends, >>=-Ends_any, reads-Ends}
use helm.Storage.Driver.{Driver}
use helm.Storage.Store
use helm.Storage.Store.{Store}
use helm.Tiller.Server.{Env, Server, Rendered, capabilities}
use helm.Tiller.Upgrade.{UpdateRequest, reuse_values, is_pending, updated_release}
use helm.Tiller.Upgrade.Reuse.{
  IsRevalued, reuse_values-IsRevalued, IsReused, reuse_values-IsReused, IsReused-chart,
}
use helm.Tiller.Update.{
  render_update, prepare_reused, prepare_checked, prepare_current, prepare_with, reused_chart,
}

module _ (D : Driver) (env : Env) (req : UpdateRequest) (s : Server D) where
  -- The update was made of the deployed release, of the last one, which is not pending, and of the
  -- chart in use, as it is rendered once the capabilities have been asked for.
  pub record IsPrepared (q : UpdateRequest) (current update : Release) : Type 0 where
    pub last : Release
    pub was_last : Store.last D req.name s.store ≡ ok last
    pub unlocked : is_pending last.info.code ≡ false
    pub name : update.name ≡ req.name
    pub version : update.version ≡ succ32 last.version
    pub chart : update.chart ≡ q.chart
    pub config : update.config ≡ q.values
    pub namespace : update.namespace ≡ current.namespace
    pub source : Chart
    pub given : q.chart ≡ some source
    pub known : Server D
    pub asked : capabilities D env s ≡ (ok tt, known)
    pub rendered : Rendered
    pub was_rendered :
        (env.render known.calls source q.values q.sub_notes (record {
          name = q.name;
          time = env.now s.calls;
          namespace = current.namespace;
          is_upgrade = true;
          is_install = false;
          revision = succ32 last.version;
        })).0
        ≡ ok rendered
    pub manifest : update.manifest ≡ rendered.manifest
    pub hooks : update.hooks ≡ rendered.hooks
    pub notes : update.info.notes ≡ rendered.notes

  unlocked_if : (b : Bool) (u : Unit {0}) → (if b then err pending else ok tt) ≡ ok u → b ≡ false
  unlocked_if true u h = cc
  unlocked_if false u h = refl

  same_time : {n m : ℕ} → ok n ≡ ok m → n ≡ m
  same_time h = ground arith

  prepare_reused-Ends :
      (q : UpdateRequest) (chart : Chart) (current : Release)
      → q.name ≡ req.name
      → q.chart ≡ some chart
      → Ends
          (λ p t. (p.0 ≡ current) × IsPrepared q current p.1)
          (prepare_reused D env q chart current s)
  unfolding prepare_reused render_update updated_release
  prepare_reused-Ends q chart current same given =
      let Q : Release × Release → Server D → Type 0 =
        λ p t. (p.0 ≡ current) × IsPrepared q current p.1 in
      reads-Ends Q (λ t. Store.last D q.name t.store) _ s
        λ last found.
          reads-Ends Q (λ _. if is_pending last.info.code then err pending else ok tt) _ s
            λ u free.
              reads-Ends Q (λ t. ok (env.now t.calls)) _ s
                λ now at_now. >>=-Ends_any Q _ _ s λ _ known asked.
                  reads-Ends Q
                    (λ t.
                      (env.render t.calls chart q.values q.sub_notes (record {
                        name = q.name;
                        time = now;
                        namespace = current.namespace;
                        is_upgrade = true;
                        is_install = false;
                        revision = succ32 last.version;
                      })).0)
                    _ known
                    λ rendered shown. >>=-Ends_any Q _ _ known λ _ v _. (
                      refl,
                      record {
                        source = chart;
                        given = given;
                        known = known;
                        asked = asked;
                        rendered = rendered;
                        was_rendered =
                            subst
                              (λ n.
                                (env.render known.calls chart q.values q.sub_notes (record {
                                  name = q.name;
                                  time = n;
                                  namespace = current.namespace;
                                  is_upgrade = true;
                                  is_install = false;
                                  revision = succ32 last.version;
                                })).0
                                ≡ ok rendered)
                              (sym (same_time at_now)) shown;
                        manifest = refl;
                        hooks = refl;
                        notes = refl;
                        last = last;
                        was_last = subst (λ n. Store.last D n s.store ≡ ok last) same found;
                        unlocked = unlocked_if (is_pending last.info.code) u free;
                        name = same;
                        version = refl;
                        chart = refl;
                        config = refl;
                        namespace = refl;
                      },
                    )

  -- what the preparation leaves: the request with other values, and the releases where it succeeded
  abbrev pub Prepared : Result (Release × Release) × UpdateRequest → Server D → Type 0
  Prepared (ok (current, update), q) t =
      IsRevalued req q
      × IsReused env req current q
      × (Store.deployed_release D req.name s.store ≡ ok current)
      × IsPrepared q current update
  Prepared (err e, q) t = IsRevalued req q

  source_of :
      (chart : Chart) (o : Option Chart)
      → ((c : Chart) × (o ≡ some c))
      → o ≡ some (elim o [ none ↦ chart | some c ↦ c ])
  source_of chart none (c, h) = cc
  source_of chart (some d) h = refl

  module _ (current : Release)
      (deployed : Store.deployed_release D req.name s.store ≡ ok current) where
    pair-Prepared :
        (q : UpdateRequest) (x : Result (Release × Release) × Server D)
        → IsRevalued req q
        → IsReused env req current q
        → Ends (λ p t. (p.0 ≡ current) × IsPrepared q current p.1) x
        → Prepared (x.0, q) x.1
    pair-Prepared q (ok (c, u), t) h v (e, k) = (
      h,
      subst (λ r. IsReused env req r q) (sym e) v,
      deployed ∙ ap (λ r. ok r) (sym e),
      subst (λ r. IsPrepared q r u) (sym e) k,
    )
    pair-Prepared q (err e, t) h v k = h

    prepare_checked-Ends :
        (chart : Chart) (x : Result (Unit {0}) × UpdateRequest)
        → req.chart ≡ some chart
        → reuse_values env req current ≡ x
        → IsRevalued req x.1
        → Ends Prepared (prepare_checked D env chart current x s)
    unfolding prepare_checked reused_chart ◌>>=◌
    prepare_checked-Ends chart (err e, q) given x h = h
    prepare_checked-Ends chart (ok _, q) given x h =
        let (c, v, e) = h in
        let used = reuse_values-IsReused env req current q x in
        pair-Prepared q (prepare_reused D env q (reused_chart D env q chart) current s) h used (
          prepare_reused-Ends q (reused_chart D env q chart) current (ap (λ r. r.name) e)
            (source_of chart q.chart (IsReused-chart env req current q chart given used)))

  prepare_current-Ends :
      (chart : Chart) (x : Result Release)
      → req.chart ≡ some chart
      → Store.deployed_release D req.name s.store ≡ x
      → Ends Prepared (prepare_current D env req chart x s)
  unfolding prepare_current
  prepare_current-Ends chart (err e) given h = (req.chart, req.values, refl)
  prepare_current-Ends chart (ok current) given h =
      prepare_checked-Ends current h chart (reuse_values env req current) given refl
        (reuse_values-IsRevalued env req current)

  pub prepare_with-Ends :
      (ch : Option Chart) → req.chart ≡ ch → Ends Prepared (prepare_with D env req ch s)
  unfolding prepare_with ◌>>=◌
  prepare_with-Ends none given = (req.chart, req.values, refl)
  prepare_with-Ends (some chart) given =
      prepare_current-Ends chart (Store.deployed_release D req.name s.store) given refl
