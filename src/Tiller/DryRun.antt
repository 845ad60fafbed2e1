-- ===== src/Tiller/DryRun.antt =====
-- A dry run of an operation: what it leaves as it was.
use helm.Common.{
  Bool, true, ◌≡◌, refl, sym, ap, ◌∙◌, List, [], ◌∷◌, ◌++◌, append_assoc, append-nil, All,
  All-append, Bytes, Option, none, some,
}
use helm.Release.{Release, Chart}
use helm.Result.{Result, ok, err}
use helm.Result.Frame.{IsFrame, Keeps, >>=-Keeps, if-Keeps, Yields, >>=-Yields, >>=-Keeps_yielding}
use helm.Storage.Driver.{Driver}
use helm.Tiller.Server.{
  Env, Server, Call, kube_validate, server_version, discover_resources, kube, validate_manifest,
  versions_found, capabilities,
}
use helm.Tiller.Rollback.{RollbackRequest, rollback_release, prepare_rollback, perform_rollback}
use helm.Tiller.Install.{
  InstallRequest, install_release, prepare_release, perform_release, dry_install, install_prepared,
  prepare_chart, prepare_named, render_named,
}
use helm.Tiller.Upgrade.Reuse.{reuse_values-IsRevalued}
use helm.Tiller.Update.{
  update_release, prepare_reused, prepare_current, prepare_with, prepare_checked, render_update,
  reused_chart, update_prepared, force_prepared, prepare_update, update_with, perform_update,
  perform_update_force,
}
use helm.Tiller.Upgrade.{reuse_values, UpdateRequest, install_request}

-- The call only reads: it validates a manifest, or asks for the versions of the API server.
abbrev pub IsQuery : Call → Type 0
IsQuery (kube_validate ns manifest) = Unit {0}
IsQuery server_version = Unit {0}
IsQuery discover_resources = Unit {0}
IsQuery _ = ⊥

module _ (D : Driver) where
  -- The store is as it was, and the cluster was asked to validate manifests and for its versions at
  -- most.
  pub record IsDry (s t : Server D) : Type 0 where
    pub same_store : t.store ≡ s.store
    pub added : List Call
    pub asked : t.calls ≡ s.calls ++ added
    pub queries : All IsQuery added

  dry : IsFrame IsDry
  dry = record {
    rfl = λ s. record {
      same_store = refl;
      added = [];
      asked = sym (append-nil s.calls);
      queries = tt;
    };
    trans = λ s t u h k. record {
      same_store = k.same_store ∙ h.same_store;
      added = h.added ++ k.added;
      asked = k.asked ∙ (ap (λ cs. cs ++ k.added) h.asked ∙ append_assoc s.calls h.added k.added);
      queries = All-append IsQuery h.added k.added h.queries k.queries;
    };
  }

  abbrev Same : Server D → Server D → Type 0
  Same s t = t ≡ s

  same : IsFrame Same
  same = record { rfl = λ s. refl; trans = λ s t u h k. k ∙ h }

  module _ (env : Env) where
    read-Keeps : {A : Type 0} (f : Server D → Result A) → Keeps IsDry (λ s. (f s, s))
    read-Keeps f s = dry.rfl s

    validate-Keeps : (ns manifest : Bytes) → Keeps IsDry (validate_manifest D env ns manifest)
    unfolding validate_manifest kube
    validate-Keeps ns manifest s = record {
      same_store = refl;
      added = kube_validate ns manifest ∷ [];
      asked = refl;
      queries = (tt, tt);
    }

    query-Keeps : (c : Call) → IsQuery c → Keeps IsDry (kube D env c)
    unfolding kube
    query-Keeps c query s = record {
      same_store = refl;
      added = c ∷ [];
      asked = refl;
      queries = (query, tt);
    }

    versions_found-Keeps : (r : Result (Unit {0})) → Keeps IsDry (versions_found D env r)
    versions_found-Keeps (ok _) = dry.rfl
    versions_found-Keeps (err e) = dry.rfl

    capabilities-Keeps : Keeps IsDry (capabilities D env)
    unfolding capabilities
    capabilities-Keeps =
        >>=-Keeps dry _ _ (query-Keeps server_version tt)
          λ _. >>=-Keeps dry _ _ (query-Keeps discover_resources tt) versions_found-Keeps

    module _ {R : Server D → Server D → Type 0} (frame : IsFrame R) where
      prepare_rollback-Keeps : (req : RollbackRequest) → Keeps R (prepare_rollback D env req)
      unfolding prepare_rollback
      prepare_rollback-Keeps req = >>=-Keeps frame _ _ frame.rfl λ _.
          >>=-Keeps frame _ _ frame.rfl λ _.
            >>=-Keeps frame _ _ frame.rfl
              λ _. >>=-Keeps frame _ _ frame.rfl λ _. >>=-Keeps frame _ _ frame.rfl λ _. frame.rfl

      rollback-Keeps :
          (req : RollbackRequest) → req.dry_run ≡ true → Keeps R (rollback_release D env req)
      unfolding rollback_release perform_rollback
      rollback-Keeps req dry_run = rw dry_run (
          >>=-Keeps frame _ _ (prepare_rollback-Keeps req) λ _.
            >>=-Keeps frame _ _ frame.rfl
              λ _. >>=-Keeps frame _ _ frame.rfl λ _. >>=-Keeps frame _ _ frame.rfl λ _. frame.rfl)

    -- A dry run of a rollback changes nothing: not the store, and the cluster is not called.
    pub rollback_dry :
        (req : RollbackRequest) (s : Server D)
        → req.dry_run ≡ true
        → (rollback_release D env req s).1 ≡ s
    rollback_dry req s dry_run = rollback-Keeps same req dry_run s

    dry_install-Keeps : (r : Release) (req : InstallRequest) → Keeps IsDry (dry_install D env r req)
    unfolding dry_install
    dry_install-Keeps r req =
        if-Keeps dry _ _ _ dry.rfl
          (>>=-Keeps dry _ _ (validate-Keeps req.namespace r.manifest) λ _. dry.rfl)

    install_prepared-Keeps :
        (req : InstallRequest) (s : Server D) (p : Result Release × Bytes)
        → req.dry_run ≡ true
        → IsDry s (install_prepared D env req p s).1
    unfolding install_prepared perform_release
    install_prepared-Keeps req s (err e, text) dry_run = dry.rfl s
    install_prepared-Keeps req s (ok r, text) dry_run = rw dry_run (dry_install-Keeps r req s)

    render_named-Keeps :
        (req : InstallRequest) (chart : Chart) (name : Bytes) (r : Result (Unit {0})) (s : Server D)
        → IsDry s (render_named D env req chart name r s).1
    unfolding render_named
    render_named-Keeps req chart name (ok _) s = dry.rfl s
    render_named-Keeps req chart name (err e) s = dry.rfl s

    prepare_named-Keeps :
        (req : InstallRequest) (chart : Chart) (r : Result Bytes) (s : Server D)
        → IsDry s (prepare_named D env req chart r s).1
    unfolding prepare_named
    prepare_named-Keeps req chart (err e) s = dry.rfl s
    prepare_named-Keeps req chart (ok name) s =
        dry.trans s (capabilities D env s).1 _ (capabilities-Keeps s)
          (render_named-Keeps req chart name (capabilities D env s).0 (capabilities D env s).1)

    prepare_chart-Keeps :
        (req : InstallRequest) (chart : Option Chart) (s : Server D)
        → IsDry s (prepare_chart D env req chart s).1
    unfolding prepare_chart
    prepare_chart-Keeps req none s = dry.rfl s
    prepare_chart-Keeps req (some chart) s = prepare_named-Keeps req chart _ s

    prepare_release-Keeps :
        (req : InstallRequest) (s : Server D) → IsDry s (prepare_release D env req s).1
    unfolding prepare_release
    prepare_release-Keeps req s = prepare_chart-Keeps req req.chart s

    -- A dry run of an install keeps the store, and asks the cluster at most to validate manifests and
    -- for the versions that the API server has and serves.
    pub install-IsDry :
        (req : InstallRequest) (s : Server D)
        → req.dry_run ≡ true
        → IsDry s (install_release D env req s).1
    unfolding install_release
    install-IsDry req s dry_run =
        let prepared = prepare_release D env req s in
        dry.trans s prepared.1 _ (prepare_release-Keeps req s)
          (install_prepared-Keeps req prepared.1 prepared.0 dry_run)

    render_update-Keeps :
        (req : UpdateRequest) (chart : Chart) (current last : Release)
        → Keeps IsDry (render_update D env req chart current last)
    unfolding render_update
    render_update-Keeps req chart current last = >>=-Keeps dry _ _ dry.rfl λ _.
        >>=-Keeps dry _ _ capabilities-Keeps λ _. >>=-Keeps dry _ _ dry.rfl λ rendered.
          >>=-Keeps dry _ _ (validate-Keeps current.namespace rendered.manifest) λ _. dry.rfl

    prepare_reused-Keeps :
        (req : UpdateRequest) (chart : Chart) (current : Release)
        → Keeps IsDry (prepare_reused D env req chart current)
    unfolding prepare_reused
    prepare_reused-Keeps req chart current =
        >>=-Keeps dry _ _ dry.rfl
          λ last. >>=-Keeps dry _ _ dry.rfl λ _. render_update-Keeps req chart current last

    prepare_checked-Keeps :
        (chart : Chart) (current : Release) (r : Result (Unit {0}) × UpdateRequest)
        → Keeps IsDry (prepare_checked D env chart current r)
    unfolding prepare_checked
    prepare_checked-Keeps chart current (err e, req) = dry.rfl
    prepare_checked-Keeps chart current (ok _, req) =
        >>=-Keeps dry _ _ (prepare_reused-Keeps req (reused_chart D env req chart) current)
          λ _. dry.rfl

    prepare_current-Keeps :
        (req : UpdateRequest) (chart : Chart) (r : Result Release)
        → Keeps IsDry (prepare_current D env req chart r)
    unfolding prepare_current
    prepare_current-Keeps req chart (err e) = dry.rfl
    prepare_current-Keeps req chart (ok current) =
        prepare_checked-Keeps chart current (reuse_values env req current)

    prepare_with-Keeps :
        (req : UpdateRequest) (chart : Option Chart) → Keeps IsDry (prepare_with D env req chart)
    unfolding prepare_with
    prepare_with-Keeps req none = dry.rfl
    prepare_with-Keeps req (some chart) =
        >>=-Keeps dry _ _ dry.rfl λ current. prepare_current-Keeps req chart current

    abbrev SameMode : UpdateRequest → Result (Release × Release) × UpdateRequest → Type 0
    SameMode req p = p.1.dry_run ≡ req.dry_run

    reuse_values_mode :
        (req : UpdateRequest) (current : Release)
        → (reuse_values env req current).1.dry_run ≡ req.dry_run
    reuse_values_mode req current =
        let (chart, values, e) = reuse_values-IsRevalued env req current in ap (λ q. q.dry_run) e

    checked_mode :
        (mode : Bool) (chart : Chart) (current : Release) (r : Result (Unit {0}) × UpdateRequest)
        (s : Server D)
        → r.1.dry_run ≡ mode
        → Yields (λ p. p.1.dry_run ≡ mode) (prepare_checked D env chart current r s).0
    unfolding prepare_checked
    checked_mode mode chart current (err e, req) s h = h
    checked_mode mode chart current (ok _, req) s h = >>=-Yields _ _ _ s λ _ _. h

    current_mode :
        (req : UpdateRequest) (chart : Chart) (r : Result Release) (s : Server D)
        → Yields (SameMode req) (prepare_current D env req chart r s).0
    unfolding prepare_current
    current_mode req chart (err e) s = refl
    current_mode req chart (ok current) s =
        checked_mode req.dry_run chart current (reuse_values env req current) s
          (reuse_values_mode req current)

    prepare_mode :
        (req : UpdateRequest) (chart : Option Chart) (s : Server D)
        → Yields (SameMode req) (prepare_with D env req chart s).0
    unfolding prepare_with
    prepare_mode req none s = refl
    prepare_mode req (some chart) s = >>=-Yields _ _ _ s λ r t. current_mode req chart r t

    force_prepared-Keeps :
        (req : UpdateRequest) (old : Release) (p : Result Release × Bytes)
        → req.dry_run ≡ true
        → Keeps IsDry (force_prepared D env req old p)
    unfolding force_prepared
    force_prepared-Keeps req old (err e, text) dry_run = dry.rfl
    force_prepared-Keeps req old (ok new, text) dry_run = rw dry_run dry.rfl

    update_prepared-Keeps :
        (req : UpdateRequest) (both : Release × Release)
        → req.dry_run ≡ true
        → Keeps IsDry (update_prepared D env req both)
    unfolding update_prepared perform_update
    update_prepared-Keeps req (current, updated) dry_run = rw dry_run (
        >>=-Keeps dry _ _ dry.rfl
          λ _. >>=-Keeps dry _ _ dry.rfl λ _. >>=-Keeps dry _ _ dry.rfl λ _. dry.rfl)

    update_with-Keeps :
        (req : UpdateRequest) (r : Result (Release × Release))
        → req.dry_run ≡ true
        → Keeps IsDry (update_with D env req r)
    unfolding update_with perform_update_force
    update_with-Keeps req (ok both) dry_run = update_prepared-Keeps req both dry_run
    update_with-Keeps req (err e) dry_run =
        if-Keeps dry _ _ _
          (>>=-Keeps dry _ _ dry.rfl λ old.
            >>=-Keeps dry _ _ (prepare_release-Keeps (install_request req old))
              λ p. force_prepared-Keeps req old p dry_run)
          dry.rfl

    -- A dry run of an update, also with Force, keeps the store, and asks the cluster at most to
    -- validate manifests and for the versions that the API server has and serves.
    pub update-IsDry :
        (req : UpdateRequest) (s : Server D)
        → req.dry_run ≡ true
        → IsDry s (update_release D env req s).1
    unfolding update_release prepare_update
    update-IsDry req s dry_run =
        (>>=-Keeps dry _ _ dry.rfl λ _.
            >>=-Keeps_yielding dry (SameMode req) _ _ (prepare_with-Keeps req req.chart)
              (prepare_mode req req.chart) λ p mode. update_with-Keeps p.1 p.0 (mode ∙ dry_run))
          s
