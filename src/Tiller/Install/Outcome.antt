-- ===== src/Tiller/Install/Outcome.antt =====
-- What an install returns when it returns a release.
use helm.Common.{
  ◌||◌, Bool, true, false, ◌≡◌, refl, sym, ap, ◌∙◌, List, [], ◌∷◌, Bytes, codes, ◌⊎◌, inl, inr,
  subst, arith,
}
use helm.Common.Decimal.{Int32, succ32}
use helm.Release.{Release, Hook, deployed, set_status, set_description, superseded}
use helm.Result.{Result, ok, err, attempt, ◌>>=◌}
use helm.Result.Ends.{Ends, Ends-eq, Ends-weaken, >>=-Ends, >>=-Ends_any, if-Ends}
use helm.Releaseutil.Sorter.{sort_by_revision, reverse_by}
use helm.Releaseutil.Latest.{IsLatest, reverse_by-IsLatest, reverse_by-nil}
use helm.Storage.Store
use helm.Storage.Store.{Store}
use helm.Storage.Driver.{Driver}
use helm.Tiller.Server.{Env, Server, record_release, from_store, validate_manifest, kube}
use helm.Tiller.Hooks.Stamped.{
  SameHooks, SameHooks-refl, SameHooks-trans, Kept, hooks_unless-Ends, through_hooks, IsStamped,
  IsStamped-trans,
}
use helm.Tiller.Install.{
  InstallRequest, described, prepare_release, choose, replace_release, create_release, replaced,
  created, finish_install, install_valid, perform_install, perform_release, install_prepared,
  install_release, replace_last, dry_install, latest_first,
}
use helm.Tiller.Install.Prepared.{IsPrepared, FromPrepared, prepare_chart-FromPrepared}

module _ (D : Driver) (env : Env) (req : InstallRequest) where
  -- The name has no history that can be read.
  abbrev pub IsNew : Store D → Type 0
  IsNew st = (hs : List Release) → Store.history D req.name st ≡ ok hs → hs ≡ []

  -- The name may be reused, and the release has the greatest revision of its history.
  abbrev pub IsReplaced : Store D → Release → Type 0
  IsReplaced st old =
      (req.reuse_name ≡ true)
      × (hs : List Release) × (Store.history D req.name st ≡ ok hs)
      × IsLatest hs old

  -- `r'` is `r` with the times of its hooks, and where it replaced the latest release of the name,
  -- with the revision after that one's.
  pub record IsRevised (st : Store D) (r r' : Release) : Type 0 where
    pub hooks : List Hook
    pub same_hooks : SameHooks r.hooks hooks
    pub version : Int32
    pub same : r' ≡ record r { hooks = hooks; version = version }
    pub revision :
        ((version ≡ r.version) × ((req.reuse_name ≡ false) ⊎ IsNew st))
        ⊎ ((old : Release) × IsReplaced st old × (version ≡ succ32 old.version))

  after_stamp :
      (st : Store D) (r r' r'' : Release)
      → IsStamped r r'
      → IsRevised st r' r''
      → IsRevised st r r''
  after_stamp st r r' r'' (hs, a, e) =
      subst (λ q. IsRevised st q r'' → IsRevised st r r'') (sym e)
        λ v. record {
          hooks = v.hooks;
          same_hooks = SameHooks-trans r.hooks hs v.hooks a v.same_hooks;
          version = v.version;
          same = v.same;
          revision = v.revision;
        }

  then_stamp :
      (st : Store D) (r r' r'' : Release)
      → IsRevised st r r'
      → IsStamped r' r''
      → IsRevised st r r''
  then_stamp st r r' r'' v (hs, a, e) =
      let stamp_all : Release → Release = λ q. record q { hooks = hs } in
      record {
        hooks = hs;
        same_hooks =
            SameHooks-trans r.hooks v.hooks hs v.same_hooks
              (subst (λ q. SameHooks q.hooks hs) v.same a);
        version = v.version;
        same = e ∙ ap stamp_all v.same;
        revision = v.revision;
      }

  -- `r'` is `r` revised, the release that was recorded last, and deployed
  pub record IsInstalled (st : Store D) (r : Release) (done : Release) (t : Server D) : Type 0 where
    pub revised : Release
    pub from : IsRevised st r revised
    pub result :
        done
        ≡ set_description
            (described req.description (codes "Install complete"))
            (set_status deployed revised)
    pub before : Server D
    pub stored : t ≡ record_release D done true before

  module _ (st : Store D) (r : Release) where
    abbrev Revised : Release → Server D → Type 0
    Revised r' t = IsRevised st r r'

    created-Ends :
        (P : Release → Server D → Type 0) (r' : Release) (x : Result (Unit {0})) (s : Server D)
        → P r' s
        → Ends P (created D env r' x s)
    unfolding created ◌>>=◌
    created-Ends P r' (ok _) s h = h
    created-Ends P r' (err e) s h = tt

    replaced-Ends :
        (P : Release → Server D → Type 0) (old r' : Release) (x : Result (Unit {0})) (s : Server D)
        → ((t : Server D) → P r' t)
        → Ends P (replaced D env old r' x s)
    unfolding replaced ◌>>=◌
    replaced-Ends P old r' (ok _) s h = h s
    replaced-Ends P old r' (err e) s h = tt

    create_release-Ends :
        (s : Server D)
        → (req.reuse_name ≡ false) ⊎ IsNew st
        → Ends Revised (create_release D env r req s)
    unfolding create_release
    create_release-Ends s new = >>=-Ends_any Revised _ _ s λ _ t _.
        >>=-Ends_any Revised _ _ t λ x u _. created-Ends Revised r x u (record {
          hooks = r.hooks;
          same_hooks = SameHooks-refl r.hooks;
          version = r.version;
          same = refl;
          revision = inl (refl, new);
        })

    replace_release-Ends :
        (old : Release) (s : Server D)
        → IsReplaced st old
        → Ends Revised (replace_release D env old r req s)
    unfolding replace_release replace_last
    replace_release-Ends old s reuse = >>=-Ends_any Revised _ _ s λ _ t _.
        >>=-Ends_any Revised _ _ t λ _ u _. >>=-Ends_any Revised _ _ u λ x v _.
          replaced-Ends Revised (set_status superseded old)
            (record r { version = succ32 old.version }) x v
            λ _. record {
              hooks = r.hooks;
              same_hooks = SameHooks-refl r.hooks;
              version = succ32 old.version;
              same = refl;
              revision = inr (old, reuse, refl);
            }

    choose-Ends :
        (reuse : Bool) (x : Result (List Release)) (s : Server D)
        → req.reuse_name ≡ reuse
        → Store.history D req.name st ≡ x
        → Ends Revised (choose D env reuse (latest_first D env x) r req s)
    unfolding choose latest_first
    choose-Ends false x s e read = create_release-Ends s (inl e)
    choose-Ends true (err x) s e read = create_release-Ends s (inr λ hs f. cc)
    choose-Ends true (ok hs) s e read = from_history (reverse_by sort_by_revision hs) refl
      where
        all_empty :
            (hs : List Release)
            → reverse_by sort_by_revision hs ≡ []
            → Store.history D req.name st ≡ ok hs
            → IsNew st
        all_empty [] f read = λ js g. ground arith
        all_empty (h ∷ hs) f read = absurd (reverse_by-nil h hs f)

        from_history :
            (l : List Release)
            → reverse_by sort_by_revision hs ≡ l
            → Ends Revised (choose D env true l r req s)
        from_history (old ∷ rest) f =
            replace_release-Ends old s (e, hs, read, reverse_by-IsLatest hs rest old f)
        from_history [] f = create_release-Ends s (inr (all_empty hs f read))

  finish_install-Ends :
      (st : Store D) (r r' : Release) (x : Result (Unit {0})) (s : Server D)
      → IsRevised st r r'
      → Ends (IsInstalled st r) (finish_install D env req (x, r') s)
  unfolding finish_install ◌>>=◌
  finish_install-Ends st r r' (err e) s v = tt
  finish_install-Ends st r r' (ok _) s v = record {
    revised = r';
    from = v;
    result = refl;
    before = s;
    stored = refl;
  }

  attempted :
      (x : Result (List Release)) (t u : Server D)
      → attempt (from_store D (Store.history D req.name)) t ≡ (ok x, u)
      → Store.history D req.name t.store ≡ x
  attempted x t u h = ground arith

  install_valid-Ends :
      (r r' : Release) (x : Result (Unit {0})) (s : Server D)
      → IsStamped r r'
      → Ends (IsInstalled s.store r) (install_valid D env r' req x s)
  unfolding install_valid
  install_valid-Ends r r' (err e) s h = tt
  install_valid-Ends r r' (ok _) s h =
      let st : Store D = s.store in
      through_hooks D env (IsInstalled st r) r' req.disable_hooks (codes "pre-install") req.timeout
        _ s
        λ q t k e. >>=-Ends_any (IsInstalled st r) _ _ t λ x u read.
          >>=-Ends (Revised st q) (IsInstalled st r) _ _ u
            (choose-Ends st q req.reuse_name x u refl
              (subst (λ a. Store.history D req.name a ≡ x) e (attempted x t u read)))
            λ q' v w.
              >>=-Ends (Kept D env q') (IsInstalled st r) _ _ v
                (hooks_unless-Ends D env q' req.disable_hooks (codes "post-install") req.timeout v)
                λ p z stamped. finish_install-Ends st r p.1 p.0 z (
                  then_stamp st r q' p.1 (after_stamp st r q q' (IsStamped-trans r r' q h k) w)
                    stamped)

  validated :
      (manifest : Bytes) (x : Result (Unit {0})) (t u : Server D)
      → attempt (validate_manifest D env req.namespace manifest) t ≡ (ok x, u)
      → u.store ≡ t.store
  unfolding validate_manifest kube
  validated manifest x t u h = sym (ap (λ y. y.1.store) h)

  perform_install-Ends :
      (r : Release) (s : Server D) → Ends (IsInstalled s.store r) (perform_install D env r req s)
  unfolding perform_install
  perform_install-Ends r s =
      through_hooks D env (IsInstalled s.store r) r (req.disable_hooks || req.disable_crd_hook)
        (codes "crd-install") req.timeout _ s
        λ q t k e. >>=-Ends_any (IsInstalled s.store r) _ _ t λ x u valid.
          subst (λ a. Ends (IsInstalled a r) (install_valid D env q req x u))
            (validated q.manifest x t u valid ∙ e) (install_valid-Ends r q x u k)

  abbrev Done : Server D → Release → Server D → Type 0
  Done s done t =
      (r : Release) × (u : Server D) × IsPrepared D env req s u r × IsInstalled u.store r done t

  perform_release-Ends :
      (r : Release) (s : Server D)
      → req.dry_run ≡ false
      → Ends (IsInstalled s.store r) (perform_release D env r req s)
  unfolding perform_release
  perform_release-Ends r s live =
      if-Ends (IsInstalled s.store r) req.dry_run (dry_install D env r req)
        (perform_install D env r req) s (λ h. absurd (cc)) (λ _. perform_install-Ends r s)

  install_prepared-Ends :
      (x : Result Release × Bytes) (s u : Server D)
      → req.dry_run ≡ false
      → FromPrepared D env req s (x, u)
      → Ends (Done s) (install_prepared D env req x u)
  unfolding install_prepared
  install_prepared-Ends (err e, text) s u live h = tt
  install_prepared-Ends (ok r, text) s u live h =
      Ends-weaken (IsInstalled u.store r) (Done s) (perform_release D env r req u)
        (perform_release-Ends r u live) λ done t k. (r, u, h, k)

  -- An install that is no dry run and returns a release, returns the release that was rendered for
  -- a name that is free, deployed: its chart, values and manifest, and its hooks, which differ in the
  -- times of their last run at most. The revision is 1 where names are not reused or the name has no
  -- history that can be read, or else one more than the greatest revision of that history; and that
  -- release was recorded last.
  pub install-IsInstalled :
      (s t : Server D) (done : Release)
      → req.dry_run ≡ false
      → install_release D env req s ≡ (ok done, t)
      → (r : Release) × (u : Server D) × IsPrepared D env req s u r × IsInstalled u.store r done t
  unfolding install_release prepare_release
  install-IsInstalled s t done live h =
      Ends-eq (Done s)
        (install_prepared-Ends (prepare_release D env req s).0 s (prepare_release D env req s).1
          live (prepare_chart-FromPrepared D env req req.chart s refl))
        h
