-- ===== src/Lint/Valid.antt =====
-- What a chart without errors is, by the linter of pkg/lint.
use helm.Common.Decimal.{format}
use helm.Common.Text.{eqb, eqb-eq, eqb_iff}
use helm.Result.{Error, external, Result, ok, err}
use helm.Common.{
  ◌||◌, Bytes, codes, All, inr, List, inl, none, Option, false, refl, arith, ◌<◌, [], some, ◌⊎◌,
  ◌≡◌, ◌≢◌, Bool, ℕ, ◌∷◌, true, not, if◌then◌else◌, sym,
}
use helm.Lint.{Linter, run_linter_rule}
use helm.Lint.Rules.{
  file_rules, Files, unless, validated, chartfile, Maintainer, Metadata, validate_version,
  validate_chart_version, valid_or_empty, validate_sources, run_rules, validate_chart_name_presence,
  validate_chart_api_version, validate_chart_engine, validate_chart_yaml_not_directory,
  validate_chart_yaml_format, validate_chart_name_dir_match, validate_contact, validate_maintainers,
  validate_chart_icon_url, metadata_rules, chart_yaml, check_metadata,
}

run_linter_rule-highest :
    (severity : ℕ) (path : Bytes) (e : Option Error) (l : Linter)
    → (run_linter_rule severity path e l).1.highest_severity < 3
    → (l.highest_severity < 3) × (severity ≡ 3 → e ≡ none)
unfolding run_linter_rule
run_linter_rule-highest severity path none l h = (ground (arith, h), λ _. refl)
run_linter_rule-highest severity path (some e) l h =
    (ground (arith, h), λ f. elim (impossible f h) [ ])
  where
    impossible :
        severity ≡ 3 → (run_linter_rule severity path (some e) l).1.highest_severity < 3 → ⊥
    impossible f h = ground arith

-- a rule of the severity of an error has found nothing
abbrev pub Passes : ℕ × Option Error → Type 0
Passes r = r.0 ≡ 3 → r.1 ≡ none

unless-none : (b : Bool) (msg : Bytes) → unless b msg ≡ none → b ≡ true
unless-none true msg h = refl
unless-none false msg h = cc

if-none :
    (b : Bool) (e : Error) (rest : Option Error)
    → (if b then some e else rest) ≡ none
    → (b ≡ false) × (rest ≡ none)
if-none true e rest h = cc
if-none false e rest h = (refl, h)

api-IsValid :
    (v : Bytes)
    → (cf : Metadata) → cf.api_version ≡ v
    → validate_chart_api_version cf ≡ none
    → v ≡ codes "v1"
unfolding validate_chart_api_version
api-IsValid [] cf e h = cc
api-IsValid (c ∷ s) cf e h = eqb-eq (c ∷ s) (codes "v1") (unless-none _ _ (rw e at h))

engine-IsValid :
    (v : Bytes) (cf : Metadata)
    → cf.engine ≡ v
    → validate_chart_engine cf ≡ none
    → (v ≡ []) ⊎ (v ≡ codes "gotpl")
unfolding validate_chart_engine
engine-IsValid [] cf e h = inl refl
engine-IsValid (c ∷ s) cf e h =
    inr (sym (eqb-eq (codes "gotpl") (c ∷ s) (unless-none _ _ (rw e at h))))

name-IsValid :
    (v : Bytes) (cf : Metadata) → cf.name ≡ v → validate_chart_name_presence cf ≡ none → v ≢ []
unfolding validate_chart_name_presence
name-IsValid [] cf e h = cc
name-IsValid (c ∷ s) cf e h = λ f. cc

module _ (files : Files) where
  run_rules-Passes :
      (path : Bytes) (rs : List (ℕ × Option Error)) (l : Linter)
      → (run_rules files path rs l).highest_severity < 3
      → (l.highest_severity < 3) × All Passes rs
  unfolding run_rules
  run_rules-Passes path [] l h = (h, tt)
  run_rules-Passes path ((severity, e) ∷ rs) l h =
      let (low, passes) = run_rules-Passes path rs (run_linter_rule severity path e l).1 h in
      let (lower, pass) = run_linter_rule-highest severity path e l low in (lower, (pass, passes))

  -- empty, or accepted
  abbrev pub IsAccepted : (Bytes → Bool) → Bytes → Type 0
  IsAccepted valid s = (s ≡ []) ⊎ (valid s ≡ true)

  abbrev pub IsReachable : Maintainer → Type 0
  IsReachable m = (m.name ≢ []) × IsAccepted files.is_email m.email × IsAccepted files.is_url m.url

  -- the metadata of a chart that the rules accept
  pub record IsValid (cf : Metadata) : Type 0 where
    pub named : cf.name ≡ files.base
    pub not_empty : cf.name ≢ []
    pub api : cf.api_version ≡ codes "v1"
    pub version : files.version_error cf.version ≡ none
    pub released : files.version_message cf.version ≡ none
    pub engine : (cf.engine ≡ []) ⊎ (cf.engine ≡ codes "gotpl")
    pub maintainers : All IsReachable cf.maintainers
    pub sources : All (λ s. files.is_request_url s ≡ true) cf.sources
    pub icon : IsAccepted files.is_request_url cf.icon

  accepted :
      (valid : Bytes → Bool) (s : Bytes) → valid_or_empty files valid s ≡ true → IsAccepted valid s
  accepted valid [] h = inl refl
  accepted valid (c ∷ s) h = inr h

  sources-IsValid :
      (ss : List Bytes)
      → validate_sources files ss ≡ none
      → All (λ s. files.is_request_url s ≡ true) ss
  unfolding validate_sources
  sources-IsValid [] h = tt
  sources-IsValid (s ∷ ss) h =
      let (b, r) = if-none (eqb s [] || not (files.is_request_url s)) _ _ h in
      (ground (arith, b), sources-IsValid ss r)

  contact-IsReachable :
      (m : Maintainer) (rest : Option Error)
      → eqb m.name [] ≡ false
      → validate_contact files m rest ≡ none
      → IsReachable m × (rest ≡ none)
  contact-IsReachable m rest n h =
      let (b, r) = if-none (not (valid_or_empty files files.is_email m.email)) _ _ h in
      let (c, q) = if-none (not (valid_or_empty files files.is_url m.url)) _ rest r in
      (
        (
          (λ e. ground (arith, n, eqb_iff m.name [])),
          accepted files.is_email m.email (ground (arith, b)),
          accepted files.is_url m.url (ground (arith, c)),
        ),
        q,
      )

  maintainers-IsValid :
      (ms : List Maintainer) → validate_maintainers files ms ≡ none → All IsReachable ms
  unfolding validate_maintainers
  maintainers-IsValid [] h = tt
  maintainers-IsValid (m ∷ ms) h =
      let (b, r) =
        if-none (eqb m.name []) _ (validate_contact files m (validate_maintainers files ms)) h in
      let (reachable, rest) = contact-IsReachable m (validate_maintainers files ms) b r in
      (reachable, maintainers-IsValid ms rest)

  version-IsValid :
      (cf : Metadata)
      → validate_chart_version files cf ≡ none
      → (files.version_error cf.version ≡ none) × (files.version_message cf.version ≡ none)
  unfolding validate_chart_version
  version-IsValid cf h = go cf.version h
    where
      checked :
          (v : Bytes) (e : Option Error)
          → files.version_error v ≡ e
          → validate_version files v e ≡ none
          → (files.version_error v ≡ none) × (files.version_message v ≡ none)
      checked v (some e) f k = cc
      checked v none f k = (f, unmentioned (files.version_message v) k)
        where
          unmentioned : (m : Option Bytes) → validated files m ≡ none → m ≡ none
          unmentioned none k = refl
          unmentioned (some m) k = cc

      go :
          (v : Bytes)
          → (elim v [
            | [] ↦ some (external (codes "version is required"))
            | c ∷ s ↦ validate_version files (c ∷ s) (files.version_error (c ∷ s))
          ])
            ≡ none
          → (files.version_error v ≡ none) × (files.version_message v ≡ none)
      go [] k = cc
      go (c ∷ s) k = checked (c ∷ s) (files.version_error (c ∷ s)) refl k

  metadata-IsValid : (cf : Metadata) → All Passes (metadata_rules files cf) → IsValid cf
  unfolding metadata_rules validate_chart_name_dir_match validate_chart_icon_url
  metadata-IsValid cf
        (name, (_, (dir, (api, (version, (engine, (maintainers, (sources, (_, (icon, _)))))))))) =
      let (readable, released) = version-IsValid cf (version refl) in
      record {
        named = eqb-eq cf.name files.base (unless-none _ _ (dir refl));
        not_empty = name-IsValid cf.name cf refl (name refl);
        api = api-IsValid cf.api_version cf refl (api refl);
        version = readable;
        released = released;
        engine = engine-IsValid cf.engine cf refl (engine refl);
        maintainers = maintainers-IsValid cf.maintainers (maintainers refl);
        sources = sources-IsValid cf.sources (sources refl);
        icon = accepted files.is_request_url cf.icon (unless-none _ _ (icon refl));
      }

  -- Where the rules on Chart.yaml leave the highest severity below that of an error, Chart.yaml is
  -- no directory and has been read, and its metadata are valid: a name, which is that of the
  -- directory; the API version v1; a version that semver reads and accepts; no engine or gotpl;
  -- maintainers with a name, whose addresses are accepted, and sources and an icon likewise.
  pub chartfile-IsValid :
      (l : Linter)
      → (chartfile files l).highest_severity < 3
      → (files.is_directory ≡ false) × (cf : Metadata) × (files.chartfile ≡ ok cf) × IsValid cf
  unfolding chartfile validate_chart_yaml_not_directory validate_chart_yaml_format
  chartfile-IsValid l h = go files.chartfile refl h
    where
      unread : (x : Error) → files.chartfile ≡ err x → validate_chart_yaml_format files ≡ none → ⊥
      unread x e f = cc

      go :
          (r : Result Metadata)
          → files.chartfile ≡ r
          → (check_metadata files r
              (run_rules files (chart_yaml files) (file_rules files) l)).highest_severity
            < 3
          → (files.is_directory ≡ false) × (cf : Metadata) × (files.chartfile ≡ ok cf) × IsValid cf
      go (ok cf) e k =
          let (low, passes) = run_rules-Passes (chart_yaml files) (metadata_rules files cf) _ k in
          let (_, (directory, _)) = run_rules-Passes (chart_yaml files) (file_rules files) l low in
          (
            ground (arith, unless-none (not files.is_directory) _ (directory refl)),
            cf,
            e,
            metadata-IsValid cf passes,
          )
      go (err x) e k =
          let (_, (directory, (format, _))) =
            run_rules-Passes (chart_yaml files) (file_rules files) l k in
          let read = format refl in elim (unread x e read) [ ]
