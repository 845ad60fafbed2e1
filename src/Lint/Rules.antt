-- ===== src/Lint/Rules.antt =====
-- The rules on Chart.yaml and values.yaml in pkg/lint/rules. The files, the validators and the
-- library for versions are parameters.
use helm.Common.Text.{contains, eqb}
use helm.Result.{Error, external, message, Result, ok, err}
use helm.Common.{
  ◌||◌, if◌then◌else◌, Bytes, codes, ◌++◌, [], true, not, Bool, false, ℕ, Option, some, List, ◌∷◌,
  none,
}
use helm.Lint.{Linter, run_linter_rule, error_sev, warning_sev, info_sev}

pub record Maintainer : Type 0 where
  pub name : Bytes
  pub email : Bytes
  pub url : Bytes

-- chart.Metadata, as far as the rules read it
pub record Metadata : Type 0 where
  pub name : Bytes
  pub version : Bytes
  pub api_version : Bytes
  pub engine : Bytes
  pub maintainers : List Maintainer
  pub sources : List Bytes
  pub icon : Bytes

pub record Files : Type 0 where
  -- filepath.Base of the chart's directory
  pub base : Bytes
  -- whether Chart.yaml is a directory, and what is read of it
  pub is_directory : Bool
  pub chartfile : Result Metadata
  -- whether values.yaml is there, and the error in reading it
  pub values_exist : Bool
  pub values_error : Option Error
  -- govalidator
  pub is_email : Bytes → Bool
  pub is_url : Bytes → Bool
  pub is_request_url : Bytes → Bool
  -- semver.NewVersion, and the first message of Validate for ">0.0.0-0", if the version is not valid
  pub version_error : Bytes → Option Error
  pub version_message : Bytes → Option Bytes

abbrev fails : Bytes → Option Error
fails msg = some (external msg)

abbrev pub unless : Bool → Bytes → Option Error
unless true msg = none
unless false msg = fails msg

unfoldable pub validate_chart_name_presence : Metadata → Option Error
validate_chart_name_presence cf = elim cf.name [
  | [] ↦ fails (codes "name is required")
  | c ∷ s ↦ none
]

unfoldable pub validate_chart_name_format : Metadata → Option Error
unfolding contains
validate_chart_name_format cf =
    unless (not (contains cf.name (codes ".")))
      (codes "name should be lower case letters and numbers. Words may be separated with dashes")

unfoldable pub validate_chart_api_version : Metadata → Option Error
unfolding eqb
validate_chart_api_version cf = elim cf.api_version [
  | [] ↦ fails (codes "apiVersion is required")
  | c ∷ s ↦
      unless (eqb (c ∷ s) (codes "v1"))
        (codes "apiVersion '" ++ (c ∷ s ++ codes "' is not valid. The value must be \"v1\""))
]

-- The engines are "unknown", which is skipped, and "gotpl".
unfoldable pub validate_chart_engine : Metadata → Option Error
unfolding eqb
validate_chart_engine cf = elim cf.engine [
  | [] ↦ none
  | c ∷ s ↦
      unless (eqb (codes "gotpl") (c ∷ s))
        (codes "engine '" ++ (c ∷ s ++ codes "' not valid. Valid options are [gotpl]"))
]

unfoldable pub validate_chart_icon_presence : Metadata → Option Error
validate_chart_icon_presence cf = elim cf.icon [
  | [] ↦ fails (codes "icon is recommended")
  | c ∷ s ↦ none
]

module _ (files : Files) where
  unfoldable pub validate_chart_yaml_not_directory : Option Error
  validate_chart_yaml_not_directory =
      unless (not files.is_directory) (codes "should be a file, not a directory")

  unfoldable pub validate_chart_yaml_format : Option Error
  validate_chart_yaml_format = elim files.chartfile [
    | ok cf ↦ none
    | err e ↦ fails (codes "unable to parse YAML\n\t" ++ message e)
  ]

  unfoldable pub validate_chart_name_dir_match : Metadata → Option Error
  unfolding eqb
  validate_chart_name_dir_match cf = unless (eqb cf.name files.base) (
      codes "directory name ("
      ++ (files.base ++ (codes ") and chart name (" ++ (cf.name ++ codes ") must be the same"))))

  abbrev pub validated : Option Bytes → Option Error
  validated none = none
  validated (some msg) = fails (codes "version " ++ msg)

  abbrev pub validate_version : Bytes → Option Error → Option Error
  validate_version v (some e) = fails (codes "version '" ++ (v ++ codes "' is not a valid SemVer"))
  validate_version v none = validated (files.version_message v)

  unfoldable pub validate_chart_version : Metadata → Option Error
  validate_chart_version cf = elim cf.version [
    | [] ↦ fails (codes "version is required")
    | c ∷ s ↦ validate_version (c ∷ s) (files.version_error (c ∷ s))
  ]

  -- empty, or accepted by a validator
  abbrev pub valid_or_empty : (Bytes → Bool) → Bytes → Bool
  valid_or_empty valid [] = true
  valid_or_empty valid (c ∷ s) = valid (c ∷ s)

  abbrev pub validate_contact : Maintainer → Option Error → Option Error
  validate_contact m rest =
      if not (valid_or_empty files.is_email m.email)
      then fails (
          codes "invalid email '"
          ++ (m.email ++ (codes "' for maintainer '" ++ (m.name ++ codes "'"))))
      else (if not (valid_or_empty files.is_url m.url)
          then fails (
              codes "invalid url '"
              ++ (m.url ++ (codes "' for maintainer '" ++ (m.name ++ codes "'"))))
          else rest)

  unfoldable pub validate_maintainers : List Maintainer → Option Error
  unfolding eqb
  validate_maintainers [] = none
  validate_maintainers (m ∷ ms) =
      let rest = validate_maintainers ms in
      if eqb m.name []
      then fails (codes "each maintainer requires a name")
      else validate_contact m rest

  unfoldable pub validate_sources : List Bytes → Option Error
  unfolding eqb
  validate_sources [] = none
  validate_sources (s ∷ ss) =
      let rest = validate_sources ss in
      if eqb s [] || not (files.is_request_url s)
      then fails (codes "invalid source URL '" ++ (s ++ codes "'"))
      else rest

  unfoldable pub validate_chart_icon_url : Metadata → Option Error
  validate_chart_icon_url cf =
      unless (valid_or_empty files.is_request_url cf.icon)
        (codes "invalid icon URL '" ++ (cf.icon ++ codes "'"))

  -- rules that are run one after the other
  unfoldable pub run_rules : Bytes → List (ℕ × Option Error) → Linter → Linter
  unfolding run_linter_rule
  run_rules path [] l = l
  run_rules path ((severity, e) ∷ rules) l =
      run_rules path rules (run_linter_rule severity path e l).1

  -- the rules on Chart.yaml once it has been read
  unfoldable pub metadata_rules : Metadata → List (ℕ × Option Error)
  metadata_rules cf =
      (error_sev, validate_chart_name_presence cf)
      ∷ (warning_sev, validate_chart_name_format cf)
      ∷ (error_sev, validate_chart_name_dir_match cf)
      ∷ (error_sev, validate_chart_api_version cf)
      ∷ (error_sev, validate_chart_version cf)
      ∷ (error_sev, validate_chart_engine cf)
      ∷ (error_sev, validate_maintainers cf.maintainers)
      ∷ (error_sev, validate_sources cf.sources)
      ∷ (info_sev, validate_chart_icon_presence cf)
      ∷ (error_sev, validate_chart_icon_url cf)
      ∷ []

  abbrev pub chart_yaml : Bytes
  chart_yaml = codes "Chart.yaml"

  abbrev pub check_metadata : Result Metadata → Linter → Linter
  check_metadata (ok cf) l = run_rules chart_yaml (metadata_rules cf) l
  check_metadata (err e) l = l

  -- the rules on the file itself
  abbrev pub file_rules : List (ℕ × Option Error)
  file_rules =
      (error_sev, validate_chart_yaml_not_directory) ∷ (error_sev, validate_chart_yaml_format) ∷ []

  -- Chartfile
  unfoldable pub chartfile : Linter → Linter
  unfolding run_rules metadata_rules validate_chart_yaml_not_directory validate_chart_yaml_format
  chartfile l = check_metadata files.chartfile (run_rules chart_yaml file_rules l)

  abbrev pub check_values : Bool × Linter → Linter
  check_values (false, l) = l
  check_values (true, l) =
      (run_linter_rule error_sev (codes "values.yaml") (explained files.values_error) l).1
    where
      explained : Option Error → Option Error
      explained none = none
      explained (some e) = fails (codes "unable to parse YAML\n\t" ++ message e)

  -- Values
  unfoldable pub values : Linter → Linter
  unfolding run_linter_rule
  values l = check_values (
      run_linter_rule info_sev (codes "values.yaml")
        (unless files.values_exist (codes "file does not exist")) l)
