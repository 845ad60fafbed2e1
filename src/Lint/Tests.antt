-- ===== src/Lint/Tests.antt =====
-- The theorem on the linter, applied to a valid chart.
use helm.Lint.Valid.{IsValid, chartfile-IsValid}
use helm.Result.{ok}
use helm.Common.{codes, true, none, false, ◌∷◌, [], ◌≡◌, arith}
use helm.Lint.{unknown_sev, Linter, unknown_sev}
use helm.Lint.Rules.{
  Files, Metadata, chartfile, validate_chart_icon_url, validate_chart_icon_presence,
  validate_sources, validate_maintainers, validate_chart_engine, validate_chart_version,
  validate_chart_api_version, validate_chart_name_dir_match, validate_chart_name_format,
  validate_chart_name_presence,
}

abbrev metadata : Metadata
metadata = record {
  name = codes "web";
  version = codes "1.0.0";
  api_version = codes "v1";
  engine = [];
  maintainers = record { name = codes "Ann"; email = []; url = [] } ∷ [];
  sources = codes "http://web" ∷ [];
  icon = [];
}

abbrev files : Files
files = record {
  base = codes "web";
  is_directory = false;
  chartfile = ok metadata;
  values_exist = true;
  values_error = none;
  is_email = λ s. true;
  is_url = λ s. true;
  is_request_url = λ s. true;
  version_error = λ v. none;
  version_message = λ v. none;
}

abbrev linter : Linter
linter = record { messages = []; highest_severity = unknown_sev }

chartfile-IsValid_example :
    (files.is_directory ≡ false) × (cf : Metadata) × (files.chartfile ≡ ok cf) × IsValid files cf
unfolding chartfile validate_chart_icon_url validate_chart_icon_presence validate_sources
    validate_maintainers validate_chart_engine validate_chart_version validate_chart_api_version
    validate_chart_name_dir_match validate_chart_name_format validate_chart_name_presence
chartfile-IsValid_example = chartfile-IsValid files linter (omega arith)
