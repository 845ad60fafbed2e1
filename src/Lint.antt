-- ===== src/Lint.antt =====
-- The linter of pkg/lint/support/message.go. A severity is a natural number, as it is one of the
-- constants.

pub mod Rules
pub mod Valid
mod Tests
use helm.Common.Text.{contains, eqb}
use helm.Result.{Error, external, message, Result, ok, err}
use helm.Common.{
  ◌||◌, ltb, leb, if◌then◌else◌, Bytes, codes, ◌++◌, [], true, not, Bool, false, ℕ, Option, some,
  List, ◌∷◌, none,
}

abbrev pub unknown_sev : ℕ
unknown_sev = 0

abbrev pub info_sev : ℕ
info_sev = 1

abbrev pub warning_sev : ℕ
warning_sev = 2

abbrev pub error_sev : ℕ
error_sev = 3

pub record Message : Type 0 where
  pub severity : ℕ
  pub path : Bytes
  pub error : Error

pub record Linter : Type 0 where
  pub messages : List Message
  pub highest_severity : ℕ

abbrev pub failed : ℕ → Bytes → Option Error → Linter → Linter
failed severity path none l = l
failed severity path (some e) l = record {
  messages = l.messages ++ record { severity = severity; path = path; error = e } ∷ [];
  highest_severity = if ltb l.highest_severity severity then severity else l.highest_severity;
}

abbrev pub is_none : Option Error → Bool
is_none none = true
is_none (some e) = false

-- Linter.RunLinterRule, whose severities are four
unfoldable pub run_linter_rule : ℕ → Bytes → Option Error → Linter → Bool × Linter
run_linter_rule severity path e l =
    if leb 4 severity then (false, l) else (is_none e, failed severity path e l)
