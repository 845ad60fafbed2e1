-- ===== src/Repo/Semver.antt =====
-- The library github.com/Masterminds/semver, on the texts of versions and constraints.
use helm.Common.{Bytes, Bool, Option}
use helm.Result.{Error}

pub record Semver : Type 0 where
  -- the error of NewVersion, and of NewConstraint
  pub version_error : Bytes → Option Error
  pub constraint_error : Bytes → Option Error
  -- LessThan of two versions
  pub less_than : Bytes → Bytes → Bool
  -- Check of a constraint and a version
  pub check : Bytes → Bytes → Bool
