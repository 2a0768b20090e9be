-- ===== src/Templates/Spec.antt =====
-- `CommandSpec` and `CommandTemplate` of internal/runner/base/runnertypes/spec.go. A pointer, and a map or
-- a slice whose nil the code tells from an empty one, is an Option.
use go_safe_cmd_runner.Base.{List, Option, Text, ℤ}
use go_safe_cmd_runner.Base.Dict.{Dict}
use go_safe_cmd_runner.Expand.Lazy.{RawValue}

pub record CommandTemplate : Type 0 where
  pub cmd : Text
  pub args : List Text
  pub env_vars : List Text
  pub work_dir : Option Text
  pub timeout : Option ℤ
  pub output_size_limit : Option ℤ
  pub risk_level : Option Text
  pub output_file : Option Text
  pub env_import : List Text
  pub vars : Dict RawValue

pub record CommandSpec : Type 0 where
  pub name : Text
  pub description : Text
  pub template : Text
  pub params : Dict RawValue
  pub cmd : Text
  pub args : List Text
  pub work_dir : Option Text
  pub timeout : Option ℤ
  pub output_size_limit : Option ℤ
  pub run_as_user : Text
  pub run_as_group : Text
  pub risk_level : Option Text
  pub output_file : Option Text
  pub env_vars : List Text
  pub env_import : List Text
  pub vars : Option (Dict RawValue)
