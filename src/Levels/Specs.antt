-- ===== src/Levels/Specs.antt =====
-- `GlobalSpec` and `GroupSpec` of internal/runner/base/runnertypes/spec.go, and the runtime records of
-- runtime.go beside it. A pointer, and a map or a slice whose nil the code tells from an empty one, is
-- an Option. What the expansion neither reads nor sets is left out.
use go_safe_cmd_runner.Base.{ℕ, List, Option, Text, ℤ}
use go_safe_cmd_runner.Base.Dict.{Dict}
use go_safe_cmd_runner.Expand.Lazy.{RawValue}
use go_safe_cmd_runner.Expand.Pieces.{ExpandError}
use go_safe_cmd_runner.Config.Errors.{ConfigError}
use go_safe_cmd_runner.Templates.Errors.{TemplateError}
use go_safe_cmd_runner.Templates.Spec.{CommandSpec}
use go_safe_cmd_runner.Levels.Timeouts.{TimeoutResolutionContext}

pub record GlobalSpec : Type 0 where
  pub timeout : Option ℤ
  pub output_size_limit : Option ℤ
  pub verify_files : List Text
  pub env_allowed : List Text
  pub env_vars : List Text
  pub env_import : List Text
  pub vars : Option (Dict RawValue)

pub record GroupSpec : Type 0 where
  pub name : Text
  pub verify_files : List Text
  pub env_allowed : Option (List Text)
  pub cmd_allowed : List Text
  pub env_vars : List Text
  pub env_import : List Text
  pub vars : Option (Dict RawValue)

pub record RuntimeGlobal : Type 0 where
  pub spec : GlobalSpec
  pub expanded_verify_files : List Text
  pub expanded_env : Dict Text
  pub expanded_vars : Dict Text
  pub expanded_array_vars : Dict (List Text)
  pub env_import_vars : Dict Text
  pub system_env : Dict Text

pub data InheritanceMode : Type 0 where
  inherit explicit reject : InheritanceMode

pub record RuntimeGroup : Type 0 where
  pub spec : GroupSpec
  pub expanded_verify_files : List Text
  pub expanded_env : Dict Text
  pub expanded_vars : Dict Text
  pub expanded_array_vars : Dict (List Text)
  pub env_import_vars : Dict Text
  pub expanded_cmd_allowed : List Text
  pub env_allowlist_inheritance_mode : InheritanceMode

pub record RuntimeCommand : Type 0 where
  pub spec : CommandSpec
  pub expanded_cmd : Text
  pub expanded_args : List Text
  pub expanded_env : Dict Text
  pub expanded_vars : Dict Text
  pub expanded_array_vars : Dict (List Text)
  pub env_import_vars : Dict Text
  pub effective_timeout : ℤ
  pub timeout_resolution : TimeoutResolutionContext
  pub effective_output_size_limit : ℤ

-- Why a level does not expand; the context that a wrapped error gains is left out.
pub data LevelError : Type 0 where
  config : ConfigError → LevelError
  expanding : ExpandError → LevelError
  template : TemplateError → LevelError
  -- level, path, the first index, the second one
  duplicate_path : Text → Text → ℕ → ℕ → LevelError
  -- group, index
  empty_path : Text → ℕ → LevelError
  -- path
  path_not_absolute path_too_long : Text → LevelError
  -- group, index, path
  failed_to_resolve_path : Text → ℕ → Text → LevelError
  -- level, path, resolved path
  duplicate_resolved_path : Text → Text → Text → LevelError
