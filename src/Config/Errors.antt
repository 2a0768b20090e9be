-- ===== src/Config/Errors.antt =====
-- The errors of internal/runner/config/expansion.go, and validateVariableName of
-- internal/runner/config/validation.go.
use go_safe_cmd_runner.Base.{
  ℕ, List, ◌++◌, Text, codes, text_eq, has_prefix, Result, ok, err, if◌then◌else◌,
}
use go_safe_cmd_runner.Names.{NameError, validate_variable_name}
use go_safe_cmd_runner.Names.Scopes.{
  Scope, global, local, ScopeCheckError, validate_variable_name_for_scope,
}
use go_safe_cmd_runner.Expand.Pieces.{ExpandError}

-- The `Err…Detail` types beside those of the expansion; the first field is the level.
pub data ConfigError : Type 0 where
  expansion : ExpandError → ConfigError
  -- field, variable, reason
  invalid_variable_name : Text → Text → Text → NameError → ConfigError
  -- field, variable
  reserved_variable_prefix : Text → Text → Text → ConfigError
  -- field, variable, reason
  invalid_variable_scope : Text → Text → Text → ScopeCheckError → ConfigError
  -- mapping
  invalid_env_import_format : Text → Text → ConfigError
  -- field, variable
  duplicate_variable_definition : Text → Text → Text → ConfigError
  -- variable, reason
  invalid_system_variable_name : Text → Text → NameError → ConfigError
  -- variable
  forbidden_env_var : Text → Text → ConfigError
  -- system variable, internal variable, allowlist
  variable_not_in_allowlist : Text → Text → Text → List Text → ConfigError
  -- mapping
  invalid_env_format : Text → Text → ConfigError
  -- key, context, reason
  invalid_env_key : Text → Text → Text → NameError → ConfigError
  -- count
  too_many_variables : Text → ℕ → ConfigError
  -- variable
  env_import_vars_conflict : Text → Text → ConfigError
  -- variable; the type defined before is the other one
  type_mismatch_array type_mismatch_string : Text → Text → ConfigError
  -- variable, length
  value_too_long : Text → Text → ℕ → ConfigError
  -- variable, count
  array_too_large : Text → Text → ℕ → ConfigError
  -- variable, index
  invalid_array_element : Text → Text → ℕ → ConfigError
  -- variable, index, length
  array_element_too_long : Text → Text → ℕ → ℕ → ConfigError
  -- variable
  unsupported_type : Text → Text → ConfigError
  -- a Go panic: `elem.(string)` on an element of another type
  type_assertion_panic : Text → ConfigError

abbrev pub lift_expansion {ℓ} : {A : Type ℓ} → Result ExpandError A → Result ConfigError A
lift_expansion (ok a) = ok a
lift_expansion (err e) = err (expansion e)

abbrev pub reserved_variable_prefix_text : Text
reserved_variable_prefix_text = codes "__runner_"

expected_scope : Text → Scope
expected_scope level = if text_eq level (codes "global") then global else local

check_scope : Text → Text → Text → Result ScopeCheckError (Unit {0}) → Result ConfigError (Unit {0})
check_scope var_name level field (ok _) = ok tt
check_scope var_name level field (err e) = err (invalid_variable_scope level field var_name e)

unfoldable pub validate_name : Text → Text → Text → Result ConfigError (Unit {0})
unfolding has_prefix expected_scope check_scope
validate_name var_name level field = elim (validate_variable_name var_name) [
  | err reason ↦ err (invalid_variable_name level field var_name reason)
  | ok _ ↦
      if has_prefix var_name reserved_variable_prefix_text
      then err (reserved_variable_prefix level field var_name)
      else check_scope var_name level field (
          validate_variable_name_for_scope var_name (expected_scope level)
            (level ++ codes "." ++ field))
]
