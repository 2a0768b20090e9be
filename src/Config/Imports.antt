-- ===== src/Config/Imports.antt =====
-- ProcessEnvImport of internal/runner/config/expansion.go.
pub mod Laws
pub mod Accepted
use go_safe_cmd_runner.Base.{
  ℕ, ◌≡◌, refl, Bool, true, false, not, List, [], ◌∷◌, ◌++◌, Option, none, some, Text, codes,
  contains, Result, ok, err, ◌>>=◌, ◌>>◌, reject_if, if◌then◌else◌,
}
use go_safe_cmd_runner.Base.Dict.{Dict, lookup, insert}
use go_safe_cmd_runner.Names.{NameError, parse_key_value, validate_variable_name}
use go_safe_cmd_runner.Names.Denylist.{is_forbidden_env_var}
use go_safe_cmd_runner.Config.Mappings.{for_each}
use go_safe_cmd_runner.Config.Errors.{
  ConfigError, validate_name, invalid_env_import_format, duplicate_variable_definition,
  invalid_system_variable_name, forbidden_env_var, variable_not_in_allowlist,
}

-- A map's value, or the empty string.
unfoldable pub value_or_empty : Option Text → Text
value_or_empty none = []
value_or_empty (some v) = v

unfoldable pub is_defined {ℓ} : {V : Type ℓ} → Option V → Bool
is_defined none = false
is_defined (some v) = true

abbrev pub wrap_system_name :
    Text → Text → Result NameError (Unit {0}) → Result ConfigError (Unit {0})
wrap_system_name level name (ok _) = ok tt
wrap_system_name level name (err e) = err (invalid_system_variable_name level name e)

module _ (env_allowlist : List Text) (system_env : Dict Text) (level : Text) where
  -- The checks of one mapping, in the order of the code.
  unfoldable pub check_import : Text → Text → Dict Text → Result ConfigError (Unit {0})
  unfolding is_defined
  check_import internal_name system_var_name result = do
    validate_name internal_name level (codes "env_import")
    reject_if (is_defined (lookup internal_name result))
        (duplicate_variable_definition level (codes "env_import") internal_name)
    wrap_system_name level system_var_name (validate_variable_name system_var_name)
    reject_if (is_forbidden_env_var system_var_name) (forbidden_env_var level system_var_name)
    reject_if (not (contains env_allowlist system_var_name))
        (variable_not_in_allowlist level system_var_name internal_name env_allowlist)

  unfoldable pub import_one : Text → Dict Text → Result ConfigError (Dict Text)
  unfolding value_or_empty
  import_one mapping result = elim (parse_key_value mapping) [
    | none ↦ err (invalid_env_import_format level mapping)
    | some (internal_name, system_var_name) ↦
        check_import internal_name system_var_name result >>= λ _.
        ok (insert internal_name (value_or_empty (lookup system_var_name system_env)) result)
  ]

  unfoldable pub process_env_import : List Text → Result ConfigError (Dict Text)
  unfolding import_one for_each
  process_env_import env_import = for_each import_one env_import []
