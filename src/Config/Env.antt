-- ===== src/Config/Env.antt =====
-- ProcessEnv of internal/runner/config/expansion.go.
pub mod Laws
use go_safe_cmd_runner.Base.{
  ◌≡◌, refl, Bool, true, false, List, [], ◌∷◌, Option, none, some, Text, codes, Result, ok, err,
  ◌>>=◌, ◌>>◌, reject_if,
}
use go_safe_cmd_runner.Base.Dict.{Dict, lookup, insert}
use go_safe_cmd_runner.Names.{NameError, parse_key_value, validate_variable_name}
use go_safe_cmd_runner.Names.Denylist.{is_forbidden_env_var}
use go_safe_cmd_runner.Expand.Strings.{expand_string}
use go_safe_cmd_runner.Config.Mappings.{for_each}
use go_safe_cmd_runner.Config.Errors.{
  ConfigError, lift_expansion, invalid_env_format, invalid_env_key, forbidden_env_var,
  duplicate_variable_definition,
}
use go_safe_cmd_runner.Config.Imports.{is_defined}

abbrev pub wrap_key :
    Text → Text → Text → Result NameError (Unit {0}) → Result ConfigError (Unit {0})
wrap_key level key mapping (ok _) = ok tt
wrap_key level key mapping (err e) = err (invalid_env_key level key mapping e)

module _ (internal_vars : Dict Text) (level : Text) where
  -- The checks of one mapping, in the order of the code.
  unfoldable pub check_env : Text → Text → Dict Text → Result ConfigError (Unit {0})
  unfolding is_defined
  check_env mapping name expanded = do
    wrap_key level name mapping (validate_variable_name name)
    reject_if (is_forbidden_env_var name) (forbidden_env_var level name)
    reject_if (is_defined (lookup name expanded))
        (duplicate_variable_definition level (codes "env") name)

  unfoldable pub env_one : Text → Dict Text → Result ConfigError (Dict Text)
  env_one mapping expanded = elim (parse_key_value mapping) [
    | none ↦ err (invalid_env_format level mapping)
    | some (name, value) ↦ check_env mapping name expanded >>= λ _.
        lift_expansion (expand_string value internal_vars level (codes "env")) >>= λ v.
        ok (insert name v expanded)
  ]

  unfoldable pub process_env : List Text → Result ConfigError (Dict Text)
  unfolding env_one for_each
  process_env env = for_each env_one env []
