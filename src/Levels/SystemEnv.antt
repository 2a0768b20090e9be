-- ===== src/Levels/SystemEnv.antt =====
-- `ParseSystemEnvironment` of internal/runner/base/environment/system_env.go, over what `os.Environ`
-- returns, and `GenerateGlobalAutoVars` of internal/runner/base/variable/auto.go, over the formatted
-- time and the process ID.
use go_safe_cmd_runner.Base.{ℕ, List, [], ◌∷◌, ◌++◌, none, some, Text, codes, decimal}
use go_safe_cmd_runner.Base.Dict.{Dict, insert}
use go_safe_cmd_runner.Names.{parse_key_value}

unfoldable pub parse_environ : List Text → Dict Text → Dict Text
parse_environ [] result = result
parse_environ (env ∷ rest) result = elim (parse_key_value env) [
  | none ↦ parse_environ rest result
  | some (variable, value) ↦ parse_environ rest (insert variable value result)
]

unfoldable pub parse_system_environment : List Text → Dict Text
unfolding parse_environ
parse_system_environment environ = parse_environ environ []

abbrev pub auto_var_prefix : Text
auto_var_prefix = codes "__runner_"

unfoldable pub generate_global_auto_vars : Text → ℕ → Dict Text
unfolding insert decimal
generate_global_auto_vars datetime pid =
    insert (auto_var_prefix ++ codes "pid") (decimal pid)
      (insert (auto_var_prefix ++ codes "datetime") datetime [])
