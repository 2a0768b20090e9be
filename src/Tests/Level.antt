-- ===== src/Tests/Level.antt =====
-- The levels of a configuration at concrete inputs.
use go_safe_cmd_runner.Base.{
  ◌≡◌, ◌↔◌, ◌⊎◌, refl, true, none, some, Option, List, [], ◌∷◌, All, Text, codes, text_eq, contains,
  cut, decimal, Distinct, has_prefix, ok, pos,
}
use go_safe_cmd_runner.Base.Dict.{Dict, lookup, insert}
use go_safe_cmd_runner.Names.{validate_variable_name, parse_key_value}
use go_safe_cmd_runner.Names.Denylist.{has_any_prefix, is_forbidden_env_var}
use go_safe_cmd_runner.Names.Scopes.{determine_scope, scope_eq, validate_variable_name_for_scope}
use go_safe_cmd_runner.Expand.Pieces.{next_piece}
use go_safe_cmd_runner.Expand.Refs.{process_var_refs, walk, round, resolve_reference}
use go_safe_cmd_runner.Expand.Strings.{unmark, resolver, resolve_and_expand, expand_string}
use go_safe_cmd_runner.Expand.Lazy
use go_safe_cmd_runner.Expand.Lazy.{RawValue, string, array, text_element}
use go_safe_cmd_runner.Config.Errors.{validate_name}
use go_safe_cmd_runner.Config.Imports.Accepted.{Imports, process_env_import_iff}
use go_safe_cmd_runner.Config.Mappings.{Some, for_each}
use go_safe_cmd_runner.Config.Imports.{
  is_defined, check_import, import_one, process_env_import, value_or_empty,
}
use go_safe_cmd_runner.Config.Env.{check_env, env_one, process_env}
use go_safe_cmd_runner.Config.Vars.{
  classify_one, classify_value, classify_all, validate_and_classify_vars, validate_string_var,
  validate_array_var, check_elements, expand_string_vars, expand_elements, expand_array_vars,
  expand_vars_with_lazy_resolution, process_vars,
}
use go_safe_cmd_runner.Config.Vars.Kept.{process_vars_kept}
use go_safe_cmd_runner.Templates.Inheritance.{or_default}
use go_safe_cmd_runner.Templates.Spec.{CommandSpec}
use go_safe_cmd_runner.Templates.Command.{resolve_and_prepare_command_spec}
use go_safe_cmd_runner.Levels.Specs.{
  GlobalSpec, GroupSpec, RuntimeGlobal, RuntimeGroup, RuntimeCommand, explicit,
}
use go_safe_cmd_runner.Levels.Timeouts.{default_timeout, default_output_size_limit}
use go_safe_cmd_runner.Levels.SystemEnv.{parse_system_environment, generate_global_auto_vars}
use go_safe_cmd_runner.Levels.CmdAllowed.{expand_cmd_allowed}
use go_safe_cmd_runner.Levels.CmdAllowed.Paths.{IsResolved, expand_cmd_allowed_paths}
use go_safe_cmd_runner.Levels.Expansion.{
  determine_effective_env_allowlist, expand_global, expand_group, expand_command,
}
use go_safe_cmd_runner.Levels.Expansion.Steps.{IsAllowedImport}
use go_safe_cmd_runner.Levels.Expansion.Imported.{expand_command_imports}
use go_safe_cmd_runner.Levels.Expansion.Fields.{
  IsMeaning, AreMeanings, IsEnvOf, value_or, expand_command-IsMeaning,
}

abbrev imported : Dict Text
imported = (codes "home", codes "/u") ∷ []

abbrev table : Option (Dict RawValue)
table = some ((codes "bin", string (codes "%{home}/bin")) ∷ [])

vars_processed :
    process_vars imported [] imported (codes "group[g]") table
    ≡ ok ((codes "home", codes "/u") ∷ (codes "bin", codes "/u/bin") ∷ [], [])
unfolding process_vars validate_and_classify_vars classify_all classify_one classify_value
    validate_name validate_variable_name_for_scope determine_scope validate_string_var
    validate_array_var check_elements expand_vars_with_lazy_resolution expand_string_vars
    expand_array_vars expand_elements Lazy.expand_string Lazy.expand_at Lazy.resolve_variable
    Lazy.resolve_raw Lazy.expand_raw process_var_refs walk round resolve_reference
    validate_variable_name next_piece lookup insert contains cut decimal unmark is_defined scope_eq
    has_prefix text_eq
vars_processed = refl

process_vars_kept_example :
    lookup (codes "home") ((codes "home", codes "/u") ∷ (codes "bin", codes "/u/bin") ∷ [])
    ≡ some (codes "/u")
unfolding lookup text_eq
process_vars_kept_example =
    process_vars_kept imported [] imported (codes "group[g]") table (codes "home") (codes "/u")
      (codes "/u") ((codes "home", codes "/u") ∷ (codes "bin", codes "/u/bin") ∷ []) [] refl refl
      vars_processed

-- No path is a symbolic link.
abbrev plain_file : Text → Option Text
plain_file path = some path

abbrev tools : List Text
tools = codes "%{home}/tool" ∷ codes "/bin/ls" ∷ []

abbrev tool_paths : List Text
tool_paths = codes "/bin/ls" ∷ codes "/u/tool" ∷ []

tools_allowed : expand_cmd_allowed plain_file imported (codes "g") tools ≡ ok tool_paths
unfolding expand_string resolve_and_expand resolver process_var_refs walk round resolve_reference
    validate_variable_name next_piece lookup insert contains cut decimal unmark has_prefix text_eq
    expand_cmd_allowed
tools_allowed = refl

expand_cmd_allowed_paths_example :
    All
      (λ raw_path.
        (resolved : Text) × IsResolved plain_file imported (codes "g") raw_path resolved
        × (contains tool_paths resolved ≡ true))
      tools
    × ((path : Text)
        → contains tool_paths path ≡ true
        → Some (λ raw_path. IsResolved plain_file imported (codes "g") raw_path path) tools)
    × Distinct tool_paths
expand_cmd_allowed_paths_example =
    expand_cmd_allowed_paths plain_file imported (codes "g") tools tool_paths tools_allowed

abbrev environ : List Text
environ = codes "HOME=/u" ∷ codes "LANG=C" ∷ codes "bad" ∷ []

abbrev global_spec : GlobalSpec
global_spec = record {
  timeout = none;
  output_size_limit = none;
  verify_files = [];
  env_allowed = codes "HOME" ∷ [];
  env_vars = [];
  env_import = codes "Home=HOME" ∷ [];
  vars = none;
}

abbrev global_vars : Dict Text
global_vars =
    (codes "__runner_datetime", codes "now")
    ∷ (codes "__runner_pid", codes "7")
    ∷ (codes "Home", codes "/u")
    ∷ []

abbrev global_runtime : RuntimeGlobal
global_runtime = record {
  spec = global_spec;
  expanded_verify_files = [];
  expanded_env = [];
  expanded_vars = global_vars;
  expanded_array_vars = [];
  env_import_vars = (codes "Home", codes "/u") ∷ [];
  system_env = (codes "HOME", codes "/u") ∷ (codes "LANG", codes "C") ∷ [];
}

global_expands : expand_global environ (codes "now") 7 global_spec ≡ ok global_runtime
unfolding expand_string resolve_and_expand resolver process_var_refs walk round resolve_reference
    validate_variable_name next_piece lookup insert contains cut decimal unmark has_prefix text_eq
    expand_cmd_allowed process_vars validate_name validate_variable_name_for_scope determine_scope
    scope_eq is_defined check_import import_one process_env_import for_each value_or_empty
    has_any_prefix is_forbidden_env_var parse_key_value check_env env_one process_env
    parse_system_environment generate_global_auto_vars expand_global
global_expands = refl

abbrev group_spec : GroupSpec
group_spec = record {
  name = codes "g";
  verify_files = [];
  env_allowed = some (codes "LANG" ∷ []);
  cmd_allowed = [];
  env_vars = [];
  env_import = codes "lang=LANG" ∷ [];
  vars = none;
}

abbrev group_runtime : RuntimeGroup
group_runtime = record {
  spec = group_spec;
  expanded_verify_files = [];
  expanded_env = [];
  expanded_vars =
      (codes "__runner_datetime", codes "now")
      ∷ (codes "__runner_pid", codes "7")
      ∷ (codes "Home", codes "/u")
      ∷ (codes "lang", codes "C")
      ∷ [];
  expanded_array_vars = [];
  env_import_vars = (codes "Home", codes "/u") ∷ (codes "lang", codes "C") ∷ [];
  expanded_cmd_allowed = [];
  env_allowlist_inheritance_mode = explicit;
}

group_expands : expand_group plain_file group_spec (some global_runtime) ≡ ok group_runtime
unfolding expand_string resolve_and_expand resolver process_var_refs walk round resolve_reference
    validate_variable_name next_piece lookup insert contains cut decimal unmark has_prefix text_eq
    expand_cmd_allowed process_vars validate_name validate_variable_name_for_scope determine_scope
    scope_eq is_defined check_import import_one process_env_import for_each value_or_empty
    has_any_prefix is_forbidden_env_var parse_key_value check_env env_one process_env
    parse_system_environment generate_global_auto_vars expand_group
group_expands = refl

abbrev command : CommandSpec
command = record {
  name = codes "c";
  description = [];
  template = [];
  params = [];
  cmd = codes "%{Home}/tool";
  args = codes "%{lang}" ∷ [];
  work_dir = none;
  timeout = none;
  output_size_limit = some (pos 0);
  run_as_user = [];
  run_as_group = [];
  risk_level = none;
  output_file = none;
  env_vars = codes "A=%{lang}" ∷ [];
  env_import = [];
  vars = none;
}

abbrev command_runtime : RuntimeCommand
command_runtime = record {
  spec = command;
  expanded_cmd = codes "/u/tool";
  expanded_args = codes "C" ∷ [];
  expanded_env = (codes "A", codes "C") ∷ [];
  expanded_vars =
      (codes "__runner_datetime", codes "now")
      ∷ (codes "__runner_pid", codes "7")
      ∷ (codes "Home", codes "/u")
      ∷ (codes "lang", codes "C")
      ∷ [];
  expanded_array_vars = [];
  env_import_vars = (codes "Home", codes "/u") ∷ (codes "lang", codes "C") ∷ [];
  effective_timeout = pos 60;
  timeout_resolution = record {
    command_name = codes "c";
    group_name = codes "g";
    level = codes "default";
  };
  effective_output_size_limit = pos 0;
}

command_expands :
    expand_command command [] group_runtime (some global_runtime) none none ≡ ok command_runtime
unfolding expand_string resolve_and_expand resolver process_var_refs walk round resolve_reference
    validate_variable_name next_piece lookup insert contains cut decimal unmark has_prefix text_eq
    expand_cmd_allowed process_vars validate_name validate_variable_name_for_scope determine_scope
    scope_eq is_defined check_import import_one process_env_import for_each value_or_empty
    has_any_prefix is_forbidden_env_var parse_key_value check_env env_one process_env
    parse_system_environment generate_global_auto_vars expand_command
    resolve_and_prepare_command_spec
command_expands = refl

home_known : lookup (codes "Home") command_runtime.env_import_vars ≡ some (codes "/u")
unfolding lookup text_eq
home_known = refl

expand_command_imports_example :
    (lookup (codes "Home") command_runtime.expanded_vars ≡ some (codes "/u"))
    × (IsAllowedImport global_spec.env_allowed
          (parse_system_environment environ)
          (codes "Home")
          (codes "/u")
        ⊎ IsAllowedImport
            (determine_effective_env_allowlist group_spec.env_allowed global_spec.env_allowed)
            (parse_system_environment environ)
            (codes "Home")
            (codes "/u"))
expand_command_imports_example =
    expand_command_imports environ (codes "now") 7 global_spec global_runtime plain_file group_spec
      group_runtime command [] none none command_runtime global_expands group_expands
      command_expands (codes "Home") (codes "/u") home_known

expand_command-IsMeaning_example :
    (warnings : List Text) × (resolve_and_prepare_command_spec command [] ≡ ok (command, warnings))
    × IsMeaning command_runtime.expanded_vars command.cmd (codes "/u/tool")
    × AreMeanings command_runtime.expanded_vars command.args (codes "C" ∷ [])
    × IsEnvOf command_runtime.expanded_vars
        (codes "command[c]")
        command.env_vars
        ((codes "A", codes "C") ∷ [])
    × (command_runtime.effective_timeout
        ≡ value_or (or_default command.timeout none) default_timeout)
    × (command_runtime.effective_output_size_limit
        ≡ value_or (or_default command.output_size_limit none) default_output_size_limit)
expand_command-IsMeaning_example =
    expand_command-IsMeaning command [] group_runtime (some global_runtime) none none
      command_runtime command_expands

process_env_import_iff_example :
    ((result : Dict Text) × (process_env_import
          (codes "HOME" ∷ [])
          ((codes "HOME", codes "/u") ∷ [])
          (codes "group[g]")
          (codes "home=HOME" ∷ codes "dir=HOME" ∷ [])
        ≡ ok result))
    ↔ ((names : List Text) × Imports
          (codes "HOME" ∷ [])
          ((codes "HOME", codes "/u") ∷ [])
          (codes "group[g]")
          (codes "home=HOME" ∷ codes "dir=HOME" ∷ [])
          names
        × Distinct names)
process_env_import_iff_example =
    process_env_import_iff (codes "HOME" ∷ []) ((codes "HOME", codes "/u") ∷ []) (codes "group[g]")
      (codes "home=HOME" ∷ codes "dir=HOME" ∷ [])
