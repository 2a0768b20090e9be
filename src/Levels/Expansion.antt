-- ===== src/Levels/Expansion.antt =====
-- `ExpandGlobal`, `ExpandGroup` and `ExpandCommand` of internal/runner/config/expansion.go.
pub mod Steps
pub mod Imported
pub mod Fields
use go_safe_cmd_runner.Base.{
  ℕ, ◌+◌, ◌≡◌, refl, Bool, true, false, List, [], ◌∷◌, ◌++◌, Option, none, some, Text, codes,
  decimal, ℤ, if◌then◌else◌, Result, ok, err, ◌>>=◌,
}
use go_safe_cmd_runner.Base.Dict.{Dict}
use go_safe_cmd_runner.Expand.Lazy.{RawValue}
use go_safe_cmd_runner.Expand.Strings.{expand_string}
use go_safe_cmd_runner.Config.Errors.{ConfigError}
use go_safe_cmd_runner.Config.Imports.{process_env_import}
use go_safe_cmd_runner.Config.Vars.{process_vars}
use go_safe_cmd_runner.Config.Env.{process_env}
use go_safe_cmd_runner.Templates.Errors.{TemplateError}
use go_safe_cmd_runner.Templates.Inheritance.{copy_to}
use go_safe_cmd_runner.Templates.Spec.{CommandSpec, CommandTemplate}
use go_safe_cmd_runner.Templates.Command.{resolve_and_prepare_command_spec}
use go_safe_cmd_runner.Levels.Specs.{
  GlobalSpec, GroupSpec, RuntimeGlobal, RuntimeGroup, RuntimeCommand, InheritanceMode, inherit,
  explicit, reject, LevelError, config, template,
}
use go_safe_cmd_runner.Levels.Timeouts.{resolve_timeout, resolve_output_size_limit}
use go_safe_cmd_runner.Levels.SystemEnv.{parse_system_environment, generate_global_auto_vars}
use go_safe_cmd_runner.Levels.CmdAllowed.{expand_cmd_allowed, group_level, lift_expanding}

abbrev pub lift_config {ℓ} : {A : Type ℓ} → Result ConfigError A → Result LevelError A
lift_config (ok a) = ok a
lift_config (err e) = err (config e)

abbrev pub lift_template {ℓ} : {A : Type ℓ} → Result TemplateError A → Result LevelError A
lift_template (ok a) = ok a
lift_template (err e) = err (template e)

-- A loop that expands the strings of a field, from an index on.
unfoldable pub expand_list : Dict Text → Text → Text → ℕ → List Text → Result LevelError (List Text)
unfolding expand_string
expand_list vars level field i [] = ok []
expand_list vars level field i (s ∷ rest) =
    lift_expanding (expand_string s vars level (field ++ (codes "[" ++ (decimal i ++ codes "]"))))
    >>= λ expanded. expand_list vars level field (i + 1) rest >>= λ later. ok (expanded ∷ later)

-- The variables of a level while it is expanded.
pub record LevelVars : Type 0 where
  pub expanded_vars : Dict Text
  pub expanded_array_vars : Dict (List Text)
  pub env_import_vars : Dict Text

unfoldable pub import_into : LevelVars → Dict Text → LevelVars
unfolding copy_to
import_into v imported = record v {
  expanded_vars = copy_to v.expanded_vars imported;
  env_import_vars = copy_to v.env_import_vars imported;
}

-- An import of a level, where there is something to import.
unfoldable pub import_at :
    List Text → Dict Text → Text → List Text → LevelVars → Result LevelError LevelVars
unfolding process_env_import import_into
import_at allowlist system_env level [] v = ok v
import_at allowlist system_env level (mapping ∷ rest) v =
    lift_config (process_env_import allowlist system_env level (mapping ∷ rest)) >>= λ imported.
    ok (import_into v imported)

unfoldable pub vars_at : Text → Option (Dict RawValue) → LevelVars → Result LevelError LevelVars
unfolding process_vars
vars_at level vars v =
    lift_config (process_vars v.expanded_vars v.expanded_array_vars v.env_import_vars level vars)
    >>= λ (strings, arrays). ok (record v { expanded_vars = strings; expanded_array_vars = arrays })

unfoldable pub expand_global : List Text → Text → ℕ → GlobalSpec → Result LevelError RuntimeGlobal
unfolding parse_system_environment generate_global_auto_vars process_env_import process_env
    expand_list vars_at copy_to
expand_global environ datetime pid spec = do
  imported ← lift_config (
      process_env_import spec.env_allowed (parse_system_environment environ) (codes "global")
        spec.env_import)
  v ← vars_at (codes "global") spec.vars (record {
    expanded_vars = copy_to (generate_global_auto_vars datetime pid) imported;
    expanded_array_vars = [];
    env_import_vars = imported;
  })
  env ← lift_config (process_env v.expanded_vars (codes "global") spec.env_vars)
  files ← expand_list v.expanded_vars (codes "global") (codes "verify_files") 0 spec.verify_files
  ok (record {
    spec = spec;
    expanded_verify_files = files;
    expanded_env = env;
    expanded_vars = v.expanded_vars;
    expanded_array_vars = v.expanded_array_vars;
    env_import_vars = v.env_import_vars;
    system_env = parse_system_environment environ;
  })

unfoldable pub determine_env_allowlist_inheritance_mode : Option (List Text) → InheritanceMode
determine_env_allowlist_inheritance_mode none = inherit
determine_env_allowlist_inheritance_mode (some []) = reject
determine_env_allowlist_inheritance_mode (some (name ∷ names)) = explicit

unfoldable pub determine_effective_env_allowlist : Option (List Text) → List Text → List Text
determine_effective_env_allowlist none global_allowlist = global_allowlist
determine_effective_env_allowlist (some group_allowlist) global_allowlist = group_allowlist

-- A nil global runtime has no allowlist and no environment.
abbrev pub global_allowlist : Option RuntimeGlobal → List Text
global_allowlist none = []
global_allowlist (some global_runtime) = global_runtime.spec.env_allowed

abbrev pub global_system_env : Option RuntimeGlobal → Dict Text
global_system_env none = []
global_system_env (some global_runtime) = global_runtime.system_env

-- The maps are copied into empty ones.
unfoldable pub inherited_vars : Option RuntimeGlobal → LevelVars
inherited_vars none = record { expanded_vars = []; expanded_array_vars = []; env_import_vars = [] }
inherited_vars (some global_runtime) = record {
  expanded_vars = global_runtime.expanded_vars;
  expanded_array_vars = global_runtime.expanded_array_vars;
  env_import_vars = global_runtime.env_import_vars;
}

unfoldable pub expand_group :
    (Text → Option Text) → GroupSpec → Option RuntimeGlobal → Result LevelError RuntimeGroup
unfolding inherited_vars determine_env_allowlist_inheritance_mode determine_effective_env_allowlist
    import_at vars_at process_env expand_list expand_cmd_allowed
expand_group eval_symlinks spec global_runtime = do
  imported ←
      import_at
        (determine_effective_env_allowlist spec.env_allowed (global_allowlist global_runtime))
        (global_system_env global_runtime) (group_level spec.name) spec.env_import
        (inherited_vars global_runtime)
  v ← vars_at (group_level spec.name) spec.vars imported
  env ← lift_config (process_env v.expanded_vars (group_level spec.name) spec.env_vars)
  files ←
      expand_list v.expanded_vars (group_level spec.name) (codes "verify_files") 0 spec.verify_files
  cmd_allowed ← expand_cmd_allowed eval_symlinks v.expanded_vars spec.name spec.cmd_allowed
  ok (record {
    spec = spec;
    expanded_verify_files = files;
    expanded_env = env;
    expanded_vars = v.expanded_vars;
    expanded_array_vars = v.expanded_array_vars;
    env_import_vars = v.env_import_vars;
    expanded_cmd_allowed = cmd_allowed;
    env_allowlist_inheritance_mode = determine_env_allowlist_inheritance_mode spec.env_allowed;
  })

abbrev pub command_level : Text → Text
command_level name = codes "command[" ++ (name ++ codes "]")

unfoldable pub expand_command_env_import :
    CommandSpec → LevelVars → RuntimeGroup → Option RuntimeGlobal → Result LevelError LevelVars
unfolding import_at determine_effective_env_allowlist
expand_command_env_import spec v runtime_group global_runtime =
    import_at
      (determine_effective_env_allowlist runtime_group.spec.env_allowed
        (global_allowlist global_runtime))
      (global_system_env global_runtime) (command_level spec.name) spec.env_import v

unfoldable pub expand_command_vars : CommandSpec → LevelVars → Result LevelError LevelVars
unfolding vars_at
expand_command_vars spec v = vars_at (command_level spec.name) spec.vars v

-- The expanded cmd, args and environment.
unfoldable pub expand_command_fields :
    CommandSpec → Dict Text → Result LevelError (Text × List Text × Dict Text)
unfolding expand_string expand_list process_env
expand_command_fields spec vars = do
  cmd ← lift_expanding (expand_string spec.cmd vars (command_level spec.name) (codes "cmd"))
  args ← expand_list vars (command_level spec.name) (codes "args") 0 spec.args
  env ← lift_config (process_env vars (command_level spec.name) spec.env_vars)
  ok (cmd, args, env)

-- The variables that a command starts from; the maps are copied into empty ones.
unfoldable pub group_vars : RuntimeGroup → LevelVars
group_vars runtime_group = record {
  expanded_vars = runtime_group.expanded_vars;
  expanded_array_vars = runtime_group.expanded_array_vars;
  env_import_vars = runtime_group.env_import_vars;
}

-- A resolved command. A nil group makes the code panic, so a group is given.
unfoldable pub expand_resolved :
    CommandSpec
    → RuntimeGroup
    → Option RuntimeGlobal
    → Option ℤ
    → Option ℤ
    → Result LevelError RuntimeCommand
unfolding group_vars expand_command_env_import expand_command_vars expand_command_fields
    resolve_timeout resolve_output_size_limit
expand_resolved spec runtime_group global_runtime global_timeout global_output_size_limit = do
  let timeout = resolve_timeout spec.timeout none global_timeout spec.name runtime_group.spec.name
  imported ← expand_command_env_import spec (group_vars runtime_group) runtime_group global_runtime
  v ← expand_command_vars spec imported
  fields ← expand_command_fields spec v.expanded_vars
  ok (record {
    spec = spec;
    expanded_cmd = fields.0;
    expanded_args = fields.1;
    expanded_env = fields.2;
    expanded_vars = v.expanded_vars;
    expanded_array_vars = v.expanded_array_vars;
    env_import_vars = v.env_import_vars;
    effective_timeout = timeout.0;
    timeout_resolution = timeout.1;
    effective_output_size_limit =
        resolve_output_size_limit spec.output_size_limit global_output_size_limit;
  })

unfoldable pub expand_command :
    CommandSpec
    → Dict CommandTemplate
    → RuntimeGroup
    → Option RuntimeGlobal
    → Option ℤ
    → Option ℤ
    → Result LevelError RuntimeCommand
unfolding resolve_and_prepare_command_spec expand_resolved
expand_command spec templates runtime_group global_runtime global_timeout global_output_size_limit =
    lift_template (resolve_and_prepare_command_spec spec templates) >>= λ (working_spec, warnings).
    expand_resolved working_spec runtime_group global_runtime global_timeout
      global_output_size_limit
