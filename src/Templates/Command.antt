-- ===== src/Templates/Command.antt =====
-- `resolveAndPrepareCommandSpec`, `expandTemplateToSpec` and `ApplyTemplateInheritance` of
-- internal/runner/config/expansion.go. The warnings that are logged stand beside the result.
pub mod Resolved
use go_safe_cmd_runner.Base.{
  ◌≡◌, refl, Bool, true, false, List, [], ◌∷◌, ◌++◌, Option, none, some, Text, codes, contains,
  text_eq, length, if◌then◌else◌, Result, ok, err, ◌>>=◌, ℤ,
}
use go_safe_cmd_runner.Base.Dict.{Dict, lookup}
use go_safe_cmd_runner.Expand.Lazy.{RawValue}
use go_safe_cmd_runner.Templates.Errors.{TemplateError, cmd_not_single_value, template_not_found}
use go_safe_cmd_runner.Templates.Args.{expand_single_arg, expand_template_args}
use go_safe_cmd_runner.Templates.Env.{expand_template_env}
use go_safe_cmd_runner.Templates.Vars.{expand_template_vars}
use go_safe_cmd_runner.Templates.Usage.{collect_used_params}
use go_safe_cmd_runner.Templates.Inheritance.{
  override_string_pointer, merge_env_import, merge_vars, or_default,
}
use go_safe_cmd_runner.Templates.Spec.{CommandTemplate, CommandSpec}

-- The parameters that get a warning.
unfoldable pub unused_params : Dict RawValue → List Text → List Text
unused_params [] used = []
unused_params ((name, value) ∷ rest) used =
    let later = unused_params rest used in if contains used name then later else name ∷ later

unfoldable pub single_cmd : Text → List Text → Result TemplateError Text
single_cmd template_name ([] ∷ []) = err (cmd_not_single_value template_name 0)
single_cmd template_name ((c ∷ s) ∷ []) = ok (c ∷ s)
single_cmd template_name results = err (cmd_not_single_value template_name (length results))

abbrev first_text : List Text → Option Text
first_text [] = none
first_text (s ∷ rest) = some s

unfoldable pub expand_pointer :
    Dict RawValue → Text → Text → Option Text → Result TemplateError (Option Text)
unfolding expand_single_arg
expand_pointer params template_name field none = ok none
expand_pointer params template_name field (some s) =
    expand_single_arg params template_name field s >>= λ result. ok (first_text result)

abbrev pub or_empty : Option (Dict RawValue) → Dict RawValue
or_empty none = []
or_empty (some vars) = vars

-- The arguments are those of the code, the expanded spec that it changes first.
unfoldable pub apply_template_inheritance :
    CommandSpec → CommandSpec → Option Text → Option Text → List Text → Dict RawValue → CommandSpec
unfolding override_string_pointer merge_env_import merge_vars
apply_template_inheritance expanded_spec cmd_spec expanded_work_dir expanded_output_file
      expanded_env_import expanded_vars =
    record expanded_spec {
      work_dir = override_string_pointer cmd_spec.work_dir expanded_work_dir;
      output_file = override_string_pointer cmd_spec.output_file expanded_output_file;
      env_import = merge_env_import expanded_env_import cmd_spec.env_import;
      vars = some (merge_vars expanded_vars (or_empty cmd_spec.vars));
    }

-- The expanded spec of `expandTemplateToSpec`, before the inheritance.
unfoldable pub expanded_spec : CommandSpec → Text → List Text → List Text → CommandSpec
expanded_spec cmd_spec cmd args env_vars = record {
  name = cmd_spec.name;
  description = cmd_spec.description;
  template = [];
  params = [];
  cmd = cmd;
  args = args;
  work_dir = none;
  timeout = cmd_spec.timeout;
  output_size_limit = cmd_spec.output_size_limit;
  run_as_user = cmd_spec.run_as_user;
  run_as_group = cmd_spec.run_as_group;
  risk_level = cmd_spec.risk_level;
  output_file = none;
  env_vars = env_vars;
  env_import = [];
  vars = none;
}

unfoldable pub with_defaults : CommandTemplate → CommandSpec → CommandSpec
with_defaults template spec = record spec {
  timeout = or_default spec.timeout template.timeout;
  output_size_limit = or_default spec.output_size_limit template.output_size_limit;
  risk_level = or_default spec.risk_level template.risk_level;
}

unfoldable pub expand_template_to_spec :
    CommandSpec → CommandTemplate → Text → Result TemplateError (CommandSpec × List Text)
unfolding collect_used_params unused_params single_cmd expand_pointer apply_template_inheritance
    expanded_spec with_defaults
expand_template_to_spec cmd_spec template template_name = do
  used ← collect_used_params template
  results ← expand_single_arg cmd_spec.params template_name (codes "cmd") template.cmd
  cmd ← single_cmd template_name results
  args ← expand_template_args template.args cmd_spec.params template_name
  env_vars ← expand_template_env template.env_vars cmd_spec.params template_name
  work_dir ← expand_pointer cmd_spec.params template_name (codes "workdir") template.work_dir
  output_file ←
      expand_pointer cmd_spec.params template_name (codes "output_file") template.output_file
  vars ← expand_template_vars template.vars cmd_spec.params template_name
  ok (
    with_defaults template (
        apply_template_inheritance (expanded_spec cmd_spec cmd args env_vars) cmd_spec work_dir
          output_file template.env_import vars),
    unused_params cmd_spec.params used,
  )

unfoldable pub resolve_template :
    CommandSpec → Option CommandTemplate → Result TemplateError (CommandSpec × List Text)
unfolding expand_template_to_spec
resolve_template spec none = err (template_not_found spec.name spec.template)
resolve_template spec (some template) = expand_template_to_spec spec template spec.template

unfoldable pub resolve_and_prepare_command_spec :
    CommandSpec → Dict CommandTemplate → Result TemplateError (CommandSpec × List Text)
unfolding resolve_template
resolve_and_prepare_command_spec spec templates =
    if text_eq spec.template []
    then ok (spec, [])
    else resolve_template spec (lookup spec.template templates)
