-- ===== src/Tests/Template.antt =====
-- Command templates at concrete inputs.
use mathlib.Core.Option
use go_safe_cmd_runner.Base.{
  ◌≡◌, refl, false, none, some, List, [], ◌∷◌, All, Text, codes, text_eq, contains, cut, decimal,
  ok, pos,
}
use go_safe_cmd_runner.Base.Dict.{Dict, lookup, UniqueKeys}
use go_safe_cmd_runner.Names.{validate_variable_name}
use go_safe_cmd_runner.Expand.Lazy.{RawValue, string, array, text_element}
use go_safe_cmd_runner.Templates.Placeholders.{
  Placeholder, optional, parse_placeholders, parse_round, next_token, hole_token, is_escape,
  check_content, check_name, split_content, apply_escape_sequences,
}
use go_safe_cmd_runner.Templates.Args.{replace_all, expand_single_arg}
use go_safe_cmd_runner.Templates.Args.Reading.{to_option, fill}
use go_safe_cmd_runner.Templates.Args.Fill.{replace_all-fill}
use go_safe_cmd_runner.Templates.Args.Single.{shown, expand_single_arg-fill}
use go_safe_cmd_runner.Templates.Env.{expand_template_env}
use go_safe_cmd_runner.Templates.Env.Entries.{IsEnvEntry, NewKeys, expand_template_env_entries}
use go_safe_cmd_runner.Templates.Inheritance.{merge_env_import, merge_vars, or_default}
use go_safe_cmd_runner.Templates.Inheritance.Rounds.{
  DistinctNames, first_named, last_named, or_else,
}
use go_safe_cmd_runner.Templates.Inheritance.Merged.{merge_env_import_lem}
use go_safe_cmd_runner.Templates.Inheritance.Copied.{lookup-merge_vars}
use go_safe_cmd_runner.Templates.Spec.{CommandSpec, CommandTemplate}

abbrev params : Dict RawValue
params =
    (codes "flag", string (codes "-q"))
    ∷ (codes "vols", array (text_element (codes "a") ∷ text_element (codes "b") ∷ []))
    ∷ (codes "spare", string [])
    ∷ []

abbrev mixed : Text
mixed = codes "a\\${x}=${?flag}"

abbrev holes : List Placeholder
holes =
    record {
      full_match = codes "${?flag}";
      name = codes "flag";
      ptype = optional;
      start = 7;
      stop = 15;
    }
    ∷ []

mixed-holes : parse_placeholders mixed ≡ ok holes
unfolding parse_placeholders next_token hole_token is_escape parse_round check_content check_name
    split_content validate_variable_name cut
mixed-holes = refl

replace_all-fill_example :
    to_option (replace_all params (codes "t") (codes "cmd") holes mixed) ≡ fill params false 0 mixed
replace_all-fill_example = replace_all-fill params (codes "t") (codes "cmd") mixed holes mixed-holes

expand_single_arg-fill_example :
    to_option (expand_single_arg params (codes "t") (codes "cmd") mixed)
    ≡ Option.map (shown holes) (fill params false 0 mixed)
unfolding text_eq
expand_single_arg-fill_example =
    expand_single_arg-fill params (codes "t") (codes "cmd") mixed holes mixed-holes refl

mixed_filled : expand_single_arg params (codes "t") (codes "cmd") mixed ≡ ok (codes "a${x}=-q" ∷ [])
unfolding expand_single_arg parse_placeholders next_token hole_token is_escape parse_round
    check_content check_name split_content validate_variable_name cut lookup text_eq
    apply_escape_sequences
mixed_filled = refl

abbrev template_entries : List Text
template_entries = codes "F=${flag}" ∷ codes "S=${?spare}" ∷ []

env_expanded : expand_template_env template_entries params (codes "t") ≡ ok (codes "F=-q" ∷ [])
unfolding expand_template_env parse_placeholders next_token hole_token is_escape parse_round
    check_content check_name split_content validate_variable_name cut lookup text_eq
    apply_escape_sequences decimal contains expand_single_arg
env_expanded = refl

expand_template_env_entries_example :
    All IsEnvEntry (codes "F=-q" ∷ []) × NewKeys [] (codes "F=-q" ∷ [])
expand_template_env_entries_example =
    expand_template_env_entries template_entries params (codes "t") (codes "F=-q" ∷ []) env_expanded

abbrev template_imports : List Text
template_imports = codes "a=X" ∷ codes "b=Y" ∷ []

abbrev command_imports : List Text
command_imports = codes "c=Z" ∷ codes "a=W" ∷ []

merge_env_import_lem_example :
    DistinctNames (merge_env_import template_imports command_imports)
    × ((name : Text)
        → first_named name (merge_env_import template_imports command_imports)
          ≡ or_else (last_named name command_imports) (first_named name template_imports))
merge_env_import_lem_example = merge_env_import_lem template_imports command_imports

abbrev template_vars : Dict RawValue
template_vars = (codes "x", string (codes "1")) ∷ (codes "y", string (codes "2")) ∷ []

abbrev own_vars : Dict RawValue
own_vars = (codes "y", string (codes "3")) ∷ []

template_keys : UniqueKeys template_vars
unfolding lookup text_eq
template_keys = (refl, (refl, tt))

own_keys : UniqueKeys own_vars
unfolding lookup
own_keys = (refl, tt)

lookup-merge_vars_example :
    lookup (codes "y") (merge_vars template_vars own_vars)
    ≡ or_default (lookup (codes "y") own_vars) (lookup (codes "y") template_vars)
lookup-merge_vars_example =
    lookup-merge_vars (codes "y") template_vars own_vars template_keys own_keys

abbrev backup : CommandTemplate
backup = record {
  cmd = codes "/bin/${tool}";
  args = codes "${@vols}" ∷ codes "-v" ∷ [];
  env_vars = codes "F=${flag}" ∷ [];
  work_dir = some (codes "/w");
  timeout = some (pos 5);
  output_size_limit = none;
  risk_level = none;
  output_file = none;
  env_import = codes "a=X" ∷ [];
  vars = (codes "x", string (codes "${flag}")) ∷ [];
}

abbrev command : CommandSpec
command = record {
  name = codes "c";
  description = [];
  template = codes "backup";
  params = (codes "tool", string (codes "tar")) ∷ params;
  cmd = [];
  args = [];
  work_dir = none;
  timeout = none;
  output_size_limit = none;
  run_as_user = codes "u";
  run_as_group = [];
  risk_level = none;
  output_file = none;
  env_vars = [];
  env_import = codes "b=Y" ∷ [];
  vars = none;
}

abbrev resolved : CommandSpec
resolved = record {
  name = codes "c";
  description = [];
  template = [];
  params = [];
  cmd = codes "/bin/tar";
  args = codes "a" ∷ codes "b" ∷ codes "-v" ∷ [];
  work_dir = some (codes "/w");
  timeout = some (pos 5);
  output_size_limit = none;
  run_as_user = codes "u";
  run_as_group = [];
  risk_level = none;
  output_file = none;
  env_vars = codes "F=-q" ∷ [];
  env_import = codes "a=X" ∷ codes "b=Y" ∷ [];
  vars = some ((codes "x", string (codes "-q")) ∷ []);
}

-- An escape within a parameter's value is resolved for a required placeholder, and kept for an
-- optional one that stands alone.
value_escapes :
    (expand_single_arg
        ((codes "x", string (codes "a\\$b")) ∷ [])
        (codes "t")
        (codes "cmd")
        (codes "${x}")
      ≡ ok (codes "a$b" ∷ []))
    × (expand_single_arg
          ((codes "x", string (codes "a\\$b")) ∷ [])
          (codes "t")
          (codes "cmd")
          (codes "${?x}")
        ≡ ok (codes "a\\$b" ∷ []))
unfolding expand_single_arg parse_placeholders next_token hole_token is_escape parse_round
    check_content check_name split_content validate_variable_name cut lookup text_eq
    apply_escape_sequences
value_escapes = (refl, refl)
