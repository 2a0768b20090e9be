-- ===== src/Tests/Validation.antt =====
-- The checks of templates at concrete inputs.
use go_safe_cmd_runner.Base.{
  ◌≡◌, refl, none, [], ◌∷◌, ◌++◌, All, Text, codes, cut, decimal, contains, text_eq, ok, err,
}
use go_safe_cmd_runner.Base.Dict.{Dict, lookup}
use go_safe_cmd_runner.Names.{validate_variable_name}
use go_safe_cmd_runner.Names.Scopes.{determine_scope, scope_eq}
use go_safe_cmd_runner.Expand.Pieces.{next_piece}
use go_safe_cmd_runner.Expand.Refs.{process_var_refs, walk, round, resolve_reference}
use go_safe_cmd_runner.Templates.Spec.{CommandTemplate}
use go_safe_cmd_runner.Templates.Args.{expand_single_arg}
use go_safe_cmd_runner.Templates.Validation.{
  local_variable_in_template, validate_global_only, validate_template_vars, collect_refs,
}
use go_safe_cmd_runner.Templates.Validation.References.{
  refs_in, RefersToGlobals, InPointer, InEnv, validate_template_vars-RefersToGlobals,
}
use go_safe_cmd_runner.Templates.Validation.Escapes.{escaped_reference}

abbrev backup : CommandTemplate
backup = record {
  cmd = codes "%{Bin}/tar";
  args = codes "-v" ∷ [];
  env_vars = codes "T=%{Bin}" ∷ [];
  work_dir = none;
  timeout = none;
  output_size_limit = none;
  risk_level = none;
  output_file = none;
  env_import = [];
  vars = [];
}

abbrev global_vars : Dict Text
global_vars = (codes "Bin", codes "/bin") ∷ []

accepted : validate_template_vars backup (codes "t") global_vars ≡ ok tt
unfolding validate_template_vars collect_refs process_var_refs walk round resolve_reference
    validate_variable_name next_piece cut lookup text_eq determine_scope scope_eq contains decimal
accepted = refl

validate_template_vars-RefersToGlobals_example :
    RefersToGlobals global_vars backup.cmd
    × InPointer global_vars backup.work_dir
    × All (RefersToGlobals global_vars) backup.args
    × All (InEnv global_vars) backup.env_vars
validate_template_vars-RefersToGlobals_example =
    validate_template_vars-RefersToGlobals global_vars backup (codes "t") accepted

local_rejected :
    validate_global_only (codes "%{secret}") (codes "t") (codes "cmd")
    ≡ err (local_variable_in_template (codes "t") (codes "cmd") (codes "secret"))
unfolding validate_global_only collect_refs process_var_refs walk round resolve_reference
    validate_variable_name next_piece cut determine_scope scope_eq contains
local_rejected = refl

secret_valid : validate_variable_name (codes "secret") ≡ ok tt
unfolding validate_variable_name
secret_valid = refl

escaped_reference_example :
    (validate_global_only
        (codes "\\\\\\%{" ++ (codes "secret" ++ codes "}"))
        (codes "t")
        (codes "args[0]")
      ≡ ok tt)
    × (expand_single_arg []
          (codes "t")
          (codes "args[0]")
          (codes "\\\\\\%{" ++ (codes "secret" ++ codes "}"))
        ≡ ok ((codes "\\\\%{" ++ (codes "secret" ++ codes "}")) ∷ []))
    × (refs_in 0 (codes "\\\\%{" ++ (codes "secret" ++ codes "}")) ≡ codes "secret" ∷ [])
escaped_reference_example =
    escaped_reference [] (codes "t") (codes "args[0]") (codes "secret") secret_valid
