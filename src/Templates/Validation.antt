-- ===== src/Templates/Validation.antt =====
-- The checks of a template, of internal/runner/config/template_expansion.go: ValidateTemplateName,
-- ValidateTemplateDefinition, and ValidateTemplateVars, which runs when the global variables are known.
pub mod References
pub mod Escapes
use go_safe_cmd_runner.Base.{
  ℕ, ◌+◌, ◌≡◌, refl, Bool, true, false, not, List, [], ◌∷◌, ◌++◌, Option, none, some, Text, codes,
  cut, decimal, has_prefix, text_eq, if◌then◌else◌, Result, ok, err, ◌>>=◌, ◌>>◌, reject_if,
}
use go_safe_cmd_runner.Base.Dict.{Dict, lookup}
use go_safe_cmd_runner.Names.{NameError, validate_variable_name}
use go_safe_cmd_runner.Names.Scopes.{Scope, global, DetermineError, determine_scope, scope_eq}
use go_safe_cmd_runner.Expand.Pieces.{ExpandError, max_recursion_depth}
use go_safe_cmd_runner.Expand.Refs.{State, Resolver, process_var_refs}
use go_safe_cmd_runner.Config.Imports.{is_defined}
use go_safe_cmd_runner.Templates.Spec.{CommandTemplate}

pub data ValidationError : Type 0 where
  -- name, reason
  invalid_template_name : Text → NameError → ValidationError
  reserved_template_name : Text → ValidationError
  -- template, field
  missing_required_field : Text → Text → ValidationError
  bad_reference : ExpandError → ValidationError
  -- template, field, variable, reason
  invalid_scope : Text → Text → Text → DetermineError → ValidationError
  -- template, field, variable
  local_variable_in_template undefined_global_variable_in_template :
      Text → Text → Text → ValidationError

unfoldable pub validate_template_name : Text → Result ValidationError (Unit {0})
unfolding has_prefix
validate_template_name name = elim (validate_variable_name name) [
  | err reason ↦ err (invalid_template_name name reason)
  | ok _ ↦ reject_if (has_prefix name (codes "__")) (reserved_template_name name)
]

-- `refCollector`: the names that it was called with are the memo.
unfoldable pub ref_collector : Resolver (List Text)
ref_collector name chain s = ok ([], record s { memo = s.memo ++ name ∷ [] })

abbrev pub collected :
    Result ExpandError (Text × State (List Text)) → Result ValidationError (List Text)
collected (ok (out, s)) = ok s.memo
collected (err e) = err (bad_reference e)

unfoldable pub collect_refs : Text → Text → Text → Result ValidationError (List Text)
unfolding process_var_refs ref_collector
collect_refs input template_name field = collected (
    process_var_refs ref_collector (codes "template[" ++ (template_name ++ codes "]")) field []
      input max_recursion_depth (record { visited = []; memo = [] }))

module _ (template_name field : Text) where
  unfoldable pub check_global_scope :
      Text → Scope × Result DetermineError (Unit {0}) → Result ValidationError (Unit {0})
  unfolding scope_eq
  check_global_scope name (scope, err e) = err (invalid_scope template_name field name e)
  check_global_scope name (scope, ok _) =
      reject_if (not (scope_eq scope global)) (local_variable_in_template template_name field name)

  -- The loop of `validateGlobalOnly` over the references.
  unfoldable pub check_refs : List Text → Result ValidationError (Unit {0})
  unfolding check_global_scope determine_scope
  check_refs [] = ok tt
  check_refs ([] ∷ rest) = check_refs rest
  check_refs ((c ∷ name) ∷ rest) =
      check_global_scope (c ∷ name) (determine_scope (c ∷ name)) >> check_refs rest

  -- That of `validateFieldVars`.
  unfoldable pub check_defined_refs : Dict Text → List Text → Result ValidationError (Unit {0})
  unfolding check_global_scope determine_scope is_defined
  check_defined_refs global_vars [] = ok tt
  check_defined_refs global_vars ([] ∷ rest) = check_defined_refs global_vars rest
  check_defined_refs global_vars ((c ∷ name) ∷ rest) =
      check_global_scope (c ∷ name) (determine_scope (c ∷ name))
      >> (reject_if (not (is_defined (lookup (c ∷ name) global_vars)))
            (undefined_global_variable_in_template template_name field (c ∷ name))
          >> check_defined_refs global_vars rest)

unfoldable pub validate_global_only : Text → Text → Text → Result ValidationError (Unit {0})
unfolding collect_refs check_refs
validate_global_only [] template_name field = ok tt
validate_global_only (c ∷ input) template_name field =
    collect_refs (c ∷ input) template_name field >>= check_refs template_name field

unfoldable pub validate_field_vars :
    Text → Text → Text → Dict Text → Result ValidationError (Unit {0})
unfolding collect_refs check_defined_refs
validate_field_vars [] template_name field global_vars = ok tt
validate_field_vars (c ∷ input) template_name field global_vars =
    collect_refs (c ∷ input) template_name field
    >>= check_defined_refs template_name field global_vars

-- A loop that checks the strings of a list field, from an index on.
unfoldable pub check_each :
    (Text → Text → Result ValidationError (Unit {0}))
    → Text
    → ℕ
    → List Text
    → Result ValidationError (Unit {0})
check_each check field i [] = ok tt
check_each check field i (s ∷ rest) =
    check s (field ++ (codes "[" ++ (decimal i ++ codes "]")))
    >> check_each check field (i + 1) rest

unfoldable pub check_pointer :
    (Text → Text → Result ValidationError (Unit {0}))
    → Text
    → Option Text
    → Result ValidationError (Unit {0})
check_pointer check field none = ok tt
check_pointer check field (some s) = check s field

unfoldable pub validate_template_definition :
    Text → CommandTemplate → Result ValidationError (Unit {0})
unfolding validate_global_only check_each check_pointer text_eq
validate_template_definition name template =
    let check : Text → Text → Result ValidationError (Unit {0}) =
      λ input field. validate_global_only input name field in
    do
      reject_if (text_eq template.cmd []) (missing_required_field name (codes "cmd"))
      check template.cmd (codes "cmd")
      check_each check (codes "args") 0 template.args
      check_each check (codes "env_vars") 0 template.env_vars
      check_pointer check (codes "workdir") template.work_dir

-- The value of `KEY=value`; what has another form is passed over.
unfoldable pub check_env_value :
    (Text → Text → Result ValidationError (Unit {0}))
    → Text
    → Text
    → Result ValidationError (Unit {0})
check_env_value check env_mapping field = elim (cut b'=' env_mapping) [
  | none ↦ ok tt
  | some (key, value) ↦ check value field
]

unfoldable pub validate_template_vars :
    CommandTemplate → Text → Dict Text → Result ValidationError (Unit {0})
unfolding validate_field_vars check_each check_pointer check_env_value
validate_template_vars template template_name global_vars =
    let check : Text → Text → Result ValidationError (Unit {0}) =
      λ input field. validate_field_vars input template_name field global_vars in
    do
      check template.cmd (codes "cmd")
      check_pointer check (codes "workdir") template.work_dir
      check_each check (codes "args") 0 template.args
      check_each (check_env_value check) (codes "env_vars") 0 template.env_vars

unfoldable pub validate_all_templates :
    Dict CommandTemplate → Dict Text → Result ValidationError (Unit {0})
unfolding validate_template_vars
validate_all_templates [] global_vars = ok tt
validate_all_templates ((template_name, template) ∷ rest) global_vars =
    validate_template_vars template template_name global_vars
    >> validate_all_templates rest global_vars
