-- ===== src/Templates/Usage.antt =====
-- `CollectUsedParams` of internal/runner/config/template_expansion.go. The set of the names is a list.
use go_safe_cmd_runner.Base.{List, [], ◌∷◌, Option, none, some, Text, cut, Result, ok, ◌>>=◌}
use go_safe_cmd_runner.Base.Dict.{Dict}
use go_safe_cmd_runner.Expand.Lazy.{
  Element, text_element, other_element, RawValue, string, array, other,
}
use go_safe_cmd_runner.Templates.Errors.{TemplateError}
use go_safe_cmd_runner.Templates.Placeholders.{Placeholder, parse_placeholders}
use go_safe_cmd_runner.Templates.Spec.{CommandTemplate}

unfoldable pub add_names : List Placeholder → List Text → List Text
add_names [] used = used
add_names (ph ∷ rest) used = add_names rest (ph.name ∷ used)

unfoldable pub collect_from_string : Text → List Text → Result TemplateError (List Text)
unfolding add_names
collect_from_string input used =
    parse_placeholders input >>= λ placeholders. ok (add_names placeholders used)

unfoldable pub collect_from_strings : List Text → List Text → Result TemplateError (List Text)
unfolding collect_from_string
collect_from_strings [] used = ok used
collect_from_strings (s ∷ rest) used = collect_from_string s used >>= collect_from_strings rest

unfoldable pub collect_from_basic_fields :
    CommandTemplate → List Text → Result TemplateError (List Text)
unfolding collect_from_strings
collect_from_basic_fields template used =
    collect_from_string template.cmd used >>= collect_from_strings template.args

-- Of `KEY=VALUE` the value counts.
unfoldable pub collect_from_env_vars : List Text → List Text → Result TemplateError (List Text)
unfolding collect_from_string
collect_from_env_vars [] used = ok used
collect_from_env_vars (env ∷ rest) used = elim (cut b'=' env) [
  | none ↦ collect_from_string env used >>= collect_from_env_vars rest
  | some (key, value) ↦ collect_from_string value used >>= collect_from_env_vars rest
]

unfoldable pub collect_from_pointer : Option Text → List Text → Result TemplateError (List Text)
unfolding collect_from_string
collect_from_pointer none used = ok used
collect_from_pointer (some []) used = ok used
collect_from_pointer (some (c ∷ s)) used = collect_from_string (c ∷ s) used

unfoldable pub collect_from_optional_fields :
    CommandTemplate → List Text → Result TemplateError (List Text)
unfolding collect_from_pointer
collect_from_optional_fields template used =
    collect_from_pointer template.work_dir used >>= collect_from_pointer template.output_file

unfoldable pub collect_from_elements : List Element → List Text → Result TemplateError (List Text)
unfolding collect_from_string
collect_from_elements [] used = ok used
collect_from_elements (other_element ∷ rest) used = collect_from_elements rest used
collect_from_elements (text_element s ∷ rest) used =
    collect_from_string s used >>= collect_from_elements rest

unfoldable pub collect_from_vars : Dict RawValue → List Text → Result TemplateError (List Text)
unfolding collect_from_string collect_from_elements
collect_from_vars [] used = ok used
collect_from_vars ((name, string s) ∷ rest) used =
    collect_from_string s used >>= collect_from_vars rest
collect_from_vars ((name, array elements) ∷ rest) used =
    collect_from_elements elements used >>= collect_from_vars rest
collect_from_vars ((name, other) ∷ rest) used = collect_from_vars rest used

unfoldable pub collect_used_params : CommandTemplate → Result TemplateError (List Text)
unfolding collect_from_basic_fields collect_from_env_vars collect_from_optional_fields
    collect_from_vars
collect_used_params template = do
  basic ← collect_from_basic_fields template []
  with_env ← collect_from_env_vars template.env_vars basic
  with_optional ← collect_from_optional_fields template with_env
  collect_from_vars template.vars with_optional
