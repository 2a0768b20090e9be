-- ===== src/Templates/Errors.antt =====
-- The errors of internal/runner/config/template_errors.go. A `%T` is left out, and so is the context
-- that a wrapped error gains.
use go_safe_cmd_runner.Base.{ℕ, Text}
use go_safe_cmd_runner.Names.{NameError}

pub data TemplateError : Type 0 where
  -- input, position
  unclosed_placeholder empty_placeholder empty_placeholder_name : Text → ℕ → TemplateError
  -- input, position, name, reason
  invalid_placeholder_name : Text → ℕ → Text → NameError → TemplateError
  -- template, field, parameter
  array_in_mixed_context type_mismatch unsupported_param_type required_param_missing :
      Text → Text → Text → TemplateError
  -- template, field, parameter, index
  invalid_array_element : Text → Text → Text → ℕ → TemplateError
  -- template, entry, key
  placeholder_in_env_key : Text → Text → Text → TemplateError
  -- template, field, index among the expanded entries, entry
  invalid_env_format : Text → Text → ℕ → Text → TemplateError
  -- template, key
  duplicate_env_variable : Text → Text → TemplateError
  -- template, field
  var_unexpected_multiple_values : Text → Text → TemplateError
  -- template, count of the results
  cmd_not_single_value : Text → ℕ → TemplateError
  -- command, template
  template_not_found : Text → Text → TemplateError
