-- ===== src/Templates/Vars.antt =====
-- `ExpandTemplateVars` of internal/runner/config/template_expansion.go. A `[]string` is an array
-- whose elements are texts.
use mathlib.Core.List
use go_safe_cmd_runner.Base.{
  ℕ, ◌+◌, List, [], ◌∷◌, ◌++◌, Text, codes, decimal, Result, ok, err, ◌>>=◌,
}
use go_safe_cmd_runner.Base.Dict.{Dict, insert}
use go_safe_cmd_runner.Expand.Lazy.{
  Element, text_element, other_element, RawValue, string, array, other,
}
use go_safe_cmd_runner.Templates.Errors.{
  TemplateError, invalid_array_element, unsupported_param_type, var_unexpected_multiple_values,
}
use go_safe_cmd_runner.Templates.Args.{expand_single_arg}

module _ (params : Dict RawValue) (template_name : Text) where
  -- The value of a string variable: empty, if nothing is left of it.
  unfoldable pub single_value : Text → List Text → Result TemplateError RawValue
  single_value field [] = ok (string [])
  single_value field (s ∷ []) = ok (string s)
  single_value field (s ∷ t ∷ rest) = err (var_unexpected_multiple_values template_name field)

  -- The loop over the elements of an array, from an index on.
  unfoldable pub expand_array_elements :
      Text → Text → ℕ → List Element → Result TemplateError (List Element)
  unfolding expand_single_arg
  expand_array_elements var_name field i [] = ok []
  expand_array_elements var_name field i (other_element ∷ rest) =
      err (invalid_array_element template_name field var_name i)
  expand_array_elements var_name field i (text_element s ∷ rest) =
      expand_single_arg params template_name (field ++ (codes "[" ++ (decimal i ++ codes "]"))) s
      >>= λ expanded. expand_array_elements var_name field (i + 1) rest >>= λ later.
          ok (List.map text_element expanded ++ later)

  unfoldable pub expand_var : Text → RawValue → Result TemplateError RawValue
  unfolding single_value expand_array_elements
  expand_var var_name (string v) =
      let field = codes "vars." ++ var_name in
      expand_single_arg params template_name field v >>= single_value field
  expand_var var_name (array v) =
      expand_array_elements var_name (codes "vars." ++ var_name) 0 v >>= λ expanded.
      ok (array expanded)
  expand_var var_name other = err (unsupported_param_type template_name (codes "vars") var_name)

  unfoldable pub expand_vars_from :
      Dict RawValue → Dict RawValue → Result TemplateError (Dict RawValue)
  unfolding expand_var
  expand_vars_from [] result = ok result
  expand_vars_from ((var_name, value) ∷ rest) result = expand_var var_name value >>= λ expanded.
      expand_vars_from rest (insert var_name expanded result)

unfoldable pub expand_template_vars :
    Dict RawValue → Dict RawValue → Text → Result TemplateError (Dict RawValue)
unfolding expand_vars_from
expand_template_vars vars params template_name = expand_vars_from params template_name vars []
