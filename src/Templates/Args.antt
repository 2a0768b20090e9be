-- ===== src/Templates/Args.antt =====
-- `expandSingleArg` and the expansion of a template's args, of
-- internal/runner/config/template_expansion.go. A `[]string` is an array whose elements are texts.
pub mod Reading
pub mod Fill
pub mod Single
use go_safe_cmd_runner.Base.{
  ℕ, zero, suc, ◌+◌, ◌≡◌, refl, Bool, true, false, List, [], ◌∷◌, ◌++◌, Option, none, some, Text,
  codes, length, take, drop, text_eq, decimal, if◌then◌else◌, Result, ok, err, ◌>>=◌,
}
use go_safe_cmd_runner.Base.Dict.{Dict, lookup}
use go_safe_cmd_runner.Expand.Lazy.{Element, text_element, other_element, RawValue, string, other}
use go_safe_cmd_runner.Templates.Errors.{
  TemplateError, array_in_mixed_context, type_mismatch, unsupported_param_type,
  required_param_missing, invalid_array_element,
}
use go_safe_cmd_runner.Templates.Placeholders.{
  Placeholder, PlaceholderType, required, optional, array, parse_placeholders,
  apply_escape_sequences,
}

-- An empty result is left out.
unfoldable pub drop_empty : Text → List Text
drop_empty [] = []
drop_empty (c ∷ s) = (c ∷ s) ∷ []

module _ (params : Dict RawValue) (template_name field : Text) where
  -- The loop over the elements of an array, from an index on.
  unfoldable pub text_elements : Text → ℕ → List Element → Result TemplateError (List Text)
  text_elements name i [] = ok []
  text_elements name i (other_element ∷ rest) =
      err (invalid_array_element template_name field name i)
  text_elements name i (text_element s ∷ rest) =
      text_elements name (i + 1) rest >>= λ later. ok (s ∷ later)

  unfoldable pub array_value : Text → Option RawValue → Result TemplateError (List Text)
  unfolding text_elements
  array_value name none = ok []
  array_value name (some (RawValue.array elements)) = text_elements name 0 elements
  array_value name (some (string s)) = err (type_mismatch template_name field name)
  array_value name (some other) = err (unsupported_param_type template_name field name)

  unfoldable pub expand_array_placeholder : Text → Result TemplateError (List Text)
  unfolding array_value
  expand_array_placeholder name =
      if text_eq field (codes "workdir")
      then err (array_in_mixed_context template_name field name)
      else array_value name (lookup name params)

  unfoldable pub optional_value : Text → Option RawValue → Result TemplateError (List Text)
  unfolding drop_empty
  optional_value name none = ok []
  optional_value name (some (string s)) = ok (drop_empty s)
  optional_value name (some (RawValue.array elements)) =
      err (type_mismatch template_name field name)
  optional_value name (some other) = err (type_mismatch template_name field name)

  unfoldable pub expand_optional_placeholder : Text → Result TemplateError (List Text)
  unfolding optional_value
  expand_optional_placeholder name = optional_value name (lookup name params)

  -- The text that takes the place of a placeholder in string replacement.
  unfoldable pub replacement : PlaceholderType → Text → Option RawValue → Result TemplateError Text
  replacement array name value = err (array_in_mixed_context template_name field name)
  replacement required name none = err (required_param_missing template_name field name)
  replacement required name (some (string s)) = ok s
  replacement required name (some (RawValue.array elements)) =
      err (type_mismatch template_name field name)
  replacement required name (some other) = err (type_mismatch template_name field name)
  replacement optional name none = ok []
  replacement optional name (some (string s)) = ok s
  replacement optional name (some (RawValue.array elements)) =
      err (type_mismatch template_name field name)
  replacement optional name (some other) = err (type_mismatch template_name field name)

  unfoldable pub replace_one : Placeholder → Text → Result TemplateError Text
  unfolding replacement
  replace_one ph result = replacement ph.ptype ph.name (lookup ph.name params) >>= λ str.
      ok (take ph.start result ++ (str ++ drop ph.stop result))

  -- The loop over the placeholders, the last one first.
  unfoldable pub replace_all : List Placeholder → Text → Result TemplateError Text
  unfolding replace_one
  replace_all [] input = ok input
  replace_all (ph ∷ later) input = replace_all later input >>= replace_one ph

  unfoldable pub expand_string_placeholders :
      Text → List Placeholder → Result TemplateError (List Text)
  unfolding replace_all drop_empty
  expand_string_placeholders input placeholders =
      replace_all placeholders input >>= λ result. ok (drop_empty (apply_escape_sequences result))

  -- A single placeholder, by its type.
  unfoldable pub expand_one :
      Text → Placeholder → PlaceholderType → Result TemplateError (List Text)
  unfolding expand_array_placeholder expand_optional_placeholder expand_string_placeholders
  expand_one arg ph array =
      if text_eq arg ph.full_match
      then expand_array_placeholder ph.name
      else err (array_in_mixed_context template_name field ph.name)
  expand_one arg ph optional =
      if text_eq arg ph.full_match
      then expand_optional_placeholder ph.name
      else expand_string_placeholders arg (ph ∷ [])
  expand_one arg ph required = expand_string_placeholders arg (ph ∷ [])

  unfoldable pub expand_placeholders : Text → List Placeholder → Result TemplateError (List Text)
  unfolding expand_one
  expand_placeholders arg [] = ok (apply_escape_sequences arg ∷ [])
  expand_placeholders arg (ph ∷ []) = expand_one arg ph ph.ptype
  expand_placeholders arg (ph ∷ qh ∷ rest) = expand_string_placeholders arg (ph ∷ qh ∷ rest)

  unfoldable pub expand_single_arg : Text → Result TemplateError (List Text)
  unfolding expand_placeholders parse_placeholders
  expand_single_arg arg = parse_placeholders arg >>= expand_placeholders arg

-- The loop over the args, from an index on.
unfoldable pub expand_args_from :
    Dict RawValue → Text → ℕ → List Text → Result TemplateError (List Text)
unfolding expand_single_arg
expand_args_from params template_name i [] = ok []
expand_args_from params template_name i (arg ∷ rest) =
    expand_single_arg params template_name (codes "args[" ++ (decimal i ++ codes "]")) arg
    >>= λ expanded.
        expand_args_from params template_name (i + 1) rest >>= λ later. ok (expanded ++ later)

unfoldable pub expand_template_args :
    List Text → Dict RawValue → Text → Result TemplateError (List Text)
unfolding expand_args_from
expand_template_args args params template_name = expand_args_from params template_name 0 args
