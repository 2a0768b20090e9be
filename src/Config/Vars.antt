-- ===== src/Config/Vars.antt =====
-- ProcessVars of internal/runner/config/expansion.go: the variables of one level. The order of an
-- association list stands for the order in which the runtime visits the map.
pub mod Values
pub mod Classify
pub mod Collected
pub mod Arrays
pub mod Same
pub mod Order
pub mod Kept
use go_safe_cmd_runner.Base.{
  ℕ, suc, ◌+◌, ◌*◌, ◌≡◌, refl, Bool, true, false, List, [], ◌∷◌, ◌++◌, Option, none, some, Text,
  codes, length, decimal, ltb, Result, ok, err, ◌>>=◌, ◌>>◌, reject_if, if◌then◌else◌,
}
use go_safe_cmd_runner.Base.Dict.{Dict, lookup, insert}
use go_safe_cmd_runner.Expand.Lazy
use go_safe_cmd_runner.Expand.Lazy.{
  RawValue, string, array, other, Element, text_element, other_element,
}
use go_safe_cmd_runner.Config.Errors.{
  ConfigError, lift_expansion, validate_name, env_import_vars_conflict, type_mismatch_array,
  type_mismatch_string, value_too_long, array_too_large, invalid_array_element,
  array_element_too_long, unsupported_type, too_many_variables, type_assertion_panic,
}
use go_safe_cmd_runner.Config.Imports.{is_defined}

abbrev pub max_vars_per_level : ℕ
max_vars_per_level = 1000

abbrev pub max_array_elements : ℕ
max_array_elements = 1000

abbrev pub max_string_value_len : ℕ
max_string_value_len = 10 * 1024

-- `stringVars` and `arrayVars`.
pub record Classified : Type 0 where
  pub string_vars : Dict Text
  pub array_vars : Dict (List Element)

module _ (base_vars : Dict Text) (base_arrays : Dict (List Text)) (env_import_vars : Dict Text)
    (level : Text) where
  unfoldable pub validate_string_var : Text → Text → Result ConfigError (Unit {0})
  unfolding is_defined
  validate_string_var name value = do
    reject_if (is_defined (lookup name base_arrays)) (type_mismatch_array level name)
    reject_if (ltb max_string_value_len (length value)) (value_too_long level name (length value))

  -- The loop over the elements of an array, from an index on.
  unfoldable pub check_elements : Text → ℕ → List Element → Result ConfigError (Unit {0})
  check_elements name i [] = ok tt
  check_elements name i (other_element ∷ rest) = err (invalid_array_element level name i)
  check_elements name i (text_element s ∷ rest) =
      reject_if (ltb max_string_value_len (length s))
        (array_element_too_long level name i (length s))
      >> check_elements name (i + 1) rest

  unfoldable pub validate_array_var : Text → List Element → Result ConfigError (Unit {0})
  unfolding is_defined
  validate_array_var name value = do
    reject_if (is_defined (lookup name base_vars)) (type_mismatch_string level name)
    reject_if (ltb max_array_elements (length value)) (array_too_large level name (length value))
    check_elements name 0 value

  unfoldable pub classify_value : Text → RawValue → Classified → Result ConfigError Classified
  classify_value name (string v) c =
      validate_string_var name v >> ok (record c { string_vars = insert name v c.string_vars })
  classify_value name (array v) c =
      validate_array_var name v >> ok (record c { array_vars = insert name v c.array_vars })
  classify_value name other c = err (unsupported_type level name)

  unfoldable pub classify_one : Text → RawValue → Classified → Result ConfigError Classified
  unfolding classify_value
  classify_one name value c = do
    validate_name name level (codes "vars")
    reject_if (is_defined (lookup name env_import_vars)) (env_import_vars_conflict level name)
    classify_value name value c

  unfoldable pub classify_all : Dict RawValue → Classified → Result ConfigError Classified
  classify_all [] c = ok c
  classify_all ((name, value) ∷ rest) c = classify_one name value c >>= classify_all rest

  unfoldable pub validate_and_classify_vars : Dict RawValue → Result ConfigError Classified
  validate_and_classify_vars vars = classify_all vars (record { string_vars = []; array_vars = [] })

  module _ (vars : Dict RawValue) where
    -- The loop over `stringVars`; the last argument is `expandedStrings`, which is the expander's
    -- memo too.
    unfoldable pub expand_string_vars : Dict Text → Dict Text → Result ConfigError (Dict Text)
    expand_string_vars [] expanded_strings = ok expanded_strings
    expand_string_vars ((name, raw_value) ∷ rest) expanded_strings =
        lift_expansion (
          Lazy.expand_string base_arrays vars level (codes "vars." ++ name) raw_value
            expanded_strings)
        >>= λ (expanded, memo). expand_string_vars rest (insert name expanded memo)

    -- The loop over the elements of an array.
    unfoldable pub expand_elements :
        Dict (List Text)
        → Text
        → ℕ
        → List Element
        → Dict Text
        → Result ConfigError (List Text × Dict Text)
    expand_elements arrays name i [] memo = ok ([], memo)
    expand_elements arrays name i (other_element ∷ rest) memo = err (type_assertion_panic name)
    expand_elements arrays name i (text_element str ∷ rest) memo =
        lift_expansion (
          Lazy.expand_string arrays vars level
            (codes "vars." ++ (name ++ (codes "[" ++ (decimal i ++ codes "]")))) str memo)
        >>= λ (expanded, memo').
            expand_elements arrays name (i + 1) rest memo' >>= λ (later, memo'').
            ok (expanded ∷ later, memo'')

    -- The loop over `arrayVars`.
    unfoldable pub expand_array_vars :
        Dict (List Element)
        → Dict (List Text)
        → Dict Text
        → Result ConfigError (Dict Text × Dict (List Text))
    expand_array_vars [] arrays memo = ok (memo, arrays)
    expand_array_vars ((name, raw_array) ∷ rest) arrays memo =
        expand_elements arrays name 0 raw_array memo >>= λ (expanded, memo').
        expand_array_vars rest (insert name expanded arrays) memo'

    unfoldable pub expand_vars_with_lazy_resolution :
        Classified → Result ConfigError (Dict Text × Dict (List Text))
    expand_vars_with_lazy_resolution c = expand_string_vars c.string_vars base_vars >>= λ memo.
        expand_array_vars c.array_vars base_arrays memo

  -- A nil table leaves the inherited variables as they are.
  unfoldable pub process_vars :
      Option (Dict RawValue) → Result ConfigError (Dict Text × Dict (List Text))
  process_vars none = ok (base_vars, base_arrays)
  process_vars (some vars) =
      reject_if (ltb max_vars_per_level (length vars)) (too_many_variables level (length vars))
      >> (validate_and_classify_vars vars >>= expand_vars_with_lazy_resolution vars)
