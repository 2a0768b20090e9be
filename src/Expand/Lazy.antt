-- ===== src/Expand/Lazy.antt =====
-- `varExpander` of internal/runner/config/expansion.go: variables that are expanded when they are
-- first needed, and then remembered.
pub mod Values
pub mod Sound
use go_safe_cmd_runner.Base.{
  ℕ, zero, suc, ◌≡◌, refl, Bool, true, false, List, [], ◌∷◌, ◌++◌, Option, none, some, Text, codes,
  contains, cut, Result, ok, err, ◌>>=◌, if◌then◌else◌,
}
use go_safe_cmd_runner.Base.Dict.{Dict, lookup, insert}
use go_safe_cmd_runner.Names.{validate_variable_name}
use go_safe_cmd_runner.Expand.Pieces.{
  ExpandError, undefined_variable, max_recursion_depth_exceeded, circular_reference,
  array_variable_in_string_context, unsupported_type, max_recursion_depth, next_piece,
}
use go_safe_cmd_runner.Expand.Refs.{State, Resolver, resolve_reference, process_var_refs}
use go_safe_cmd_runner.Expand.Strings.{unmark}

-- An element of a TOML array: a string, or a value of another type.
pub data Element : Type 0 where
  text_element : Text → Element
  other_element : Element

-- A value of a `vars` table.
pub data RawValue : Type 0 where
  string : Text → RawValue
  array : List Element → RawValue
  other : RawValue

-- `expandedArrayVars`, `rawVars` and `level` are fixed; `expandedVars` is the memo.
module _ (arrays : Dict (List Text)) (raw_vars : Dict RawValue) (level field : Text) where
  abbrev pub Expansion : Type 0
  Expansion = List Text → Text → State (Dict Text) → Result ExpandError (Text × State (Dict Text))

  -- The body of the `string` case: expand the definition, unmark it and remember the value.
  unfoldable pub expand_raw : Expansion → Text → Resolver (Dict Text)
  expand_raw expand rv name chain s =
      expand (chain ++ name ∷ []) rv (record s { visited = name ∷ s.visited }) >>= λ (expanded, s').
      ok (
        expanded,
        record s' { visited = unmark name s'.visited; memo = insert name expanded s'.memo },
      )

  unfoldable pub resolve_raw : Expansion → Option RawValue → Resolver (Dict Text)
  unfolding expand_raw
  resolve_raw expand none name chain s =
      err (undefined_variable level field name [] (chain ++ name ∷ []))
  resolve_raw expand (some (string rv)) name chain s = expand_raw expand rv name chain s
  resolve_raw expand (some (array elements)) name chain s =
      err (array_variable_in_string_context level field name (chain ++ name ∷ []))
  resolve_raw expand (some other) name chain s = err (unsupported_type level name)

  unfoldable pub resolve_variable : Expansion → Resolver (Dict Text)
  resolve_variable expand name chain s = elim (lookup name s.memo) [
    | some v ↦ ok (v, s)
    | none ↦ elim (lookup name arrays) [
      | some _ ↦ err (array_variable_in_string_context level field name (chain ++ name ∷ []))
      | none ↦ resolve_raw expand (lookup name raw_vars) name chain s
    ]
  ]

  -- The number is MaxRecursionDepth - depth.
  unfoldable pub expand_at : ℕ → Expansion
  expand_at zero chain input s =
      process_var_refs (λ name chain' s'. err (max_recursion_depth_exceeded level field name)) level
        field chain input zero s
  expand_at (suc left) chain input s =
      process_var_refs (resolve_variable (expand_at left)) level field chain input (suc left) s

  -- The method `expandString`, with the memo that it leaves.
  unfoldable pub expand_string : Text → Dict Text → Result ExpandError (Text × Dict Text)
  expand_string input expanded_vars =
      expand_at max_recursion_depth [] input (record { visited = []; memo = expanded_vars })
      >>= λ (out, s). ok (out, s.memo)

abbrev raw : Dict RawValue
raw = (codes "a", string (codes "x%{b}")) ∷ (codes "b", string (codes "y")) ∷ []

remembered :
    expand_string [] raw [] [] (codes "%{a}%{b}") []
    ≡ ok (codes "xyy", (codes "b", codes "y") ∷ (codes "a", codes "xy") ∷ [])
unfolding expand_string expand_at resolve_variable resolve_raw process_var_refs resolve_reference
    validate_variable_name next_piece lookup insert unmark contains cut
remembered = refl
