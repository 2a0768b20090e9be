-- ===== src/Expand/Strings.antt =====
-- `ExpandString`, `resolveAndExpand` and `ExpandWorkDir` of internal/runner/config/expansion.go.
pub mod Refinement
use go_safe_cmd_runner.Base.{
  ℕ, zero, suc, ◌≡◌, refl, Bool, true, false, ◌&&◌, not, List, [], ◌∷◌, ◌++◌, Option, none, some,
  Text, codes, text_eq, contains, cut, has_prefix, Result, ok, err, ◌>>=◌, if◌then◌else◌,
}
use go_safe_cmd_runner.Base.Dict.{Dict, lookup}
use go_safe_cmd_runner.Names.{validate_variable_name}
use go_safe_cmd_runner.Expand.Pieces.{
  ExpandError, undefined_variable, max_recursion_depth_exceeded, circular_reference,
  max_recursion_depth, next_piece,
}
use go_safe_cmd_runner.Expand.Refs.{State, Resolver, resolve_reference, process_var_refs}

-- `delete(visited, name)`
unfoldable pub unmark : Text → List Text → List Text
unmark name [] = []
unmark name (x ∷ xs) = let rest = unmark name xs in if text_eq x name then rest else x ∷ rest

module _ (vars : Dict Text) (level field : Text) where
  -- The resolver of one level, over the expansion of the level below it.
  unfoldable pub resolver :
      (List Text → Text → State (Unit {0}) → Result ExpandError (Text × State (Unit {0})))
      → Text
      → Resolver (Unit {0})
  resolver expand input name chain s = elim (lookup name vars) [
    | none ↦ err (undefined_variable level field name input [])
    | some value ↦
        expand (chain ++ name ∷ []) value (record s { visited = name ∷ s.visited })
        >>= λ (expanded, s'). ok (expanded, record s' { visited = unmark name s'.visited })
  ]

  unfoldable pub resolve_and_expand :
      ℕ → List Text → Text → State (Unit {0}) → Result ExpandError (Text × State (Unit {0}))
  resolve_and_expand zero chain input s =
      process_var_refs (λ name chain' s'. err (max_recursion_depth_exceeded level field name)) level
        field chain input zero s
  resolve_and_expand (suc left) chain input s =
      process_var_refs (resolver (resolve_and_expand left) input) level field chain input (suc left)
        s

abbrev pub fst_result : Result ExpandError (Text × State (Unit {0})) → Result ExpandError Text
fst_result (ok (out, s)) = ok out
fst_result (err e) = err e

unfoldable pub expand_string : Text → Dict Text → Text → Text → Result ExpandError Text
expand_string input vars level field = fst_result (
    resolve_and_expand vars level field max_recursion_depth [] input
      (record { visited = []; memo = tt }))

pub data WorkDirError : Type 0 where
  failed_to_expand : ExpandError → WorkDirError
  invalid_work_dir : Text → Text → WorkDirError

-- `filepath.IsAbs`
unfoldable pub is_abs : Text → Bool
unfolding has_prefix
is_abs path = has_prefix path (b'/' ∷ [])

unfoldable pub expand_work_dir : Text → Dict Text → Text → Result WorkDirError Text
unfolding expand_string is_abs
expand_work_dir workdir vars level = elim (expand_string workdir vars level (codes "workdir")) [
  | err e ↦ err (failed_to_expand e)
  | ok expanded ↦
      if not (text_eq expanded []) && not (is_abs expanded)
      then err (invalid_work_dir level expanded)
      else ok expanded
]

abbrev sample : Dict Text
sample = (codes "a", codes "x%{b}") ∷ (codes "b", codes "\\%y") ∷ (codes "c", codes "%{c}") ∷ []

nested : expand_string (codes "<%{a}>") sample [] [] ≡ ok (codes "<x%y>")
unfolding expand_string resolve_and_expand resolver process_var_refs resolve_reference
    validate_variable_name next_piece lookup unmark contains cut
nested = refl

circular :
    expand_string (codes "%{c}") sample [] []
    ≡ err (circular_reference [] [] (codes "c") (codes "c" ∷ codes "c" ∷ []))
unfolding expand_string resolve_and_expand resolver process_var_refs resolve_reference
    validate_variable_name next_piece lookup unmark contains cut
circular = refl
