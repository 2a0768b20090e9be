-- ===== src/Expand/Refs.antt =====
-- `processVarRefs` of internal/runner/config/expansion.go. The number `left` is
-- MaxRecursionDepth - depth. The set `visited` is mutated by the resolver, so it is threaded
-- through, with whatever else the resolver keeps.
pub mod Sound
pub mod Complete
use go_safe_cmd_runner.Base.{
  ℕ, zero, suc, ◌-◌, ◌≡◌, refl, Bool, true, false, List, [], ◌∷◌, ◌++◌, Text, contains, Result, ok,
  err,
}
use go_safe_cmd_runner.Names.{validate_variable_name}
use go_safe_cmd_runner.Expand.Pieces.{
  ExpandError, max_recursion_depth_exceeded, invalid_escape_sequence, unclosed_variable_reference,
  invalid_variable_name, circular_reference, Piece, emit, reference, bad_escape, unclosed,
  next_piece,
}

pub record State {ℓ} (M : Type ℓ) : Type ℓ where
  pub visited : List Text
  pub memo : M

-- A name, the expansion chain and the state.
abbrev pub Resolver {ℓ} : Type ℓ → Type ℓ
Resolver M = Text → List Text → State M → Result ExpandError (Text × State M)

module _ {ℓ} {M : Type ℓ} (resolver : Resolver M) (level field : Text) (chain : List Text) where
  -- The checks and the call behind `%{name}`.
  unfoldable pub resolve_reference : Text → State M → Result ExpandError (Text × State M)
  resolve_reference name s = elim (validate_variable_name name) [
    | err reason ↦ err (invalid_variable_name level field name reason)
    | ok _ ↦ elim (contains s.visited name) [
      | true ↦ err (circular_reference level field name (chain ++ name ∷ []))
      | false ↦ resolver name chain s
    ]
  ]

  -- One round of the loop; the last argument goes on, from the bytes that the piece still covers.
  unfoldable pub round :
      (context : Text)
      → Piece
      → Text
      → State M
      → (ℕ → Text → State M → Result ExpandError (Text × State M))
      → Result ExpandError (Text × State M)
  round context (emit byte n) out s continue = continue (n - 1) (out ++ byte ∷ []) s
  round context (bad_escape sequence) out s continue =
      err (invalid_escape_sequence level field sequence context)
  round context unclosed out s continue = err (unclosed_variable_reference level field context)
  round context (reference name n) out s continue = elim (resolve_reference name s) [
    | err e ↦ err e
    | ok (value, s') ↦ continue (n - 1) (out ++ value) s'
  ]

  -- The loop over `i`: the number is the bytes that the last piece still covers.
  unfoldable pub walk :
      (context : Text) → ℕ → Text → Text → State M → Result ExpandError (Text × State M)
  unfolding round
  walk context skip [] out s = ok (out, s)
  walk context (suc skip) (c ∷ rest) out s = walk context skip rest out s
  walk context zero (c ∷ rest) out s =
      round context (next_piece c rest) out s (λ skip out' s'. walk context skip rest out' s')

  unfoldable pub process_var_refs : Text → ℕ → State M → Result ExpandError (Text × State M)
  unfolding walk
  process_var_refs input zero s = err (max_recursion_depth_exceeded level field input)
  process_var_refs input (suc left) s = walk input 0 input [] s
