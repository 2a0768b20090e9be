-- ===== src/Expand/Pieces.antt =====
-- What `processVarRefs` of internal/runner/config/expansion.go finds at a position of its input,
-- and the errors of that file.
use go_safe_cmd_runner.Base.{
  ℕ, ◌+◌, ◌&&◌, List, [], ◌∷◌, none, some, Text, cut, length, ◌==◌, if◌then◌else◌,
}
use go_safe_cmd_runner.Names.{NameError}

-- The `Err…Detail` types: level, field, and what each adds. A chain is a list of names.
pub data ExpandError : Type 0 where
  -- level, field, variable, context, chain
  undefined_variable : Text → Text → Text → Text → List Text → ExpandError
  -- level, field, context
  max_recursion_depth_exceeded : Text → Text → Text → ExpandError
  -- level, field, sequence, context
  invalid_escape_sequence : Text → Text → Text → Text → ExpandError
  -- level, field, context
  unclosed_variable_reference : Text → Text → Text → ExpandError
  -- level, field, variable, reason
  invalid_variable_name : Text → Text → Text → NameError → ExpandError
  -- level, field, variable, chain
  circular_reference : Text → Text → Text → List Text → ExpandError
  -- level, field, variable, chain
  array_variable_in_string_context : Text → Text → Text → List Text → ExpandError
  -- level, variable
  unsupported_type : Text → Text → ExpandError

abbrev pub max_recursion_depth : ℕ
max_recursion_depth = 100

abbrev pub backslash : ℕ
backslash = b'\\'

-- A byte to write with the bytes that it takes up, a reference with the bytes that it takes up, or
-- what is wrong.
pub data Piece : Type 0 where
  emit : ℕ → ℕ → Piece
  reference : Text → ℕ → Piece
  bad_escape : Text → Piece
  unclosed : Piece

-- Behind a backslash.
escape_piece : ℕ → Piece
escape_piece next =
    if next == b'%'
    then emit b'%' 2
    else if next == backslash
    then emit backslash 2
    else bad_escape (backslash ∷ next ∷ [])

-- Behind `%{`.
reference_piece : Text → Piece
reference_piece body = elim (cut b'}' body) [
  | none ↦ unclosed
  | some (name, _) ↦ reference name (length name + 3)
]

-- The piece at the front of a text that is not empty.
unfoldable pub next_piece : ℕ → Text → Piece
unfolding escape_piece reference_piece
next_piece c [] = emit c 1
next_piece c (next ∷ rest) =
    if c == backslash
    then escape_piece next
    else if c == b'%' && next == b'{'
    then reference_piece rest
    else emit c 1
