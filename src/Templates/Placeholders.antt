-- ===== src/Templates/Placeholders.antt =====
-- `parsePlaceholders` and `applyEscapeSequences` of internal/runner/config/template_expansion.go.
use go_safe_cmd_runner.Base.{
  ℕ, zero, suc, ◌+◌, ◌-◌, ◌≡◌, refl, Bool, true, false, ◌&&◌, ◌||◌, List, [], ◌∷◌, none, some, Text,
  codes, cut, length, take, ◌==◌, if◌then◌else◌, Result, ok, err, ◌>>=◌,
}
use go_safe_cmd_runner.Names.{validate_variable_name}
use go_safe_cmd_runner.Templates.Errors.{
  TemplateError, unclosed_placeholder, empty_placeholder, empty_placeholder_name,
  invalid_placeholder_name,
}

pub data PlaceholderType : Type 0 where
  required optional array : PlaceholderType

-- `end` is `stop` here.
pub record Placeholder : Type 0 where
  pub full_match : Text
  pub name : Text
  pub ptype : PlaceholderType
  pub start : ℕ
  pub stop : ℕ

-- What stands at a position: bytes to keep, the content of a placeholder with the bytes that it
-- takes up, or a placeholder without an end.
pub data Token : Type 0 where
  plain : ℕ → Token
  hole : Text → ℕ → Token
  unclosed : Token

unfoldable pub is_escape : ℕ → ℕ → Bool
is_escape c next = c == b'\\' && (next == b'$' || next == b'\\')

unfoldable pub hole_token : Text → Token
unfolding cut
hole_token [] = plain 1
hole_token (c ∷ rest) = elim (cut b'}' (c ∷ rest)) [
  | none ↦ unclosed
  | some (content, _) ↦ hole content (length content + 3)
]

unfoldable pub next_token : ℕ → Text → Token
unfolding is_escape hole_token
next_token c [] = plain 1
next_token c (next ∷ rest) =
    if is_escape c next
    then plain 2
    else if c == b'$' && next == b'{'
    then hole_token rest
    else plain 1

-- The type and the name that a content stands for.
unfoldable pub split_content : ℕ → Text → PlaceholderType × Text
split_content c name =
    if c == b'?'
    then (optional, name)
    else if c == b'@'
    then (array, name)
    else (required, c ∷ name)

unfoldable pub check_name :
    Text → ℕ → PlaceholderType × Text → Result TemplateError (PlaceholderType × Text)
check_name input i (ptype, []) = err (empty_placeholder_name input i)
check_name input i (ptype, c ∷ name) = elim (validate_variable_name (c ∷ name)) [
  | err reason ↦ err (invalid_placeholder_name input i (c ∷ name) reason)
  | ok _ ↦ ok (ptype, c ∷ name)
]

unfoldable pub check_content : Text → ℕ → Text → Result TemplateError (PlaceholderType × Text)
unfolding check_name split_content
check_content input i [] = err (empty_placeholder input i)
check_content input i (c ∷ name) = check_name input i (split_content c name)

-- One round at a position; the last argument goes on behind the bytes of the token.
unfoldable pub parse_round :
    Text
    → ℕ
    → Text
    → Token
    → (ℕ → Result TemplateError (List Placeholder))
    → Result TemplateError (List Placeholder)
parse_round input i suffix (plain n) continue = continue n
parse_round input i suffix unclosed continue = err (unclosed_placeholder input i)
parse_round input i suffix (hole content n) continue =
    check_content input i content >>= λ (ptype, name). continue n >>= λ later. ok (
      record { full_match = take n suffix; name = name; ptype = ptype; start = i; stop = i + n }
      ∷ later)

-- The loop over `i`: the second number is the bytes that the last token still covers.
unfoldable pub parse_from : Text → ℕ → ℕ → Text → Result TemplateError (List Placeholder)
unfolding parse_round
parse_from input i skip [] = ok []
parse_from input i (suc skip) (c ∷ rest) = parse_from input (suc i) skip rest
parse_from input i zero (c ∷ rest) =
    parse_round input i (c ∷ rest) (next_token c rest) (λ n. parse_from input (suc i) (n - 1) rest)

unfoldable pub parse_placeholders : Text → Result TemplateError (List Placeholder)
unfolding parse_from
parse_placeholders input = parse_from input 0 0 input

unfoldable pub apply_escape_sequences : Text → Text
unfolding is_escape
apply_escape_sequences [] = []
apply_escape_sequences (c ∷ []) = c ∷ []
apply_escape_sequences (c ∷ next ∷ rest) = elim (is_escape c next) [
  | true ↦ next ∷ apply_escape_sequences rest
  | false ↦ c ∷ apply_escape_sequences (next ∷ rest)
]

two :
    parse_placeholders (codes "a\\${x}${?b}")
    ≡ ok (
        record {
          full_match = codes "${?b}";
          name = codes "b";
          ptype = optional;
          start = 6;
          stop = 11;
        }
        ∷ [])
unfolding parse_placeholders next_token check_content validate_variable_name
two = refl

escaped : apply_escape_sequences (codes "a\\$b\\\\c\\d") ≡ codes "a$b\\c\\d"
unfolding apply_escape_sequences
escaped = refl
