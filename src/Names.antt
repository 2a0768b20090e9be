-- ===== src/Names.antt =====
-- Names of variables and of environment variables: ValidateVariableName of
-- internal/runner/base/security/environment_validation.go, the scopes of
-- internal/runner/base/variable/scope.go, ParseKeyValue of internal/common/string.go and the
-- denylist of internal/runner/base/environment/denylist.go.
pub mod Scopes
pub mod Denylist
use go_safe_cmd_runner.Base.{
  ℕ, ◌≡◌, refl, Bool, true, false, ◌&&◌, ◌||◌, List, [], ◌∷◌, Option, none, some, Text, codes, cut,
  has_prefix, ltb, leb, ◌==◌, if◌then◌else◌, Result, ok, err,
}

-- `ErrVariableNameEmpty`, `ErrVariableNameInvalidStart` and `ErrVariableNameInvalidChar`.
pub data NameError : Type 0 where
  empty invalid_start : NameError
  invalid_char : ℕ → NameError

unfoldable pub is_letter_or_underscore : ℕ → Bool
is_letter_or_underscore char =
    leb b'A' char && leb char b'Z' || leb b'a' char && leb char b'z' || char == b'_'

unfoldable pub is_letter_or_underscore_or_digit : ℕ → Bool
unfolding is_letter_or_underscore
is_letter_or_underscore_or_digit char =
    is_letter_or_underscore char || leb b'0' char && leb char b'9'

-- The loop over `name[1:]`.
unfoldable pub check_chars : Text → Result NameError (Unit {0})
check_chars [] = ok tt
check_chars (char ∷ rest) =
    let later = check_chars rest in
    if is_letter_or_underscore_or_digit char then later else err (invalid_char char)

unfoldable pub validate_variable_name : Text → Result NameError (Unit {0})
unfolding check_chars is_letter_or_underscore_or_digit
validate_variable_name [] = err empty
validate_variable_name (first ∷ rest) =
    if is_letter_or_underscore first then check_chars rest else err invalid_start

-- `ParseKeyValue`: the key and the value of `KEY=VALUE`, with a key that is not empty.
nonempty_key : Text → Text → Option (Text × Text)
nonempty_key [] value = none
nonempty_key (c ∷ key) value = some (c ∷ key, value)

unfoldable pub parse_key_value : Text → Option (Text × Text)
unfolding nonempty_key cut
parse_key_value env = elim (cut b'=' env) [
  | none ↦ none
  | some (key, value) ↦ nonempty_key key value
]

parse_path : parse_key_value (codes "PATH=/bin=x") ≡ some (codes "PATH", codes "/bin=x")
unfolding parse_key_value
parse_path = refl

parse_no_key : parse_key_value (codes "=x") ≡ none
unfolding parse_key_value
parse_no_key = refl

digit_first : validate_variable_name (codes "9a") ≡ err invalid_start
unfolding validate_variable_name
digit_first = refl
