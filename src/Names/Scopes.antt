-- ===== src/Names/Scopes.antt =====
-- internal/runner/base/variable/scope.go: a name's first character decides its scope.
use go_safe_cmd_runner.Base.{
  ℕ, ◌≤◌, ◌≡◌, ◌↔◌, ◌⊎◌, inl, inr, refl, Bool, true, false, ◌&&◌, [], ◌∷◌, arith, Text, codes, All,
  has_prefix, leb, ◌==◌, if◌then◌else◌, Bool-cases, Result, ok, err,
}
use go_safe_cmd_runner.Names.{
  NameError, validate_variable_name, check_chars, is_letter_or_underscore_or_digit,
}

pub data Scope : Type 0 where
  error global local : Scope

-- The errors of `DetermineScope`: the reason of an invalid name is that it is empty, or its first
-- character.
pub data DetermineError : Type 0 where
  empty_name : DetermineError
  reserved_name : Text → DetermineError
  invalid_name_start : Text → ℕ → DetermineError

unfoldable pub determine_scope : Text → Scope × Result DetermineError (Unit {0})
unfolding has_prefix
determine_scope [] = (error, err empty_name)
determine_scope (first ∷ rest) =
    if has_prefix (first ∷ rest) (codes "__")
    then (error, err (reserved_name (first ∷ rest)))
    else if leb b'A' first && leb first b'Z'
    then (global, ok tt)
    else if leb b'a' first && leb first b'z'
    then (local, ok tt)
    else if first == b'_'
    then (local, ok tt)
    else (error, err (invalid_name_start (first ∷ rest) first))

unfoldable pub scope_eq : Scope → Scope → Bool
scope_eq error error = true
scope_eq global global = true
scope_eq local local = true
scope_eq _ _ = false

pub data ScopeCheckError : Type 0 where
  undetermined : Text → DetermineError → ScopeCheckError
  scope_mismatch : Text → Text → Scope → Scope → ScopeCheckError
  malformed : Text → Text → NameError → ScopeCheckError

abbrev wrap_name : Text → Text → Result NameError (Unit {0}) → Result ScopeCheckError (Unit {0})
wrap_name location name (ok done) = ok done
wrap_name location name (err e) = err (malformed location name e)

unfoldable pub validate_variable_name_for_scope :
    Text → Scope → Text → Result ScopeCheckError (Unit {0})
unfolding determine_scope scope_eq validate_variable_name
validate_variable_name_for_scope name expected location =
    let (actual, outcome) = determine_scope name in
    elim outcome [
      | err e ↦ err (undetermined location e)
      | ok _ ↦
          if scope_eq actual expected
          then wrap_name location name (validate_variable_name name)
          else err (scope_mismatch name location expected actual)
    ]

-- What the accepted names are, in words of their own.
abbrev pub IsUpper : ℕ → Type 0
IsUpper c = (b'A' ≤ c) × (c ≤ b'Z')

abbrev pub IsLower : ℕ → Type 0
IsLower c = (b'a' ≤ c) × (c ≤ b'z')

abbrev pub IsDigit : ℕ → Type 0
IsDigit c = (b'0' ≤ c) × (c ≤ b'9')

abbrev pub IsNameChar : ℕ → Type 0
IsNameChar c = IsUpper c ⊎ IsLower c ⊎ IsDigit c ⊎ (c ≡ b'_')

-- A local name has a lower-case letter or one underscore at its front.
abbrev pub LocalStart : Text → Type 0
LocalStart [] = ⊥
LocalStart (c ∷ rest) = IsLower c ⊎ ((c ≡ b'_') × (has_prefix rest (b'_' ∷ []) ≡ false))

abbrev pub GlobalStart : Text → Type 0
GlobalStart [] = ⊥
GlobalStart (c ∷ rest) = IsUpper c

IsNameChar-sound : (c : ℕ) → is_letter_or_underscore_or_digit c ≡ true → IsNameChar c
unfolding is_letter_or_underscore_or_digit
IsNameChar-sound c h = ground arith

name_char_complete : (c : ℕ) → IsNameChar c → is_letter_or_underscore_or_digit c ≡ true
unfolding is_letter_or_underscore_or_digit
name_char_complete c h = ground arith

check_chars_sound : (s : Text) → check_chars s ≡ ok tt → All IsNameChar s
unfolding check_chars
check_chars_sound [] h = tt
check_chars_sound (c ∷ s) h = elim (Bool-cases (is_letter_or_underscore_or_digit c)) [
  | inl good ↦ (IsNameChar-sound c good, check_chars_sound s (rw good at h))
  | inr bad ↦ absurd (ground arith)
]

check_chars_complete : (s : Text) → All IsNameChar s → check_chars s ≡ ok tt
unfolding check_chars
check_chars_complete [] h = refl
check_chars_complete (c ∷ s) (hc, hs) = rw (name_char_complete c hc) (check_chars_complete s hs)

local_sound :
    (name location : Text)
    → validate_variable_name_for_scope name local location ≡ ok tt
    → LocalStart name × All IsNameChar name
unfolding validate_variable_name_for_scope
local_sound [] location h = absurd (ground arith)
local_sound (c ∷ rest) location h = ground (arith, check_chars_sound rest)

local_complete :
    (name location : Text)
    → LocalStart name
    → All IsNameChar name
    → validate_variable_name_for_scope name local location ≡ ok tt
unfolding validate_variable_name_for_scope
local_complete [] location h _ = absurd h
local_complete (c ∷ rest) location h (hc, hs) = ground (arith, check_chars_complete rest hs)

global_sound :
    (name location : Text)
    → validate_variable_name_for_scope name global location ≡ ok tt
    → GlobalStart name × All IsNameChar name
unfolding validate_variable_name_for_scope
global_sound [] location h = absurd (ground arith)
global_sound (c ∷ rest) location h = ground (arith, check_chars_sound rest)

global_complete :
    (name location : Text)
    → GlobalStart name
    → All IsNameChar name
    → validate_variable_name_for_scope name global location ≡ ok tt
unfolding validate_variable_name_for_scope
global_complete [] location h _ = absurd h
global_complete (c ∷ rest) location h (hc, hs) = ground (arith, check_chars_complete rest hs)

-- The names accepted for the local scope are those of letters, digits and underscores that begin
-- with a lower-case letter or with a single underscore, and those accepted for the global scope are
-- those of such characters that begin with an upper-case letter.
pub scope_names :
    (name location : Text)
    → ((validate_variable_name_for_scope name local location ≡ ok tt)
        ↔ (LocalStart name × All IsNameChar name))
      × ((validate_variable_name_for_scope name global location ≡ ok tt)
          ↔ (GlobalStart name × All IsNameChar name))
scope_names name location = (
  (local_sound name location, λ h. local_complete name location h.0 h.1),
  (global_sound name location, λ h. global_complete name location h.0 h.1),
)

not_both : (name : Text) → LocalStart name → GlobalStart name → ⊥
not_both [] l g = l
not_both (c ∷ rest) l g = absurd (omega arith)
