-- ===== src/Templates/Validation/Escapes.antt =====
-- The checks of a template read the text that is written; a command reads the text that is left when
-- the escapes of the template are resolved.
use go_safe_cmd_runner.Base.{
  ℕ, suc, ◌+◌, ◌-◌, ◌≡◌, refl, ◌∙◌, ap, inl, inr, true, false, List, [], ◌∷◌, ◌++◌, some, Text,
  codes, cut, length, length-append, append_assoc, All, arith, Result, ok, Bool-cases,
}
use go_safe_cmd_runner.Base.Dict.{Dict}
use go_safe_cmd_runner.Names.{
  validate_variable_name, check_chars, is_letter_or_underscore, is_letter_or_underscore_or_digit,
}
use go_safe_cmd_runner.Expand.Lazy.{RawValue}
use go_safe_cmd_runner.Expand.Refs.{State, round, walk, process_var_refs}
use go_safe_cmd_runner.Templates.Validation.{
  ref_collector, collect_refs, check_refs, validate_global_only,
}
use go_safe_cmd_runner.Expand.Pieces.{ExpandError, emit, reference, next_piece}
use go_safe_cmd_runner.Templates.Placeholders.{
  plain, next_token, is_escape, parse_round, parse_from, parse_placeholders, apply_escape_sequences,
}
use go_safe_cmd_runner.Templates.Errors.{TemplateError}
use go_safe_cmd_runner.Templates.Args.{expand_single_arg}
use go_safe_cmd_runner.Templates.Validation.References.{refs_in}

abbrev IsNameText : Text → Type 0
IsNameText = All (λ c. is_letter_or_underscore_or_digit c ≡ true)

check_chars-IsNameText : (name : Text) → check_chars name ≡ ok tt → IsNameText name
unfolding check_chars
check_chars-IsNameText [] h = tt
check_chars-IsNameText (c ∷ name) h = elim (Bool-cases (is_letter_or_underscore_or_digit c)) [
  | inl good ↦ (good, check_chars-IsNameText name (rw good at h))
  | inr bad ↦ absurd (cc (rw bad at h))
]

name-IsNameText : (name : Text) → validate_variable_name name ≡ ok tt → IsNameText name
unfolding validate_variable_name is_letter_or_underscore_or_digit
name-IsNameText [] h = tt
name-IsNameText (c ∷ name) h = elim (Bool-cases (is_letter_or_underscore c)) [
  | inl good ↦
      (ground (arith, good), check_chars-IsNameText name (rw (good, validate_variable_name) at h))
  | inr bad ↦ absurd (cc (rw (bad, validate_variable_name) at h))
]

module _ (c : ℕ) (good : is_letter_or_underscore_or_digit c ≡ true) where
  next_piece-letter : (rest : Text) → next_piece c rest ≡ emit c 1
  unfolding next_piece is_letter_or_underscore_or_digit is_letter_or_underscore
  next_piece-letter [] = refl
  next_piece-letter (x ∷ rest) = ground arith

  next_token-letter : (rest : Text) → next_token c rest ≡ plain 1
  unfolding next_token is_escape is_letter_or_underscore_or_digit is_letter_or_underscore
  next_token-letter [] = refl
  next_token-letter (x ∷ rest) = ground arith

  is_escape-letter : (x : ℕ) → is_escape c x ≡ false
  unfolding is_escape is_letter_or_underscore_or_digit is_letter_or_underscore
  is_escape-letter x = ground arith

-- A name with a closing brace behind it.
abbrev closed : Text → Text
closed name = name ++ b'}' ∷ []

parse_from-closed :
    (input : Text) (i : ℕ) (name : Text)
    → IsNameText name
    → parse_from input i 0 (closed name) ≡ ok []
unfolding parse_from next_token parse_round
parse_from-closed input i [] good = refl
parse_from-closed input i (c ∷ name) (letter, good) =
    rw (next_token-letter c letter (closed name), parse_from)
      (parse_from-closed input (suc i) name good)

apply_escape_sequences-closed :
    (name : Text) → IsNameText name → apply_escape_sequences (closed name) ≡ closed name
unfolding apply_escape_sequences
apply_escape_sequences-closed [] good = refl
apply_escape_sequences-closed (c ∷ []) (letter, good) =
    rw (is_escape-letter c letter b'}', apply_escape_sequences) (refl)
apply_escape_sequences-closed (c ∷ d ∷ name) (letter, good) =
    rw (is_escape-letter c letter d, apply_escape_sequences)
      (ap (λ (s : Text). c ∷ s) (apply_escape_sequences-closed (d ∷ name) good))

cut-closed : (name : Text) → IsNameText name → cut b'}' (closed name) ≡ some (name, [])
unfolding cut is_letter_or_underscore_or_digit is_letter_or_underscore
cut-closed [] good = refl
cut-closed (c ∷ name) (letter, good) = ground (arith, cut-closed name good)

refs_in-length : (s : Text) → refs_in (length s) s ≡ []
unfolding refs_in
refs_in-length [] = refl
refs_in-length (c ∷ s) = refs_in-length s

-- The same with an opening brace in front.
module _ (name : Text) (good : IsNameText name) where
  abbrev braced : Text
  braced = b'{' ∷ closed name

  next_piece-brace : (rest : Text) → next_piece b'{' rest ≡ emit b'{' 1
  unfolding next_piece
  next_piece-brace [] = refl
  next_piece-brace (x ∷ rest) = refl

  next_token-brace : (rest : Text) → next_token b'{' rest ≡ plain 1
  unfolding next_token is_escape
  next_token-brace [] = refl
  next_token-brace (x ∷ rest) = refl

  parse_from-braced : (input : Text) (i : ℕ) → parse_from input i 0 braced ≡ ok []
  unfolding parse_from parse_round
  parse_from-braced input i =
      rw (next_token-brace (closed name), parse_from) (parse_from-closed input (suc i) name good)

apply_escape_sequences-brace :
    (name : Text)
    → IsNameText name
    → apply_escape_sequences (b'{' ∷ closed name) ≡ b'{' ∷ closed name
unfolding apply_escape_sequences is_escape
apply_escape_sequences-brace [] good = refl
apply_escape_sequences-brace (c ∷ name) good =
    ap (λ (s : Text). b'{' ∷ s) (apply_escape_sequences-closed (c ∷ name) good)

next_piece-reference :
    (name body behind : Text)
    → cut b'}' body ≡ some (name, behind)
    → next_piece b'%' (b'{' ∷ body) ≡ reference name (length name + 3)
unfolding next_piece
next_piece-reference name body behind h = ground (arith, h)

refs_in-reference :
    (name : Text) → IsNameText name → refs_in 0 (b'%' ∷ b'{' ∷ closed name) ≡ name ∷ []
unfolding refs_in
refs_in-reference name good =
    let size : length name + 3 - 1 ≡ length (b'{' ∷ closed name) =
      omega (arith, length-append name (b'}' ∷ [])) in
    rw (next_piece-reference name (closed name) [] (cut-closed name good), refs_in)
      (ap (λ (xs : List Text). name ∷ xs)
        (ap (λ (k : ℕ). refs_in k (b'{' ∷ closed name)) size ∙ refs_in-length (b'{' ∷ closed name)))

abbrev walked : State (List Text) → Text → Result ExpandError (Text × State (List Text))
walked s out = ok (out, s)

abbrev one_text : Text → Result TemplateError (List Text)
one_text s = ok (s ∷ [])

escapes_left :
    (name : Text)
    → IsNameText name
    → apply_escape_sequences (codes "\\\\\\%{" ++ closed name) ≡ codes "\\\\%{" ++ closed name
unfolding apply_escape_sequences is_escape
escapes_left name good =
    ap (λ (s : Text). codes "\\\\%" ++ s) (apply_escape_sequences-brace name good)

-- The walk that collects the references passes over a name.
module _ (level field context : Text) (s : State (List Text)) where
  walk-closed :
      (name out : Text)
      → IsNameText name
      → walk ref_collector level field [] context 0 (closed name) out s ≡ ok (out ++ closed name, s)
  unfolding walk round next_piece
  walk-closed [] out good = refl
  walk-closed (c ∷ name) out (letter, good) =
      rw (next_piece-letter c letter (closed name), walk, round)
        (walk-closed name (out ++ c ∷ []) good
          ∙ ap (walked s) (append_assoc out (c ∷ []) (closed name)))

  walk-braced :
      (name out : Text)
      → IsNameText name
      → walk ref_collector level field [] context 0 (b'{' ∷ closed name) out s
        ≡ ok (out ++ b'{' ∷ closed name, s)
  unfolding walk round
  walk-braced name out good =
      rw (next_piece-brace name good (closed name), walk, round)
        (walk-closed name (out ++ b'{' ∷ []) good
          ∙ ap (walked s) (append_assoc out (b'{' ∷ []) (closed name)))

validate_global_only-escaped :
    (template_name field name : Text)
    → IsNameText name
    → validate_global_only (codes "\\\\\\%{" ++ closed name) template_name field ≡ ok tt
unfolding validate_global_only collect_refs process_var_refs walk round next_piece check_refs
validate_global_only-escaped template_name field name good =
    rw
      (walk-braced (codes "template[" ++ (template_name ++ codes "]")) field
        (codes "\\\\\\%{" ++ closed name) (record { visited = []; memo = [] }) name (codes "\\%")
        good)
      refl

-- Behind three backslashes a reference to a variable of any name passes the check for global
-- variables, as a text without references; the expansion of the template leaves two of them, and
-- behind those the reference counts.
pub escaped_reference :
    (params : Dict RawValue) (template_name field name : Text)
    → validate_variable_name name ≡ ok tt
    → (validate_global_only (codes "\\\\\\%{" ++ (name ++ codes "}")) template_name field ≡ ok tt)
      × (expand_single_arg params template_name field (codes "\\\\\\%{" ++ (name ++ codes "}"))
          ≡ ok ((codes "\\\\%{" ++ (name ++ codes "}")) ∷ []))
      × (refs_in 0 (codes "\\\\%{" ++ (name ++ codes "}")) ≡ name ∷ [])
unfolding refs_in next_piece expand_single_arg parse_placeholders parse_from next_token parse_round
    is_escape
escaped_reference params template_name field name valid =
    let good = name-IsNameText name valid in
    (
      validate_global_only-escaped template_name field name good,
      rw (parse_from-braced name good (codes "\\\\\\%{" ++ closed name) 4)
          (ap one_text (escapes_left name good)),
      refs_in-reference name good,
    )
