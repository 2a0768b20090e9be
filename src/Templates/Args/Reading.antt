-- ===== src/Templates/Args/Reading.antt =====
-- Reading the text of a template once from its front, and what the tokens of it take up.
use mathlib.Core.Option
use go_safe_cmd_runner.Base.{
  ℕ, zero, suc, ◌+◌, ◌-◌, ◌≤◌, ◌≡◌, refl, ◌∙◌, ap, inl, inr, Bool, true, false, [], ◌∷◌, ◌++◌,
  append_assoc, length-append, Option, none, some, Text, length, take, drop, cut, cut-some, Result,
  ok, err, arith, Result-cases, Option-cases, ok_injective,
}
use go_safe_cmd_runner.Base.Dict.{Dict, lookup}
use go_safe_cmd_runner.Names.{validate_variable_name}
use go_safe_cmd_runner.Expand.Lazy.{RawValue, string}
use go_safe_cmd_runner.Templates.Errors.{TemplateError}
use go_safe_cmd_runner.Templates.Placeholders.{
  PlaceholderType, required, optional, plain, hole, unclosed, hole_token, next_token, check_content,
  check_name, split_content,
}

abbrev pub to_option : {A : Type 0} → Result TemplateError A → Option A
to_option (ok a) = some a
to_option (err e) = none

-- A value in front of the rest.
abbrev pub joined : Option Text → Option Text → Option Text
joined none rest = none
joined (some v) none = none
joined (some v) (some t) = some (v ++ t)

pub joined_map :
    (pre t : Text) (value : Option Text)
    → Option.map (λ (v : Text). pre ++ (v ++ t)) value
      ≡ Option.map (λ (s : Text). pre ++ s) (joined value (some t))
joined_map pre t none = refl
joined_map pre t (some v) = refl

pub joined-none : (value : Option Text) → joined value none ≡ none
joined-none none = refl
joined-none (some v) = refl

module _ (params : Dict RawValue) where
  -- The value of a placeholder of a type and a name in string replacement.
  abbrev pub value_for : PlaceholderType → Option RawValue → Option Text
  value_for required (some (string s)) = some s
  value_for optional (some (string s)) = some s
  value_for optional none = some []
  value_for _ _ = none

  -- The value of the content of a placeholder.
  unfoldable pub content_value : Text → Option Text
  unfolding split_content
  content_value [] = none
  content_value (c ∷ name) =
      let (ptype, name') = split_content c name in value_for ptype (lookup name' params)

  -- Reading forwards: copying or leaving out some bytes, then the next token.
  unfoldable pub fill : (copy : Bool) → ℕ → Text → Option Text
  fill copy skip [] = some []
  fill true (suc skip) (c ∷ rest) = Option.map (λ s. c ∷ s) (fill true skip rest)
  fill false (suc skip) (c ∷ rest) = fill false skip rest
  fill copy zero (c ∷ rest) = elim (next_token c rest) [
    | plain n ↦ Option.map (λ s. c ∷ s) (fill true (n - 1) rest)
    | unclosed ↦ none
    | hole content n ↦ joined (content_value content) (fill false (n - 1) rest)
  ]

  pub fill_zero : (s : Text) → fill true 0 s ≡ fill false 0 s
  unfolding fill
  fill_zero [] = refl
  fill_zero (c ∷ rest) = refl

  pub map_append_assoc :
      (xs ys : Text) (o : Option Text)
      → Option.map (λ s. (xs ++ ys) ++ s) o
        ≡ Option.map (λ s. xs ++ s) (Option.map (λ s. ys ++ s) o)
  map_append_assoc xs ys none = refl
  map_append_assoc xs ys (some s) = ap some (append_assoc xs ys s)

  pub map_id : (o : Option Text) → o ≡ Option.map (λ s. s) o
  map_id none = refl
  map_id (some s) = refl

  -- Copying bytes is leaving them out and putting them in front.
  pub fill_copy :
      (k : ℕ) (s : Text) → fill true k s ≡ Option.map (λ t. take k s ++ t) (fill false k s)
  unfolding fill
  fill_copy zero s = fill_zero s ∙ map_id (fill false 0 s)
  fill_copy (suc k) [] = refl
  fill_copy (suc k) (c ∷ rest) =
      ap (Option.map (λ s. c ∷ s)) (fill_copy k rest) ∙ cons_map (fill false k rest)
    where
      cons_map :
          (o : Option Text)
          → Option.map (λ s. c ∷ s) (Option.map (λ t. take k rest ++ t) o)
            ≡ Option.map (λ t. c ∷ take k rest ++ t) o
      cons_map none = refl
      cons_map (some s) = refl

pub take-length : (xs ys : Text) → take (length xs) (xs ++ ys) ≡ xs
take-length [] ys = refl
take-length (x ∷ xs) ys = ap (λ s. x ∷ s) (take-length xs ys)

pub drop-length : (xs ys : Text) → drop (length xs) (xs ++ ys) ≡ ys
drop-length [] ys = refl
drop-length (x ∷ xs) ys = drop-length xs ys

pub length-take : (k : ℕ) (s : Text) → k ≤ length s → length (take k s) ≡ k
length-take zero s h = refl
length-take (suc k) [] h = absurd (omega arith)
length-take (suc k) (c ∷ s) h = ap suc (length-take k s (omega arith))

-- A placeholder takes up bytes of its text.
pub hole-next_token :
    (c : ℕ) (rest content : Text) (n : ℕ)
    → next_token c rest ≡ hole content n
    → (k : ℕ) × (n ≡ suc k) × (k ≤ length rest)
unfolding next_token hole_token
hole-next_token c [] content n h = absurd (cc)
hole-next_token c (d ∷ []) content n h = absurd (ground arith)
hole-next_token c (d ∷ x ∷ rest) content n h = elim (Option-cases (cut b'}' (x ∷ rest))) [
  | inl missing ↦ absurd (ground arith)
  | inr ((before, behind), found) ↦
      let whole = ap (length {A = ℕ}) (cut-some b'}' (x ∷ rest) before behind found) in
      let sum = length-append before (b'}' ∷ behind) in
      (length before + 2, ground arith, omega arith)
]

pub check_name_ok :
    (input : Text) (i : ℕ) (p q : PlaceholderType × Text) → check_name input i p ≡ ok q → p ≡ q
unfolding check_name
check_name_ok input i (ptype, []) q h = absurd (cc)
check_name_ok input i (ptype, c ∷ name) q h =
    elim (Result-cases (validate_variable_name (c ∷ name))) [
      | inl (e, failed) ↦ absurd (cc (rw (failed, check_name) at h))
      | inr (done, valid) ↦ ok_injective (rw (valid, check_name) at h)
    ]

pub check_content_ok :
    (input : Text) (i : ℕ) (content : Text) (ptype : PlaceholderType) (name : Text)
    (params : Dict RawValue)
    → check_content input i content ≡ ok (ptype, name)
    → content_value params content ≡ value_for params ptype (lookup name params)
unfolding check_content check_name content_value
check_content_ok input i [] ptype name params h = absurd (cc)
check_content_ok input i (c ∷ content) ptype name params h =
    ap (λ (p : PlaceholderType × Text). value_for params p.0 (lookup p.1 params))
      (check_name_ok input i (split_content c content) (ptype, name) h)
