-- ===== src/Templates/Args/Single.antt =====
-- What one field of a template becomes.
use mathlib.Core.Option
use go_safe_cmd_runner.Base.{
  ◌≡◌, refl, ◌∙◌, ap, inl, inr, Bool, true, false, not, ◌&&◌, List, [], ◌∷◌, none, Text, text_eq,
  ok, Result-cases,
}
use go_safe_cmd_runner.Base.Dict.{Dict}
use go_safe_cmd_runner.Expand.Lazy.{RawValue}
use go_safe_cmd_runner.Templates.Placeholders.{
  Placeholder, PlaceholderType, required, optional, array, parse_placeholders,
  apply_escape_sequences,
}
use go_safe_cmd_runner.Templates.Args.{
  replacement, replace_one, replace_all, drop_empty, expand_string_placeholders, expand_one,
  expand_placeholders, expand_single_arg,
}
use go_safe_cmd_runner.Templates.Args.Reading.{to_option, fill}
use go_safe_cmd_runner.Templates.Args.Fill.{replace_all-fill}

abbrev pub is_required : PlaceholderType → Bool
is_required required = true
is_required _ = false

-- The field is one optional or array placeholder and nothing else.
abbrev pub is_alone : Text → List Placeholder → Bool
is_alone arg (ph ∷ []) = not (is_required ph.ptype) && text_eq arg ph.full_match
is_alone arg _ = false

-- The texts that a field becomes: an empty one is left out, if placeholders made it.
abbrev pub shown : List Placeholder → Text → List Text
shown [] s = apply_escape_sequences s ∷ []
shown (ph ∷ placeholders) s = drop_empty (apply_escape_sequences s)

module _ (params : Dict RawValue) (template_name field : Text) where
  strings_lem :
      (arg : Text) (placeholders : List Placeholder)
      → to_option (expand_string_placeholders params template_name field arg placeholders)
        ≡ Option.map
            (λ (s : Text). drop_empty (apply_escape_sequences s))
            (to_option (replace_all params template_name field placeholders arg))
  unfolding expand_string_placeholders
  strings_lem arg placeholders =
      elim (Result-cases (replace_all params template_name field placeholders arg)) [
        | inl (e, failed) ↦ rw (failed, expand_string_placeholders) refl
        | inr (s, done) ↦ rw (done, expand_string_placeholders) refl
      ]

  array_fails :
      (arg : Text) (ph : Placeholder)
      → ph.ptype ≡ array
      → to_option (replace_all params template_name field (ph ∷ []) arg) ≡ none
  unfolding replace_all replace_one replacement
  array_fails arg ph h = rw (h, replace_all, replace_one, replacement) refl

  one_lem :
      (arg : Text) (ph : Placeholder) (ptype : PlaceholderType)
      → ph.ptype ≡ ptype
      → not (is_required ptype) && text_eq arg ph.full_match ≡ false
      → to_option (expand_one params template_name field arg ph ptype)
        ≡ Option.map
            (λ (s : Text). drop_empty (apply_escape_sequences s))
            (to_option (replace_all params template_name field (ph ∷ []) arg))
  unfolding expand_one
  one_lem arg ph required e h = strings_lem arg (ph ∷ [])
  one_lem arg ph optional e h = rw (h, expand_one) (strings_lem arg (ph ∷ []))
  one_lem arg ph array e h = rw (h, expand_one, array_fails arg ph e) refl

  mixed_lem :
      (arg : Text) (placeholders : List Placeholder)
      → is_alone arg placeholders ≡ false
      → to_option (expand_placeholders params template_name field arg placeholders)
        ≡ Option.map
            (shown placeholders)
            (to_option (replace_all params template_name field placeholders arg))
  unfolding expand_placeholders
  mixed_lem arg [] h = unfold replace_all in refl
  mixed_lem arg (ph ∷ []) h = one_lem arg ph ph.ptype refl h
  mixed_lem arg (ph ∷ qh ∷ rest) h = strings_lem arg (ph ∷ qh ∷ rest)

  -- A field whose placeholders parse, and which is not one optional or array placeholder alone,
  -- becomes what reading it once gives, with the escapes resolved; an array placeholder within
  -- other text, and a missing or ill-typed value, make it fail.
  pub expand_single_arg-fill :
      (arg : Text) (placeholders : List Placeholder)
      → parse_placeholders arg ≡ ok placeholders
      → is_alone arg placeholders ≡ false
      → to_option (expand_single_arg params template_name field arg)
        ≡ Option.map (shown placeholders) (fill params false 0 arg)
  unfolding expand_single_arg
  expand_single_arg-fill arg placeholders parsed mixed =
      rw (parsed, expand_single_arg)
        (mixed_lem arg placeholders mixed
          ∙ ap (Option.map (shown placeholders))
              (replace_all-fill params template_name field arg placeholders parsed))
