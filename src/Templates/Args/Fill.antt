-- ===== src/Templates/Args/Fill.antt =====
-- String replacement by positions, last placeholder first, against reading the template once.
use mathlib.Core.Option
use go_safe_cmd_runner.Base.{
  ℕ, zero, suc, ◌+◌, ◌-◌, ◌≤◌, ◌≡◌, refl, sym, subst, ◌∙◌, ap, inl, inr, true, false, List, [], ◌∷◌,
  ◌++◌, append_assoc, length-append, Option, none, some, Text, length, take, drop, Result, ok, err,
  ◌>>=◌, arith, Result-cases, ok_injective,
}
use go_safe_cmd_runner.Base.Dict.{Dict, lookup}
use go_safe_cmd_runner.Expand.Lazy.{RawValue, string, other}
use go_safe_cmd_runner.Templates.Errors.{TemplateError}
use go_safe_cmd_runner.Templates.Placeholders.{
  Placeholder, PlaceholderType, required, optional, array, Token, plain, hole, unclosed, next_token,
  check_content, parse_round, parse_from, parse_placeholders,
}
use go_safe_cmd_runner.Templates.Args.{replacement, replace_one, replace_all}
use go_safe_cmd_runner.Templates.Args.Reading.{
  to_option, joined, joined_map, joined-none, value_for, fill, fill_zero, map_append_assoc, map_id,
  fill_copy, take-length, drop-length, length-take, hole-next_token, check_content_ok,
}

module _ (params : Dict RawValue) (template_name field : Text) where
  to_option-replacement :
      (ptype : PlaceholderType) (name : Text) (v : Option RawValue)
      → to_option (replacement params template_name field ptype name v) ≡ value_for params ptype v
  unfolding replacement
  to_option-replacement required name none = refl
  to_option-replacement required name (some (string s)) = refl
  to_option-replacement required name (some (RawValue.array e)) = refl
  to_option-replacement required name (some other) = refl
  to_option-replacement optional name none = refl
  to_option-replacement optional name (some (string s)) = refl
  to_option-replacement optional name (some (RawValue.array e)) = refl
  to_option-replacement optional name (some other) = refl
  to_option-replacement array name none = refl
  to_option-replacement array name (some (string s)) = refl
  to_option-replacement array name (some (RawValue.array e)) = refl
  to_option-replacement array name (some other) = refl

  -- What one replacement makes of the text around a placeholder.
  splice :
      (pre hole_text v t : Text)
      → take (length pre) (pre ++ (hole_text ++ t))
          ++ (v ++ drop (length pre + length hole_text) (pre ++ (hole_text ++ t)))
        ≡ pre ++ (v ++ t)
  splice pre hole_text v t =
      let front = take-length pre (hole_text ++ t) in
      let back : drop (length pre + length hole_text) (pre ++ (hole_text ++ t)) ≡ t =
        rw (← append_assoc pre hole_text t, ← length-append pre hole_text)
          (drop-length (pre ++ hole_text) t) in
      rw (front, back)

  replace_one_lem :
      (ph : Placeholder) (pre hole_text t : Text)
      → ph.start ≡ length pre
      → ph.stop ≡ length pre + length hole_text
      → to_option (replace_one params template_name field ph (pre ++ (hole_text ++ t)))
        ≡ Option.map (λ v. pre ++ (v ++ t)) (value_for params ph.ptype (lookup ph.name params))
  unfolding replace_one
  replace_one_lem ph pre hole_text t start stop =
      let value = to_option-replacement ph.ptype ph.name (lookup ph.name params) in
      elim (Result-cases
        (replacement params template_name field ph.ptype ph.name (lookup ph.name params))) [
          | inl (e, failed) ↦
              rw (failed, replace_one)
                (ap (Option.map (λ (v : Text). pre ++ (v ++ t))) (rw failed at value))
          | inr (v, done) ↦
              rw (done, replace_one, start, stop)
                (ap some (splice pre hole_text v t)
                  ∙ ap (Option.map (λ (w : Text). pre ++ (w ++ t))) (rw done at value))
        ]

  -- What the loop yields on a text whose placeholders were parsed from a position on.
  Replaced : Text → ℕ → Text → List Placeholder → Type 0
  Replaced pre skip s placeholders =
      to_option (replace_all params template_name field placeholders (pre ++ s))
      ≡ Option.map (λ (t : Text). pre ++ t) (fill params true skip s)

  replace_then :
      (ph : Placeholder) (pre : Text) (c k : ℕ) (rest : Text) (r : Result TemplateError Text)
      (behind : Option Text)
      → k ≤ length rest
      → ph.start ≡ length pre
      → ph.stop ≡ length pre + suc k
      → to_option r ≡ Option.map (λ (t : Text). (pre ++ c ∷ []) ++ (take k rest ++ t)) behind
      → to_option (r >>= replace_one params template_name field ph)
        ≡ Option.map
            (λ (t : Text). pre ++ t)
            (joined (value_for params ph.ptype (lookup ph.name params)) behind)
  replace_then ph pre c k rest (err e) none fits start stop h =
      ap (Option.map (λ (t : Text). pre ++ t))
        (sym (joined-none (value_for params ph.ptype (lookup ph.name params))))
  replace_then ph pre c k rest (err e) (some t) fits start stop h = absurd (cc)
  replace_then ph pre c k rest (ok x) none fits start stop h = absurd (cc)
  replace_then ph pre c k rest (ok x) (some t) fits start stop h =
      let whole : x ≡ pre ++ ((c ∷ take k rest) ++ t) =
        (cc) ∙ append_assoc pre (c ∷ []) (take k rest ++ t) in
      rw whole (
        replace_one_lem ph pre (c ∷ take k rest) t start (omega (arith, length-take k rest fits))
        ∙ joined_map pre t (value_for params ph.ptype (lookup ph.name params)))

  map_map_take :
      (front : Text) (k : ℕ) (rest : Text) (o : Option Text)
      → Option.map (λ (t : Text). front ++ t) (Option.map (λ (t : Text). take k rest ++ t) o)
        ≡ Option.map (λ (t : Text). front ++ (take k rest ++ t)) o
  map_map_take front k rest none = refl
  map_map_take front k rest (some t) = refl

  replace_hole :
      (ph : Placeholder) (later : List Placeholder) (pre rest : Text) (c k : ℕ)
      → k ≤ length rest
      → ph.start ≡ length pre
      → ph.stop ≡ length pre + suc k
      → Replaced (pre ++ c ∷ []) k rest later
      → to_option (replace_all params template_name field (ph ∷ later) (pre ++ c ∷ rest))
        ≡ Option.map
            (λ (t : Text). pre ++ t)
            (joined (value_for params ph.ptype (lookup ph.name params)) (fill params false k rest))
  unfolding Replaced replace_all
  replace_hole ph later pre rest c k fits start stop ih =
      replace_then ph pre c k rest (replace_all params template_name field later (pre ++ c ∷ rest))
        (fill params false k rest) fits start stop
        (ap (λ (s : Text). to_option (replace_all params template_name field later s))
            (sym (append_assoc pre (c ∷ []) rest))
          ∙ ih
          ∙ ap (Option.map (λ (t : Text). (pre ++ c ∷ []) ++ t)) (fill_copy params k rest)
          ∙ map_map_take (pre ++ c ∷ []) k rest (fill params false k rest))

  replace_plain :
      (later : List Placeholder) (pre rest : Text) (c k : ℕ)
      → Replaced (pre ++ c ∷ []) k rest later
      → to_option (replace_all params template_name field later (pre ++ c ∷ rest))
        ≡ Option.map
            (λ (t : Text). pre ++ t)
            (Option.map (λ (t : Text). c ∷ t) (fill params true k rest))
  unfolding Replaced
  replace_plain later pre rest c k ih =
      ap (λ (s : Text). to_option (replace_all params template_name field later s))
        (sym (append_assoc pre (c ∷ []) rest))
      ∙ ih
      ∙ map_append_assoc params pre (c ∷ []) (fill params true k rest)

  next_index : (pre : Text) (c : ℕ) → length (pre ++ c ∷ []) ≡ suc (length pre)
  next_index pre c = omega (arith, length-append pre (c ∷ []))

  round-Replaced :
      (input pre : Text) (c : ℕ) (rest : Text) (token : Token) (placeholders : List Placeholder)
      → next_token c rest ≡ token
      → ((k : ℕ) (later : List Placeholder)
          → parse_from input (suc (length pre)) k rest ≡ ok later
          → Replaced (pre ++ c ∷ []) k rest later)
      → parse_round input
          (length pre)
          (c ∷ rest)
          token
          (λ n. parse_from input (suc (length pre)) (n - 1) rest)
        ≡ ok placeholders
      → Replaced pre 0 (c ∷ rest) placeholders
  unfolding parse_round fill Replaced
  round-Replaced input pre c rest (plain n) placeholders e ih h =
      rw (e, fill) (replace_plain placeholders pre rest c (n - 1) (ih (n - 1) placeholders h))
  round-Replaced input pre c rest unclosed placeholders e ih h = absurd (cc)
  round-Replaced input pre c rest (hole content n) placeholders e ih h =
      let (k, size, fits) = hole-next_token c rest content n e in
      let same : n - 1 ≡ k = omega arith in
      elim (Result-cases (check_content input (length pre) content)) [
        | inl (x, failed) ↦ absurd (cc (rw (failed, parse_round) at h))
        | inr ((ptype, name), checked) ↦
            elim (Result-cases (parse_from input (suc (length pre)) (n - 1) rest)) [
              | inl (x, failed) ↦ absurd (cc (rw (checked, failed, parse_round) at h))
              | inr (later, parsed) ↦
                  let ph : Placeholder = record {
                    full_match = take n (c ∷ rest);
                    name = name;
                    ptype = ptype;
                    start = length pre;
                    stop = length pre + n;
                  } in
                  let split : ph ∷ later ≡ placeholders =
                    ok_injective (rw (checked, parsed, parse_round) at h) in
                  subst (λ (phs : List Placeholder). Replaced pre 0 (c ∷ rest) phs) split
                    (rw
                      (
                        e,
                        fill,
                        check_content_ok input (length pre) content ptype name params checked,
                      )
                      (replace_hole ph later pre rest c (n - 1) (omega arith) refl (omega arith)
                        (ih (n - 1) later parsed)))
            ]
      ]

  -- Parsing from a position, then replacing, is reading on from there.
  parse_from-Replaced :
      (input pre : Text) (skip : ℕ) (s : Text) (placeholders : List Placeholder)
      → parse_from input (length pre) skip s ≡ ok placeholders
      → Replaced pre skip s placeholders
  unfolding parse_from Replaced fill replace_all
  parse_from-Replaced input pre skip [] placeholders h =
      subst (λ (phs : List Placeholder). Replaced pre skip [] phs) (ok_injective h) refl
  parse_from-Replaced input pre (suc skip) (c ∷ rest) placeholders h =
      replace_plain placeholders pre rest c skip (
        parse_from-Replaced input (pre ++ c ∷ []) skip rest placeholders
          (ap (λ (i : ℕ). parse_from input i skip rest) (next_index pre c) ∙ h))
  parse_from-Replaced input pre zero (c ∷ rest) placeholders h =
      round-Replaced input pre c rest (next_token c rest) placeholders refl
        (λ k later parsed.
          parse_from-Replaced input (pre ++ c ∷ []) k rest later
            (ap (λ (i : ℕ). parse_from input i k rest) (next_index pre c) ∙ parsed))
        h

  -- Where its placeholders parse, replacing them by their positions, the last one first, is reading
  -- the template once from its front: it succeeds exactly when every placeholder has a text for a
  -- value, and gives the same text.
  pub replace_all-fill :
      (input : Text) (placeholders : List Placeholder)
      → parse_placeholders input ≡ ok placeholders
      → to_option (replace_all params template_name field placeholders input)
        ≡ fill params false 0 input
  unfolding parse_placeholders Replaced
  replace_all-fill input placeholders h =
      parse_from-Replaced input [] 0 input placeholders h
      ∙ sym (map_id params (fill params true 0 input))
      ∙ fill_zero params input
