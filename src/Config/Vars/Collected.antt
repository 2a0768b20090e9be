-- ===== src/Config/Vars/Collected.antt =====
-- The array variables that the classification collects.
use go_safe_cmd_runner.Base.{
  ◌≡◌, sym, ◌∙◌, ap, subst, inl, inr, true, false, List, [], ◌∷◌, Option, none, some, arith, Text,
  text_eq, text_eq_iff, ok, Result-cases, Bool-cases, ok_injective,
}
use go_safe_cmd_runner.Base.Dict.{
  Dict, lookup, insert, lookup-insert, UniqueKeys, insert-UniqueKeys,
}
use go_safe_cmd_runner.Expand.Lazy.{RawValue, string, array, other, Element}
use go_safe_cmd_runner.Config.Vars.{
  Classified, classify_one, classify_value, classify_all, validate_string_var, validate_array_var,
}

module _ (base : Dict Text) (arrays : Dict (List Text)) (imports : Dict Text) (level : Text) where
  -- What one round adds to `arrayVars`.
  abbrev AddedArray : Text → RawValue → Classified → Classified → Type 0
  AddedArray name (string rv) c c' = c'.array_vars ≡ c.array_vars
  AddedArray name (array elements) c c' = c'.array_vars ≡ insert name elements c.array_vars
  AddedArray name other c c' = ⊥

  classify_value_adds_array :
      (name : Text) (value : RawValue) (c c' : Classified)
      → classify_value base arrays imports level name value c ≡ ok c'
      → AddedArray name value c c'
  unfolding classify_value
  classify_value_adds_array name (string rv) c c' h =
      elim (Result-cases (validate_string_var base arrays imports level name rv)) [
        | inl (e, failed) ↦ absurd (cc (rw failed at h))
        | inr (done, passed) ↦
            sym (ap (λ (x : Classified). x.array_vars) (ok_injective (rw passed at h)))
      ]
  classify_value_adds_array name (array elements) c c' h =
      elim (Result-cases (validate_array_var base arrays imports level name elements)) [
        | inl (e, failed) ↦ absurd (cc (rw failed at h))
        | inr (done, passed) ↦
            sym (ap (λ (x : Classified). x.array_vars) (ok_injective (rw passed at h)))
      ]
  classify_value_adds_array name other c c' h = absurd (cc)

  classify_one_adds_array :
      (name : Text) (value : RawValue) (c c' : Classified)
      → classify_one base arrays imports level name value c ≡ ok c'
      → AddedArray name value c c'
  unfolding classify_one
  classify_one_adds_array name value c c' h =
      classify_value_adds_array name value c c' (ground arith)

  -- The array that a definition is, or what there was.
  abbrev pub array_or : Option RawValue → Option (List Element) → Option (List Element)
  array_or none before = before
  array_or (some (string rv)) before = before
  array_or (some (array elements)) before = some elements
  array_or (some other) before = before

  added_at :
      (key name : Text) (value : RawValue) (c c' : Classified)
      → AddedArray key value c c'
      → text_eq key name ≡ true
      → lookup name c'.array_vars ≡ array_or (some value) (lookup name c.array_vars)
  added_at key name (string rv) c c' added same = ap (lookup name) added
  added_at key name (array elements) c c' added same =
      ap (lookup name) added ∙ lookup-insert name key elements c.array_vars ∙ rw same
  added_at key name other c c' added same = absurd added

  added_beside :
      (key name : Text) (value : RawValue) (c c' : Classified)
      → AddedArray key value c c'
      → text_eq key name ≡ false
      → lookup name c'.array_vars ≡ lookup name c.array_vars
  added_beside key name (string rv) c c' added differ = ap (lookup name) added
  added_beside key name (array elements) c c' added differ =
      ap (lookup name) added ∙ lookup-insert name key elements c.array_vars ∙ rw differ
  added_beside key name other c c' added differ = absurd added

  added-UniqueKeys :
      (key : Text) (value : RawValue) (c c' : Classified)
      → AddedArray key value c c'
      → UniqueKeys c.array_vars
      → UniqueKeys c'.array_vars
  added-UniqueKeys key (string rv) c c' added unique =
      subst (λ (d : Dict (List Element)). UniqueKeys d) (sym added) unique
  added-UniqueKeys key (array elements) c c' added unique =
      subst (λ (d : Dict (List Element)). UniqueKeys d) (sym added)
        (insert-UniqueKeys key elements c.array_vars unique)
  added-UniqueKeys key other c c' added unique = absurd added

  pub classify_all-arrays :
      (rest : Dict RawValue) (c c' : Classified)
      → UniqueKeys rest
      → UniqueKeys c.array_vars
      → classify_all base arrays imports level rest c ≡ ok c'
      → UniqueKeys c'.array_vars
        × ((name : Text)
            → lookup name c'.array_vars ≡ array_or (lookup name rest) (lookup name c.array_vars))
  unfolding classify_all lookup
  classify_all-arrays [] c c' u unique h =
      let same = ap (λ (x : Classified). x.array_vars) (ok_injective h) in
      (
        subst (λ (d : Dict (List Element)). UniqueKeys d) same unique,
        λ name. ap (lookup name) (sym same),
      )
  classify_all-arrays ((key, value) ∷ rest) c c' (new, u) unique h =
      elim (Result-cases (classify_one base arrays imports level key value c)) [
        | inl (e, failed) ↦ absurd (cc (rw failed at h))
        | inr (c1, done) ↦
            let added = classify_one_adds_array key value c c1 done in
            let (unique', found) =
              classify_all-arrays rest c1 c' u (added-UniqueKeys key value c c1 added unique)
                (rw done at h) in
            (
              unique',
              λ name. elim (Bool-cases (text_eq key name)) [
                | inl same ↦
                    found name
                    ∙ ap (λ (o : Option RawValue). array_or o (lookup name c1.array_vars))
                        (subst (λ (x : Text). lookup x rest ≡ none) ((text_eq_iff key name).0 same)
                          new)
                    ∙ added_at key name value c c1 added same
                    ∙ rw same
                | inr differ ↦
                    found name
                    ∙ ap (array_or (lookup name rest))
                        (added_beside key name value c c1 added differ)
                    ∙ rw differ
              ],
            )
      ]
