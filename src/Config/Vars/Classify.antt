-- ===== src/Config/Vars/Classify.antt =====
-- What the classification of the variables collects.
use go_safe_cmd_runner.Base.{
  ◌≡◌, sym, ◌∙◌, ap, subst, inl, inr, List, [], ◌∷◌, some, arith, Text, text_eq_refl, All, ok,
  Result-cases, ok_injective,
}
use go_safe_cmd_runner.Base.Dict.{Dict, lookup, insert, lookup-insert, insert-All}
use go_safe_cmd_runner.Expand.Lazy.{RawValue, string, array, other}
use go_safe_cmd_runner.Expand.Lazy.Sound.{Within}
use go_safe_cmd_runner.Config.Vars.{
  Classified, classify_one, classify_value, classify_all, validate_string_var, validate_array_var,
}
use go_safe_cmd_runner.Config.Vars.Values.{defined_later}

module _ (base : Dict Text) (arrays : Dict (List Text)) (imports : Dict Text) (level : Text) where
  -- What one round adds to `stringVars`.
  abbrev pub AddedString : Text → RawValue → Classified → Classified → Type 0
  AddedString name (string rv) c c' = c'.string_vars ≡ insert name rv c.string_vars
  AddedString name (array elements) c c' = c'.string_vars ≡ c.string_vars
  AddedString name other c c' = ⊥

  classify_value_adds :
      (name : Text) (value : RawValue) (c c' : Classified)
      → classify_value base arrays imports level name value c ≡ ok c'
      → AddedString name value c c'
  unfolding classify_value
  classify_value_adds name (string rv) c c' h =
      elim (Result-cases (validate_string_var base arrays imports level name rv)) [
        | inl (e, failed) ↦ absurd (cc (rw failed at h))
        | inr (done, passed) ↦
            sym (ap (λ (x : Classified). x.string_vars) (ok_injective (rw passed at h)))
      ]
  classify_value_adds name (array elements) c c' h =
      elim (Result-cases (validate_array_var base arrays imports level name elements)) [
        | inl (e, failed) ↦ absurd (cc (rw failed at h))
        | inr (done, passed) ↦
            sym (ap (λ (x : Classified). x.string_vars) (ok_injective (rw passed at h)))
      ]
  classify_value_adds name other c c' h = absurd (cc)

  pub classify_one_adds :
      (name : Text) (value : RawValue) (c c' : Classified)
      → classify_one base arrays imports level name value c ≡ ok c'
      → AddedString name value c c'
  unfolding classify_one
  classify_one_adds name value c c' h = classify_value_adds name value c c' (ground arith)

  -- The strings of a table, collected.
  abbrev pub Collected : Dict RawValue → Text × RawValue → Classified → Type 0
  Collected vars (name, string rv) c = (w : Text) × (lookup name c.string_vars ≡ some w)
  Collected vars (name, array elements) c = Unit
  Collected vars (name, other) c = Unit

  module _ (vars : Dict RawValue) where
    abbrev pub Good : Dict Text → Type 0
    Good = All (λ (e : Text × Text). lookup e.0 vars ≡ some (string e.1))

    unfoldable pub Entries : Dict RawValue → Classified → Classified → Type 0
    Entries rest c c' =
        Good c'.string_vars
        × Within c.string_vars c'.string_vars
        × All (λ e. Collected vars e c') rest

    classify_step :
        (name : Text) (value : RawValue) (c c' : Classified)
        → AddedString name value c c'
        → lookup name vars ≡ some value
        → Good c.string_vars
        → Good c'.string_vars
          × Within c.string_vars c'.string_vars
          × Collected vars (name, value) c'
    classify_step name (string rv) c c' added found good = (
      subst Good (sym added)
          (insert-All (λ k v. lookup k vars ≡ some (string v)) c.string_vars name rv good found),
      (λ x h. ground (arith, lookup-insert x name rv c.string_vars, ap (lookup x) added)),
      (rv, ap (lookup name) added ∙ lookup-insert name name rv c.string_vars ∙ rw text_eq_refl),
    )
    classify_step name (array elements) c c' added found good =
        (subst Good (sym added) good, (λ x h. ap (lookup x) (sym added) ∙ h), tt)
    classify_step name other c c' added found good = absurd added

    Collected-Within :
        (e : Text × RawValue) (c c' : Classified)
        → Within c.string_vars c'.string_vars
        → Collected vars e c
        → Collected vars e c'
    Collected-Within (name, string rv) c c' grows (w, h) =
        defined_later base vars name w c.string_vars c'.string_vars grows h
    Collected-Within (name, array elements) c c' grows h = tt
    Collected-Within (name, other) c c' grows h = tt

    pub classify_all-Entries :
        (rest : Dict RawValue) (c c' : Classified)
        → All (λ (e : Text × RawValue). lookup e.0 vars ≡ some e.1) rest
        → Good c.string_vars
        → classify_all base arrays imports level rest c ≡ ok c'
        → Entries rest c c'
    unfolding classify_all Entries
    classify_all-Entries [] c c' found good h = (
      subst (λ (x : Classified). Good x.string_vars) (ok_injective h) good,
      subst (λ (x : Classified). Within c.string_vars x.string_vars) (ok_injective h) (λ x e. e),
      tt,
    )
    classify_all-Entries ((name, value) ∷ rest) c c' (here, found) good h =
        elim (Result-cases (classify_one base arrays imports level name value c)) [
          | inl (e, failed) ↦ absurd (cc (rw failed at h))
          | inr (c1, done) ↦
              let (good1, grown1, collected) =
                classify_step name value c c1 (classify_one_adds name value c c1 done) here good in
              let (good', grown, all) =
                classify_all-Entries rest c1 c' found good1 (rw done at h) in
              (
                good',
                (λ x e. grown1 x (grown x e)),
                (Collected-Within (name, value) c1 c' grown collected, all),
              )
        ]
