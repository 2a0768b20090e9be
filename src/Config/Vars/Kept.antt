-- ===== src/Config/Vars/Kept.antt =====
-- Imported variables keep their values: ProcessVars defines none of them again.
use go_safe_cmd_runner.Base.{
  ℕ, ◌+◌, ◌≡◌, sym, ◌∙◌, ap, subst, inl, inr, false, List, [], ◌∷◌, ◌++◌, Option, none, some, arith,
  Text, codes, length, ltb, text_eq, text_eq_iff, All, decimal, ok, Result-cases, Option-cases,
  Bool-cases, ok_pair, ok_injective,
}
use go_safe_cmd_runner.Base.Dict.{Dict, lookup, insert, lookup-insert, insert-All}
use go_safe_cmd_runner.Expand.Lazy
use go_safe_cmd_runner.Expand.Lazy.{
  RawValue, string, array, other, Element, text_element, other_element,
}
use go_safe_cmd_runner.Expand.Lazy.Values.{Stands-unique, value_of_inherited}
use go_safe_cmd_runner.Expand.Lazy.Sound.{IsMemo, expand_string_sound}
use go_safe_cmd_runner.Config.Imports.{is_defined}
use go_safe_cmd_runner.Config.Vars.{
  Classified, classify_one, classify_all, validate_and_classify_vars, expand_string_vars,
  expand_elements, expand_array_vars, expand_vars_with_lazy_resolution, max_vars_per_level,
  process_vars,
}
use go_safe_cmd_runner.Config.Vars.Values.{defined_later}
use go_safe_cmd_runner.Config.Vars.Classify.{AddedString, classify_one_adds}

module _ (vars : Dict RawValue) (name v : Text) where
  -- An expansion leaves the entries of its memo as they are.
  expand_string_kept :
      (arrays : Dict (List Text)) (level field rv out : Text) (memo memo' : Dict Text)
      → lookup name memo ≡ some v
      → Lazy.expand_string arrays vars level field rv memo ≡ ok (out, memo')
      → lookup name memo' ≡ some v
  expand_string_kept arrays level field rv out memo memo' found h =
      let own : IsMemo memo vars memo memo = record {
        correct = λ x w e. (0, value_of_inherited memo vars 0 x w e);
        covers = λ x e. e;
      } in
      let (means, grown) =
        expand_string_sound memo vars memo own.covers arrays level field rv out memo memo' own h in
      let (w, found') = defined_later memo vars name v memo memo' grown.covers found in
      let same =
        Stands-unique memo vars name w v (grown.correct name w found')
          (0, value_of_inherited memo vars 0 name v found) in
      found' ∙ ap some same

  module _ (base : Dict Text) (arrays : Dict (List Text)) (imports : Dict Text) (level : Text) where
    expand_string_vars-kept :
        (entries memo memo' : Dict Text)
        → All (λ (e : Text × Text). text_eq e.0 name ≡ false) entries
        → lookup name memo ≡ some v
        → expand_string_vars base arrays imports level vars entries memo ≡ ok memo'
        → lookup name memo' ≡ some v
    unfolding expand_string_vars
    expand_string_vars-kept [] memo memo' others found h =
        ap (lookup name) (sym (ok_injective h)) ∙ found
    expand_string_vars-kept ((key, rv) ∷ rest) memo memo' (differ, others) found h =
        elim (Result-cases (Lazy.expand_string arrays vars level (codes "vars." ++ key) rv memo)) [
          | inl (e, failed) ↦ absurd (cc (rw failed at h))
          | inr ((out, m1), done) ↦
              let kept =
                expand_string_kept arrays level (codes "vars." ++ key) rv out memo m1 found done in
              expand_string_vars-kept rest (insert key out m1) memo' others
                (lookup-insert name key out m1 ∙ rw differ kept) (rw done at h)
        ]

    expand_elements-kept :
        (arrays' : Dict (List Text)) (key : Text) (i : ℕ) (elements : List Element)
        (memo memo' : Dict Text) (out : List Text)
        → lookup name memo ≡ some v
        → expand_elements base arrays imports level vars arrays' key i elements memo
          ≡ ok (out, memo')
        → lookup name memo' ≡ some v
    unfolding expand_elements
    expand_elements-kept arrays' key i [] memo memo' out found h =
        ap (lookup name) (sym (ok_pair [] out memo memo' h).1) ∙ found
    expand_elements-kept arrays' key i (other_element ∷ rest) memo memo' out found h = absurd (cc)
    expand_elements-kept arrays' key i (text_element str ∷ rest) memo memo' out found h =
        let field = codes "vars." ++ (key ++ (codes "[" ++ (decimal i ++ codes "]"))) in
        elim (Result-cases (Lazy.expand_string arrays' vars level field str memo)) [
          | inl (e, failed) ↦ absurd (cc (rw failed at h))
          | inr ((w, m1), done) ↦
              let kept = expand_string_kept arrays' level field str w memo m1 found done in
              elim (Result-cases
                (expand_elements base arrays imports level vars arrays' key (i + 1) rest m1)) [
                  | inl (e, failed) ↦ absurd (cc (rw (done, failed) at h))
                  | inr ((later, m2), done') ↦
                      let (_, same) = ok_pair (w ∷ later) out m2 memo' (rw (done, done') at h) in
                      ap (lookup name) (sym same)
                      ∙ expand_elements-kept arrays' key (i + 1) rest m1 m2 later kept done'
                ]
        ]

    expand_array_vars-kept :
        (entries : Dict (List Element)) (arrays' out : Dict (List Text)) (memo memo' : Dict Text)
        → lookup name memo ≡ some v
        → expand_array_vars base arrays imports level vars entries arrays' memo ≡ ok (memo', out)
        → lookup name memo' ≡ some v
    unfolding expand_array_vars
    expand_array_vars-kept [] arrays' out memo memo' found h =
        ap (lookup name) (sym (ok_pair memo memo' arrays' out h).0) ∙ found
    expand_array_vars-kept ((key, elements) ∷ rest) arrays' out memo memo' found h =
        elim (Result-cases
          (expand_elements base arrays imports level vars arrays' key 0 elements memo)) [
            | inl (e, failed) ↦ absurd (cc (rw failed at h))
            | inr ((expanded, m1), done) ↦
                expand_array_vars-kept rest (insert key expanded arrays') out m1 memo'
                  (expand_elements-kept arrays' key 0 elements memo m1 expanded found done)
                  (rw done at h)
          ]

module _ (base : Dict Text) (arrays : Dict (List Text)) (imports : Dict Text) (level : Text) where
  -- No string variable is an imported one.
  abbrev NotImported : Dict Text → Type 0
  NotImported = All (λ (e : Text × Text). lookup e.0 imports ≡ none)

  conflict_free :
      (name : Text) (value : RawValue) (c c' : Classified)
      → classify_one base arrays imports level name value c ≡ ok c'
      → lookup name imports ≡ none
  unfolding classify_one is_defined
  conflict_free name value c c' h = elim (Option-cases (lookup name imports)) [
    | inl free ↦ free
    | inr (v, imported) ↦ absurd (ground arith)
  ]

  added-NotImported :
      (name : Text) (value : RawValue) (c c' : Classified)
      → AddedString base arrays imports level name value c c'
      → lookup name imports ≡ none
      → NotImported c.string_vars
      → NotImported c'.string_vars
  added-NotImported name (string rv) c c' added free all =
      subst NotImported (sym added)
        (insert-All (λ k v. lookup k imports ≡ none) c.string_vars name rv all free)
  added-NotImported name (array elements) c c' added free all = subst NotImported (sym added) all
  added-NotImported name other c c' added free all = absurd added

  classify_all-NotImported :
      (entries : Dict RawValue) (c c' : Classified)
      → NotImported c.string_vars
      → classify_all base arrays imports level entries c ≡ ok c'
      → NotImported c'.string_vars
  unfolding classify_all
  classify_all-NotImported [] c c' all h =
      subst (λ (x : Classified). NotImported x.string_vars) (ok_injective h) all
  classify_all-NotImported ((name, value) ∷ rest) c c' all h =
      elim (Result-cases (classify_one base arrays imports level name value c)) [
        | inl (e, failed) ↦ absurd (cc (rw failed at h))
        | inr (c1, done) ↦
            classify_all-NotImported rest c1 c'
              (added-NotImported name value c c1
                (classify_one_adds base arrays imports level name value c c1 done)
                (conflict_free name value c c1 done) all)
              (rw done at h)
      ]

  differ_from :
      (name v : Text) (entries : Dict Text)
      → lookup name imports ≡ some v
      → NotImported entries
      → All (λ (e : Text × Text). text_eq e.0 name ≡ false) entries
  differ_from name v [] imported all = tt
  differ_from name v ((key, rv) ∷ rest) imported (new, all) =
      (ground (arith, text_eq_iff key name), differ_from name v rest imported all)

  -- After a successful ProcessVars an imported variable has the value that it had before.
  pub process_vars_kept :
      (vars : Option (Dict RawValue)) (name i v : Text) (strings : Dict Text)
      (out : Dict (List Text))
      → lookup name imports ≡ some i
      → lookup name base ≡ some v
      → process_vars base arrays imports level vars ≡ ok (strings, out)
      → lookup name strings ≡ some v
  unfolding process_vars validate_and_classify_vars expand_vars_with_lazy_resolution
  process_vars_kept none name i v strings out imported found h =
      ap (lookup name) (sym (ok_pair base strings arrays out h).0) ∙ found
  process_vars_kept (some vars) name i v strings out imported found h =
      elim (Bool-cases (ltb max_vars_per_level (length vars))) [
        | inl many ↦ absurd (cc (rw many at h))
        | inr few ↦
            elim (Result-cases (validate_and_classify_vars base arrays imports level vars)) [
              | inl (e, failed) ↦ absurd (cc (rw (few, failed) at h))
              | inr (c, done) ↦
                  let others = differ_from name i c.string_vars imported (
                    classify_all-NotImported vars (record { string_vars = []; array_vars = [] }) c
                      tt done) in
                  elim (Result-cases
                    (expand_string_vars base arrays imports level vars c.string_vars base)) [
                      | inl (e, failed) ↦
                          absurd
                            (cc (rw (few, done, expand_vars_with_lazy_resolution, failed) at h))
                      | inr (memo, expanded) ↦
                          expand_array_vars-kept vars name v base arrays imports level c.array_vars
                            arrays out memo strings
                            (expand_string_vars-kept vars name v base arrays imports level
                              c.string_vars base memo others found expanded)
                            (rw (few, done, expand_vars_with_lazy_resolution, expanded) at h)
                    ]
            ]
      ]
