-- ===== src/Config/Vars/Values.antt =====
-- What ProcessVars computes where no string variable overrides an inherited one: the values of the
-- variables, each of them.
use go_safe_cmd_runner.Base.{
  ℕ, ◌+◌, ◌≡◌, ◌∙◌, ap, subst, inl, inr, List, [], ◌∷◌, ◌++◌, none, some, arith, Text, codes,
  text_eq_refl, All, decimal, Result, ok, err, Result-cases, Option-cases, ok_pair,
}
use go_safe_cmd_runner.Base.Dict.{Dict, lookup, insert, lookup-insert}
use go_safe_cmd_runner.Expand.Lazy
use go_safe_cmd_runner.Expand.Lazy.{
  RawValue, string, array, other, Element, text_element, other_element,
}
use go_safe_cmd_runner.Expand.Pieces.{ExpandError}
use go_safe_cmd_runner.Expand.Lazy.Values.{Stands, value_of_defined, lazy_meaning}
use go_safe_cmd_runner.Expand.Lazy.Sound.{Within, IsMemo, insert-IsMemo, expand_string_sound}
use go_safe_cmd_runner.Config.Errors.{lift_expansion}
use go_safe_cmd_runner.Config.Vars.{expand_string_vars, expand_elements, expand_array_vars}

module _ (base : Dict Text) (vars : Dict RawValue) where
  -- An entry of `stringVars` is a definition of the table.
  abbrev pub Defines : Text × Text → Type 0
  Defines entry = lookup entry.0 vars ≡ some (string entry.1)

  -- No string variable of the table is inherited.
  abbrev pub NoOverride : Type 0
  NoOverride = (name rv : Text) → lookup name vars ≡ some (string rv) → lookup name base ≡ none

lift_expansion_ok :
    {A : Type 0} (r : Result ExpandError A) (a : A) → lift_expansion r ≡ ok a → r ≡ ok a
lift_expansion_ok (ok b) a h = ap ok (cc)
lift_expansion_ok (err e) a h = absurd (cc)

module _ (base : Dict Text) (vars : Dict RawValue) where
  abbrev pub Holds : Dict Text → Type 0
  Holds memo = IsMemo base vars base memo

  pub defined_later :
      (name v : Text) (before after : Dict Text)
      → Within before after
      → lookup name before ≡ some v
      → (w : Text) × (lookup name after ≡ some w)
  defined_later name v before after grows found = elim (Option-cases (lookup name after)) [
    | inl missing ↦ absurd (cc (grows name missing))
    | inr defined ↦ defined
  ]

  Within-insert :
      (name v : Text) (before after : Dict Text)
      → Within before after
      → Within before (insert name v after)
  Within-insert name v before after grows x h =
      grows x (ground (arith, lookup-insert x name v after))

  -- One expansion from a memo that holds: the value, and a memo that holds and has grown.
  pub expand_string-Holds :
      (arrays : Dict (List Text)) (level field rv v : Text) (memo memo' : Dict Text)
      → Holds memo
      → Lazy.expand_string arrays vars level field rv memo ≡ ok (v, memo')
      → ((h : ℕ) × (lazy_meaning base vars h rv ≡ some v)) × Holds memo' × Within memo memo'
  expand_string-Holds arrays level field rv v memo memo' m h =
      let from : IsMemo base vars memo memo = record { correct = m.correct; covers = λ x e. e } in
      let (means, m') =
        expand_string_sound base vars memo m.covers arrays level field rv v memo memo' from h in
      (
        means,
        record { correct = m'.correct; covers = λ x e. m.covers x (m'.covers x e) },
        m'.covers,
      )

  module _ (arrays : Dict (List Text)) (imports : Dict Text) (level : Text)
      (free : NoOverride base vars) where
    unfoldable pub Loop : Dict Text → Dict Text → Dict Text → Type 0
    Loop entries memo memo' =
        Holds memo'
        × Within memo memo'
        × All (λ (e : Text × Text). (v : Text) × (lookup e.0 memo' ≡ some v)) entries

    pub expand_string_vars-Holds :
        (entries memo memo' : Dict Text)
        → All (Defines base vars) entries
        → Holds memo
        → expand_string_vars base arrays imports level vars entries memo ≡ ok memo'
        → Loop entries memo memo'
    unfolding expand_string_vars Loop
    expand_string_vars-Holds [] memo memo' good m h =
        (subst Holds (cc) m, subst (Within memo) (cc) (λ x e. e), tt)
    expand_string_vars-Holds ((name, rv) ∷ rest) memo memo' (d, good) m h =
        elim (Result-cases (Lazy.expand_string arrays vars level (codes "vars." ++ name) rv memo)) [
          | inl (e, failed) ↦ absurd (cc (rw failed at h))
          | inr ((v, m1), done) ↦
              let ((height, means), held, grown) =
                expand_string-Holds arrays level (codes "vars." ++ name) rv v memo m1 m done in
              let stands : Stands base vars name v =
                (height, value_of_defined base vars height name rv v (free name rv d) d means) in
              let (held', grown', all) =
                expand_string_vars-Holds rest (insert name v m1) memo' good
                  (insert-IsMemo base vars base name v m1 held stands) (rw done at h) in
              (
                held',
                (λ x e. Within-insert name v memo m1 grown x (grown' x e)),
                (
                  defined_later name v (insert name v m1) memo' grown'
                      (lookup-insert name name v m1 ∙ rw text_eq_refl),
                  all,
                ),
              )
        ]

    pub expand_elements-Holds :
        (arrays' : Dict (List Text)) (name : Text) (i : ℕ) (elements : List Element)
        (memo memo' : Dict Text) (out : List Text)
        → Holds memo
        → expand_elements base arrays imports level vars arrays' name i elements memo
          ≡ ok (out, memo')
        → Holds memo' × Within memo memo'
    unfolding expand_elements
    expand_elements-Holds arrays' name i [] memo memo' out m h =
        let (_, same) = ok_pair [] out memo memo' h in
        (subst Holds same m, subst (Within memo) same (λ x e. e))
    expand_elements-Holds arrays' name i (other_element ∷ rest) memo memo' out m h = absurd (cc)
    expand_elements-Holds arrays' name i (text_element str ∷ rest) memo memo' out m h =
        let field = codes "vars." ++ (name ++ (codes "[" ++ (decimal i ++ codes "]"))) in
        elim (Result-cases (Lazy.expand_string arrays' vars level field str memo)) [
          | inl (e, failed) ↦ absurd (cc (rw failed at h))
          | inr ((v, m1), done) ↦
              let (_, held, grown) = expand_string-Holds arrays' level field str v memo m1 m done in
              elim (Result-cases
                (expand_elements base arrays imports level vars arrays' name (i + 1) rest m1)) [
                  | inl (e, failed) ↦ absurd (cc (rw (done, failed) at h))
                  | inr ((later, m2), done') ↦
                      let (held', grown') =
                        expand_elements-Holds arrays' name (i + 1) rest m1 m2 later held done' in
                      let (_, same) = ok_pair (v ∷ later) out m2 memo' (rw (done, done') at h) in
                      (
                        subst Holds same held',
                        subst (Within memo) same (λ x e. grown x (grown' x e)),
                      )
                ]
        ]

    pub expand_array_vars-Holds :
        (entries : Dict (List Element)) (arrays' out : Dict (List Text)) (memo memo' : Dict Text)
        → Holds memo
        → expand_array_vars base arrays imports level vars entries arrays' memo ≡ ok (memo', out)
        → Holds memo' × Within memo memo'
    unfolding expand_array_vars
    expand_array_vars-Holds [] arrays' out memo memo' m h =
        let (same, _) = ok_pair memo memo' arrays' out h in
        (subst Holds same m, subst (Within memo) same (λ x e. e))
    expand_array_vars-Holds ((name, elements) ∷ rest) arrays' out memo memo' m h =
        elim (Result-cases
          (expand_elements base arrays imports level vars arrays' name 0 elements memo)) [
            | inl (e, failed) ↦ absurd (cc (rw failed at h))
            | inr ((expanded, m1), done) ↦
                let (held, grown) =
                  expand_elements-Holds arrays' name 0 elements memo m1 expanded m done in
                let (held', grown') =
                  expand_array_vars-Holds rest (insert name expanded arrays') out m1 memo' held
                    (rw done at h) in
                (held', λ x e. grown x (grown' x e))
          ]
