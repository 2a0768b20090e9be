-- ===== src/Expand/Lazy/Sound.antt =====
-- The memo of `varExpander` holds nothing but the values of the variables.
use go_safe_cmd_runner.Base.{
  ℕ, zero, suc, ◌≡◌, sym, ◌∙◌, ap, subst, inl, inr, false, List, [], ◌∷◌, ◌++◌, none, some, Text,
  arith, text_eq, text_eq_iff, contains, ok, Result-cases, ok_pair, Option-cases, Bool-cases,
}
use go_safe_cmd_runner.Base.Dict.{Dict, lookup, insert, lookup-insert}
use go_safe_cmd_runner.Expand.Pieces.{max_recursion_depth}
use go_safe_cmd_runner.Expand.Refs.{State, process_var_refs}
use go_safe_cmd_runner.Expand.Refs.Sound.{IsSound, walk_sound}
use go_safe_cmd_runner.Expand.Strings.{unmark}
use go_safe_cmd_runner.Expand.Strings.Refinement.{unmark-cons}
use go_safe_cmd_runner.Expand.Lazy.{
  RawValue, string, array, other, expand_raw, resolve_raw, resolve_variable, expand_at,
  expand_string,
}
use go_safe_cmd_runner.Expand.Lazy.Values.{
  value_of_defined, Stands, Reads-lazy_meaning, lazy_meaning,
}

-- Every name that the first map defines is defined in the second.
abbrev pub Within : Dict Text → Dict Text → Type 0
Within floor memo = (name : Text) → lookup name memo ≡ none → lookup name floor ≡ none

module _ (base : Dict Text) (raw_vars : Dict RawValue) (floor : Dict Text) where
  -- A memo holds every name of the floor, and only values of variables.
  pub record IsMemo (memo : Dict Text) : Type 0 where
    pub correct : (name v : Text) → lookup name memo ≡ some v → Stands base raw_vars name v
    pub covers : Within floor memo

  pub insert-IsMemo :
      (name v : Text) (memo : Dict Text)
      → IsMemo memo
      → Stands base raw_vars name v
      → IsMemo (insert name v memo)
  insert-IsMemo name v memo m stands = record {
    correct = λ x w h. elim (Bool-cases (text_eq name x)) [
      | inl same ↦
          subst (λ y. Stands base raw_vars x y) (ground (arith, lookup-insert x name v memo))
            (subst (λ y. Stands base raw_vars y v) ((text_eq_iff name x).0 same) stands)
      | inr differ ↦ m.correct x w (ground (arith, lookup-insert x name v memo))
    ];
    covers = λ x h. m.covers x (ground (arith, lookup-insert x name v memo));
  }

  module _ (above : Within base floor) (arrays : Dict (List Text)) (level field : Text) where
    abbrev Keeps : State (Dict Text) → Type 0
    Keeps s = IsMemo s.memo

    resolve_raw_sound :
        (left : ℕ) (rv name v : Text) (chain : List Text) (s s' : State (Dict Text))
        → ((chain' : List Text) (value w : Text) (t t' : State (Dict Text))
            → Keeps t
            → expand_at arrays raw_vars level field left chain' value t ≡ ok (w, t')
            → ((h : ℕ) × (lazy_meaning base raw_vars h value ≡ some w))
              × (t'.visited ≡ t.visited)
              × Keeps t')
        → contains s.visited name ≡ false
        → Keeps s
        → lookup name base ≡ none
        → lookup name raw_vars ≡ some (string rv)
        → expand_raw arrays raw_vars level field
            (expand_at arrays raw_vars level field left)
            rv
            name
            chain
            s
          ≡ ok (v, s')
        → Stands base raw_vars name v × (s'.visited ≡ s.visited) × Keeps s'
    unfolding expand_raw
    resolve_raw_sound left rv name v chain s s' below fresh kept absent found h =
        elim (Result-cases (
          expand_at arrays raw_vars level field left (chain ++ name ∷ []) rv
            (record s { visited = name ∷ s.visited }))) [
              | inl (e, failed) ↦ absurd (cc (rw (failed, expand_raw) at h))
              | inr ((w, t), done) ↦
                  let ((height, means), same, kept') =
                    below (chain ++ name ∷ []) rv w (record s { visited = name ∷ s.visited }) t kept
                      done in
                  let (value_eq, state_eq) =
                    ok_pair w v
                      (record t { visited = unmark name t.visited; memo = insert name w t.memo }) s'
                      (rw (done, expand_raw) at h) in
                  let stands : Stands base raw_vars name w =
                    (height, value_of_defined base raw_vars height name rv w absent found means) in
                  (
                    subst (λ y. Stands base raw_vars name y) value_eq stands,
                    sym (ap (λ (x : State (Dict Text)). x.visited) state_eq)
                        ∙ ap (unmark name) same
                        ∙ unmark-cons name s.visited fresh,
                    subst Keeps state_eq (insert-IsMemo name w t.memo kept' stands),
                  )
            ]

    -- What a level of the expansion promises.
    abbrev ExpandsWell : ℕ → Type 0
    ExpandsWell left =
        (chain : List Text) (input v : Text) (s s' : State (Dict Text))
        → Keeps s
        → expand_at arrays raw_vars level field left chain input s ≡ ok (v, s')
        → ((h : ℕ) × (lazy_meaning base raw_vars h input ≡ some v))
          × (s'.visited ≡ s.visited)
          × Keeps s'

    resolve_variable_sound :
        (left : ℕ) (chain : List Text)
        → ExpandsWell left
        → IsSound
            (resolve_variable arrays raw_vars level field
              (expand_at arrays raw_vars level field left))
            level
            field
            chain
            (Stands base raw_vars)
            Keeps
    unfolding resolve_variable resolve_raw
    resolve_variable_sound left chain below name v s s' fresh kept h =
        elim (Option-cases (lookup name s.memo)) [
          | inr (w, hit) ↦
              let (value_eq, state_eq) = ok_pair w v s s' (rw (hit, resolve_variable) at h) in
              (
                subst (λ y. Stands base raw_vars name y) value_eq (kept.correct name w hit),
                sym (ap (λ (x : State (Dict Text)). x.visited) state_eq),
                subst Keeps state_eq kept,
              )
          | inl miss ↦ elim (Option-cases (lookup name arrays)) [
            | inr (elements, e) ↦ absurd (ground arith)
            | inl scalar ↦ elim (Option-cases (lookup name raw_vars)) [
              | inl undefined ↦ absurd (ground arith)
              | inr (value, e) ↦ by_kind value e miss scalar
            ]
          ]
        ]
      where
        by_kind :
            (value : RawValue)
            → lookup name raw_vars ≡ some value
            → lookup name s.memo ≡ none
            → lookup name arrays ≡ none
            → Stands base raw_vars name v × (s'.visited ≡ s.visited) × Keeps s'
        by_kind (string rv) e miss scalar =
            resolve_raw_sound left rv name v chain s s' below fresh kept
              (above name (kept.covers name miss)) e (rw (miss, scalar, e, resolve_variable) at h)
        by_kind (array elements) e miss scalar = absurd (ground arith)
        by_kind other e miss scalar = absurd (ground arith)

    expand_at_sound : (left : ℕ) → ExpandsWell left
    unfolding expand_at process_var_refs
    expand_at_sound zero chain input v s s' kept h = absurd (ground arith)
    expand_at_sound (suc left) chain input v s s' kept h =
        let (w, reads, q, same, kept') =
          walk_sound
            (resolve_variable arrays raw_vars level field
              (expand_at arrays raw_vars level field left))
            level field chain (Stands base raw_vars) Keeps
            (resolve_variable_sound left chain (expand_at_sound left)) input 0 input [] v s s' kept
            h in
        let (height, means) = Reads-lazy_meaning base raw_vars input w reads in
        ((height, means ∙ ap some (sym q)), same, kept')

    -- Where the memo holds the values of variables only, and every name of a floor that has the
    -- inherited variables, a successful expansion is the meaning of its input and leaves such a memo.
    pub expand_string_sound :
        (input out : Text) (memo memo' : Dict Text)
        → IsMemo memo
        → expand_string arrays raw_vars level field input memo ≡ ok (out, memo')
        → ((h : ℕ) × (lazy_meaning base raw_vars h input ≡ some out)) × IsMemo memo'
    unfolding expand_string
    expand_string_sound input out memo memo' kept h =
        let start : State (Dict Text) = record { visited = []; memo = memo } in
        elim (Result-cases
          (expand_at arrays raw_vars level field max_recursion_depth [] input start)) [
            | inl (e, failed) ↦ absurd (cc (rw failed at h))
            | inr ((v, t), done) ↦
                let (means, same, kept') =
                  expand_at_sound max_recursion_depth [] input v start t kept done in
                let (value_eq, memo_eq) = ok_pair v out t.memo memo' (rw done at h) in
                ((means.0, means.1 ∙ ap some value_eq), subst IsMemo memo_eq kept')
          ]
