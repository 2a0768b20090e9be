-- ===== src/Templates/Validation/References.antt =====
-- What a template that passes the checks refers to.
use go_safe_cmd_runner.Base.{
  ℕ, zero, suc, ◌+◌, ◌-◌, ◌≡◌, ◌⊎◌, refl, sym, ◌∙◌, ap, subst, inl, inr, List, [], ◌∷◌, ◌++◌,
  append_assoc, append-nil, Option, none, some, Text, codes, cut, decimal, contains, All, arith,
  Result, ok, err, Result-cases, Option-cases, Bool-cases, ok_injective, ok_pair,
}
use go_safe_cmd_runner.Base.Dict.{Dict, lookup}
use go_safe_cmd_runner.Names.{validate_variable_name}
use go_safe_cmd_runner.Names.Scopes.{
  Scope, global, local, error, DetermineError, determine_scope, scope_eq,
}
use go_safe_cmd_runner.Expand.Pieces.{
  ExpandError, Piece, emit, reference, bad_escape, unclosed, next_piece,
}
use go_safe_cmd_runner.Expand.Refs.{State, resolve_reference, round, walk, process_var_refs}
use go_safe_cmd_runner.Config.Imports.{is_defined}
use go_safe_cmd_runner.Templates.Spec.{CommandTemplate}
use go_safe_cmd_runner.Templates.Validation.{
  ValidationError, ref_collector, collect_refs, check_global_scope, check_defined_refs,
  validate_field_vars, check_each, check_pointer, check_env_value, validate_template_vars,
}

abbrev piece_refs : Piece → (ℕ → List Text) → List Text
piece_refs (emit byte n) later = later (n - 1)
piece_refs (reference name n) later = name ∷ later (n - 1)
piece_refs (bad_escape sequence) later = []
piece_refs unclosed later = []

-- The names of the references in a text, from the end of a piece on.
unfoldable pub refs_in : ℕ → Text → List Text
refs_in skip [] = []
refs_in (suc skip) (c ∷ rest) = refs_in skip rest
refs_in zero (c ∷ rest) = piece_refs (next_piece c rest) (λ k. refs_in k rest)

module _ (level field context : Text) where
  resolve_collected :
      (name out : Text) (s t : State (List Text))
      → resolve_reference ref_collector level field [] name s ≡ ok (out, t)
      → t.memo ≡ s.memo ++ name ∷ []
  unfolding resolve_reference ref_collector
  resolve_collected name out s t h = elim (Result-cases (validate_variable_name name)) [
    | inl (e, failed) ↦ absurd (cc (rw (failed, resolve_reference) at h))
    | inr (done, valid) ↦ elim (Bool-cases (contains s.visited name)) [
      | inl seen ↦ absurd (cc (rw (valid, seen, resolve_reference) at h))
      | inr fresh ↦
          ap (λ (x : State (List Text)). x.memo)
            (sym (ok_pair _ _ _ _ (rw (valid, fresh, resolve_reference) at h)).1)
    ]
  ]

  round_collected :
      (p : Piece) (out res : Text) (s s' : State (List Text))
      (continue : ℕ → Text → State (List Text) → Result ExpandError (Text × State (List Text)))
      (behind : ℕ → List Text)
      → ((k : ℕ) (o : Text) (t : State (List Text))
          → continue k o t ≡ ok (res, s')
          → s'.memo ≡ t.memo ++ behind k)
      → round ref_collector level field [] context p out s continue ≡ ok (res, s')
      → s'.memo ≡ s.memo ++ piece_refs p behind
  unfolding round
  round_collected (emit byte n) out res s s' continue behind later h =
      later (n - 1) (out ++ byte ∷ []) s h
  round_collected (bad_escape sequence) out res s s' continue behind later h = absurd (ground arith)
  round_collected unclosed out res s s' continue behind later h = absurd (ground arith)
  round_collected (reference name n) out res s s' continue behind later h =
      elim (Result-cases (resolve_reference ref_collector level field [] name s)) [
        | inl (e, failed) ↦ absurd (cc (rw (failed, round) at h))
        | inr ((v, t), found) ↦
            later (n - 1) (out ++ v) t (rw (found, round) at h)
            ∙ ap (λ (xs : List Text). xs ++ behind (n - 1)) (resolve_collected name v s t found)
            ∙ append_assoc s.memo (name ∷ []) (behind (n - 1))
      ]

  walk_collected :
      (k : ℕ) (t out res : Text) (s s' : State (List Text))
      → walk ref_collector level field [] context k t out s ≡ ok (res, s')
      → s'.memo ≡ s.memo ++ refs_in k t
  unfolding walk refs_in
  walk_collected k [] out res s s' h =
      ap (λ (x : State (List Text)). x.memo) (sym (ok_pair out res s s' h).1)
      ∙ sym (append-nil s.memo)
  walk_collected (suc k) (c ∷ t) out res s s' h = walk_collected k t out res s s' h
  walk_collected zero (c ∷ t) out res s s' h =
      round_collected (next_piece c t) out res s s' _ (λ k. refs_in k t)
        (λ k o t' e. walk_collected k t o res t' s' e) h

-- The references that are collected are those in the text.
collect_refs_lem :
    (input template_name field : Text) (refs : List Text)
    → collect_refs input template_name field ≡ ok refs
    → refs ≡ refs_in 0 input
unfolding collect_refs process_var_refs
collect_refs_lem input template_name field refs h =
    let level = codes "template[" ++ (template_name ++ codes "]") in
    let start : State (List Text) = record { visited = []; memo = [] } in
    elim (Result-cases (walk ref_collector level field [] input 0 input [] start)) [
      | inl (e, failed) ↦ absurd (cc (rw failed at h))
      | inr ((out, s), done) ↦
          sym (ok_injective (rw done at h))
          ∙ walk_collected level field input 0 input [] out start s done
    ]

module _ (global_vars : Dict Text) where
  -- A name of global scope that has a value, or no name.
  abbrev pub IsDefinedGlobal : Text → Type 0
  IsDefinedGlobal name =
      (name ≡ [])
      ⊎ ((determine_scope name ≡ (global, ok tt))
          × ((v : Text) × (lookup name global_vars ≡ some v)))

  -- All references in a text are to such names.
  abbrev pub RefersToGlobals : Text → Type 0
  RefersToGlobals text = All IsDefinedGlobal (refs_in 0 text)

  check_global_scope_ok :
      (template_name field name : Text) (s : Scope × Result DetermineError (Unit {0}))
      → check_global_scope template_name field name s ≡ ok tt
      → s ≡ (global, ok tt)
  unfolding check_global_scope scope_eq
  check_global_scope_ok template_name field name (scope, err e) h = absurd (cc)
  check_global_scope_ok template_name field name (global, ok done) h = refl
  check_global_scope_ok template_name field name (local, ok done) h = absurd (cc)
  check_global_scope_ok template_name field name (error, ok done) h = absurd (cc)

  check_defined_refs-All :
      (template_name field : Text) (refs : List Text)
      → check_defined_refs template_name field global_vars refs ≡ ok tt
      → All IsDefinedGlobal refs
  unfolding check_defined_refs is_defined
  check_defined_refs-All template_name field [] h = tt
  check_defined_refs-All template_name field ([] ∷ rest) h =
      (inl refl, check_defined_refs-All template_name field rest h)
  check_defined_refs-All template_name field ((c ∷ name) ∷ rest) h =
      elim (Result-cases
        (check_global_scope template_name field (c ∷ name) (determine_scope (c ∷ name)))) [
          | inl (e, failed) ↦ absurd (cc (rw failed at h))
          | inr (_, passed) ↦ elim (Option-cases (lookup (c ∷ name) global_vars)) [
            | inl missing ↦ absurd (cc (rw (passed, missing) at h))
            | inr found ↦ (
              inr (
                check_global_scope_ok template_name field (c ∷ name) (determine_scope (c ∷ name))
                    passed,
                found,
              ),
              check_defined_refs-All template_name field rest (rw (passed, found.1) at h),
            )
          ]
        ]

  validate_field_vars-RefersToGlobals :
      (template_name input field : Text)
      → validate_field_vars input template_name field global_vars ≡ ok tt
      → RefersToGlobals input
  unfolding validate_field_vars refs_in
  validate_field_vars-RefersToGlobals template_name [] field h = tt
  validate_field_vars-RefersToGlobals template_name (c ∷ input) field h =
      elim (Result-cases (collect_refs (c ∷ input) template_name field)) [
        | inl (e, failed) ↦ absurd (cc (rw failed at h))
        | inr (refs, done) ↦
            subst (All IsDefinedGlobal) (collect_refs_lem (c ∷ input) template_name field refs done)
              (check_defined_refs-All template_name field refs (rw done at h))
      ]

  check_each-All :
      (check : Text → Text → Result ValidationError (Unit {0})) (P : Text → Type 0)
      → ((s field : Text) → check s field ≡ ok tt → P s)
      → (field : Text) (i : ℕ) (texts : List Text) → check_each check field i texts ≡ ok tt
      → All P texts
  unfolding check_each
  check_each-All check P gives field i [] h = tt
  check_each-All check P gives field i (s ∷ rest) h =
      elim (Result-cases (check s (field ++ (codes "[" ++ (decimal i ++ codes "]"))))) [
        | inl (e, failed) ↦ absurd (cc (rw failed at h))
        | inr (_, passed) ↦
            (gives s _ passed, check_each-All check P gives field (i + 1) rest (rw passed at h))
      ]

  abbrev pub InPointer : Option Text → Type 0
  InPointer none = Unit
  InPointer (some s) = RefersToGlobals s

  abbrev pub InEnv : Text → Type 0
  InEnv entry = (key value : Text) → cut b'=' entry ≡ some (key, value) → RefersToGlobals value

  check_pointer-InPointer :
      (template_name field : Text) (p : Option Text)
      → check_pointer (λ input f. validate_field_vars input template_name f global_vars) field p
        ≡ ok tt
      → InPointer p
  unfolding check_pointer
  check_pointer-InPointer template_name field none h = tt
  check_pointer-InPointer template_name field (some s) h =
      validate_field_vars-RefersToGlobals template_name s field h

  check_env_value-InEnv :
      (template_name entry field : Text)
      → check_env_value
          (λ input f. validate_field_vars input template_name f global_vars)
          entry
          field
        ≡ ok tt
      → InEnv entry
  unfolding check_env_value
  check_env_value-InEnv template_name entry field h key value found =
      validate_field_vars-RefersToGlobals template_name value field
        (rw (found, check_env_value) at h)

  -- In a template that ValidateTemplateVars accepts, the cmd, the working directory, the args and the
  -- values of the environment entries refer only to global variables that are defined.
  pub validate_template_vars-RefersToGlobals :
      (template : CommandTemplate) (template_name : Text)
      → validate_template_vars template template_name global_vars ≡ ok tt
      → RefersToGlobals template.cmd
        × InPointer template.work_dir
        × All RefersToGlobals template.args
        × All InEnv template.env_vars
  unfolding validate_template_vars
  validate_template_vars-RefersToGlobals template template_name h =
      let check : Text → Text → Result ValidationError (Unit {0}) =
        λ input f. validate_field_vars input template_name f global_vars in
      elim (Result-cases
        (validate_field_vars template.cmd template_name (codes "cmd") global_vars)) [
          | inl (e, failed) ↦ absurd (cc (rw failed at h))
          | inr (_, h1) ↦
              elim (Result-cases (check_pointer check (codes "workdir") template.work_dir)) [
                | inl (e, failed) ↦ absurd (cc (rw (h1, failed) at h))
                | inr (_, h2) ↦
                    elim (Result-cases (check_each check (codes "args") 0 template.args)) [
                      | inl (e, failed) ↦ absurd (cc (rw (h1, h2, failed) at h))
                      | inr (_, h3) ↦ (
                        validate_field_vars-RefersToGlobals template_name template.cmd (codes "cmd")
                            h1,
                        check_pointer-InPointer template_name (codes "workdir") template.work_dir
                            h2,
                        check_each-All check RefersToGlobals
                            (λ s f e. validate_field_vars-RefersToGlobals template_name s f e)
                            (codes "args") 0 template.args h3,
                        check_each-All (check_env_value check) InEnv
                            (λ s f e. check_env_value-InEnv template_name s f e) (codes "env_vars")
                            0 template.env_vars (rw (h1, h2, h3) at h),
                      )
                    ]
              ]
        ]
