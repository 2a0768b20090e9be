-- ===== src/Config/Imports/Accepted.antt =====
-- Which lists of mappings ProcessEnvImport accepts.
use go_safe_cmd_runner.Base.{
  ◌≡◌, ◌↔◌, refl, subst, inl, inr, Bool, false, List, [], ◌∷◌, none, Text, text_eq, text_eq_iff,
  contains, Distinct, All, arith, ◌||◌, ok, Result-cases,
}
use go_safe_cmd_runner.Base.Dict.{Dict, lookup, insert, lookup-insert}
use go_safe_cmd_runner.Config.Mappings.{for_each}
use go_safe_cmd_runner.Config.Imports.{is_defined, check_import, import_one, process_env_import}
use go_safe_cmd_runner.Config.Imports.Laws.{ImportEntry, import_one_adds}

-- None of the names is in a map.
abbrev Fresh : List Text → Dict Text → Type 0
Fresh names before = All (λ n. lookup n before ≡ none) names

module _ (name v : Text) (before : Dict Text) where
  new_at :
      (n : Text)
      → (lookup n (insert name v before) ≡ none)
        ↔ ((text_eq n name ≡ false) × (lookup n before ≡ none))
  new_at n = (
    λ h. ground (arith, h, lookup-insert n name v before, text_eq_iff name n, text_eq_iff n name),
    λ (differ, absent). ground (
      arith,
      differ,
      absent,
      lookup-insert n name v before,
      text_eq_iff name n,
      text_eq_iff n name,
    ),
  )

  split_or : {b c : Bool} → b || c ≡ false → (b ≡ false) × (c ≡ false)
  split_or h = (ground arith, ground arith)

  Fresh-insert :
      (names : List Text)
      → Fresh names (insert name v before) ↔ ((contains names name ≡ false) × Fresh names before)
  unfolding contains
  Fresh-insert [] = (λ h. (refl, tt), λ h. tt)
  Fresh-insert (n ∷ names) =
      let (to, from) = Fresh-insert names in
      let (split_one, join_one) = new_at n in
      (
        λ (new, h).
            let (differ, absent) = split_one new in
            let (other, old) = to h in ((rw differ other), (absent, old)),
        λ (other, (absent, old)).
            let (differ, others) = split_or other in
            (join_one (differ, absent), from (others, old)),
      )

module _ (env_allowlist : List Text) (system_env : Dict Text) (level : Text) where
  -- The mappings, one by one, import these names.
  abbrev pub Imports : List Text → List Text → Type 0
  Imports [] [] = Unit
  Imports [] (n ∷ names) = ⊥
  Imports (m ∷ rest) [] = ⊥
  Imports (m ∷ rest) (n ∷ names) =
      ((v : Text) × ImportEntry env_allowlist system_env level m n v) × Imports rest names

  import_one-ImportEntry :
      (mapping name v : Text) (before : Dict Text)
      → ImportEntry env_allowlist system_env level mapping name v
      → lookup name before ≡ none
      → import_one env_allowlist system_env level mapping before ≡ ok (insert name v before)
  unfolding import_one check_import is_defined
  import_one-ImportEntry mapping name v before
        (variable, parsed, good, valid, harmless, allowed, value) new =
      rw (parsed, import_one, check_import, good, new, valid, harmless, allowed, value) refl

  loop_iff :
      (mappings : List Text) (before : Dict Text)
      → ((result : Dict Text) × (for_each
              (import_one env_allowlist system_env level)
              mappings
              before
            ≡ ok result))
        ↔ ((names : List Text) × Imports mappings names × Distinct names × Fresh names before)
  unfolding for_each
  loop_iff [] before = (λ h. ([], tt, tt, tt), λ h. (before, refl))
  loop_iff (m ∷ rest) before = (
    λ (result, h). elim (Result-cases (import_one env_allowlist system_env level m before)) [
      | inl (e, failed) ↦ absurd (cc (rw failed at h))
      | inr (middle, done) ↦
          let (name, v, entry, new, grown) =
            import_one_adds env_allowlist system_env level m before middle done in
          let (names, imports, distinct, fresh) =
            (loop_iff rest middle).0 (result, (rw done at h)) in
          let (other, old) =
            (Fresh-insert name v before names).0 (subst (Fresh names) grown fresh) in
          (name ∷ names, ((v, entry), imports), (other, distinct), (new, old))
    ],
    λ (names, imports, distinct, fresh).
        runs_on (λ d. (loop_iff rest d).1) names imports distinct fresh,
  )
    where
      runs_on :
          ((d : Dict Text)
            → (names : List Text) × Imports rest names × Distinct names × Fresh names d
            → (result : Dict Text) × (for_each (import_one env_allowlist system_env level) rest d
                ≡ ok result))
          → (names : List Text) → Imports (m ∷ rest) names
          → Distinct names
          → Fresh names before
          → (result : Dict Text) × (for_each
                (import_one env_allowlist system_env level)
                (m ∷ rest)
                before
              ≡ ok result)
      runs_on later [] imports distinct fresh = absurd imports
      runs_on later (name ∷ names) ((v, entry), imports) (other, distinct) (new, old) =
          let one = import_one-ImportEntry m name v before entry new in
          let (result, runs) =
            later (insert name v before)
              (names, imports, distinct, (Fresh-insert name v before names).1 (other, old)) in
          (result, rw one runs)

  -- An import succeeds exactly if every mapping has a checked name and a valid system variable that
  -- is in the allowlist and not on the denylist, and no name is imported twice.
  pub process_env_import_iff :
      (env_import : List Text)
      → ((result : Dict Text) × (process_env_import env_allowlist system_env level env_import
            ≡ ok result))
        ↔ ((names : List Text) × Imports env_import names × Distinct names)
  unfolding process_env_import lookup
  process_env_import_iff env_import =
      let (to, from) = loop_iff env_import [] in
      (
        λ h. let (names, imports, distinct, _) = to h in (names, imports, distinct),
        λ (names, imports, distinct). from (names, imports, distinct, none_there names),
      )
    where
      none_there : (names : List Text) → Fresh names []
      none_there [] = tt
      none_there (n ∷ names) = (refl, none_there names)
