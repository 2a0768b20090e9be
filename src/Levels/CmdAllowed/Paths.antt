-- ===== src/Levels/CmdAllowed/Paths.antt =====
-- What the allowed command paths of a group are.
use go_safe_cmd_runner.Base.{
  ℕ, ◌+◌, ◌≤◌, ◌≡◌, refl, sym, subst, ◌⊎◌, inl, inr, true, false, List, [], ◌∷◌, ◌++◌, Option, some,
  Text, codes, text_eq, text_eq_refl, text_eq_iff, contains, Distinct, length, decimal, All, arith,
  ok, Result-cases, Option-cases, Bool-cases, ok_injective,
}
use go_safe_cmd_runner.Base.Dict.{Dict, lookup}
use go_safe_cmd_runner.Expand.Pieces.{max_recursion_depth}
use go_safe_cmd_runner.Expand.Meaning.{meaning}
use go_safe_cmd_runner.Expand.Strings.{expand_string, is_abs}
use go_safe_cmd_runner.Expand.Strings.Refinement.{expand_string-meaning}
use go_safe_cmd_runner.Config.Mappings.{Some}
use go_safe_cmd_runner.Levels.CmdAllowed.{
  max_path_length, group_level, check_raw_paths, check_expanded, resolved_path, allow_path,
  allow_paths, expand_cmd_allowed,
}

module _ (eval_symlinks : Text → Option Text) (vars : Dict Text) (group_name : Text) where
  -- The raw path is not empty, its meaning is absolute and of a bounded length, and resolves to the path.
  abbrev pub IsResolved : Text → Text → Type 0
  IsResolved raw_path resolved =
      (expanded : Text) × (text_eq raw_path [] ≡ false)
      × (meaning (λ x. lookup x vars) max_recursion_depth raw_path ≡ some expanded)
      × (is_abs expanded ≡ true)
      × (length expanded ≤ max_path_length)
      × (eval_symlinks expanded ≡ some resolved)

  check_expanded_ok :
      (expanded : Text)
      → check_expanded eval_symlinks vars group_name expanded ≡ ok tt
      → (is_abs expanded ≡ true) × (length expanded ≤ max_path_length)
  unfolding check_expanded
  check_expanded_ok expanded h = ground arith

  allow_path_ok :
      (i : ℕ) (raw_path : Text) (before after : List Text)
      → allow_path eval_symlinks vars group_name i raw_path before ≡ ok after
      → (resolved : Text) × IsResolved raw_path resolved
        × (contains before resolved ≡ false)
        × (after ≡ resolved ∷ before)
  unfolding allow_path resolved_path
  allow_path_ok i raw_path before after h =
      let field = codes "cmd_allowed[" ++ (decimal i ++ codes "]") in
      elim (Bool-cases (text_eq raw_path [])) [
        | inl empty ↦ absurd (cc (rw (empty) at h))
        | inr full ↦
            elim (Result-cases (expand_string raw_path vars (group_level group_name) field)) [
              | inl (e, failed) ↦ absurd (cc (rw (full, failed) at h))
              | inr (expanded, h1) ↦
                  elim (Result-cases (check_expanded eval_symlinks vars group_name expanded)) [
                    | inl (e, failed) ↦ absurd (cc (rw (full, h1, failed) at h))
                    | inr (_, h2) ↦ elim (Option-cases (eval_symlinks expanded)) [
                      | inl failed ↦ absurd (cc (rw (full, h1, h2, resolved_path, failed) at h))
                      | inr (resolved, h3) ↦ elim (Bool-cases (contains before resolved)) [
                        | inl old ↦ absurd (cc (rw (full, h1, h2, resolved_path, h3, old) at h))
                        | inr new ↦
                            let (absolute, short) = check_expanded_ok expanded h2 in
                            let means =
                              (expand_string-meaning vars (group_level group_name) field raw_path
                                  expanded).0
                                h1 in
                            (
                              resolved,
                              (expanded, full, means, absolute, short, h3),
                              new,
                              sym (ok_injective (rw (full, h1, h2, resolved_path, h3, new) at h)),
                            )
                      ]
                    ]
                  ]
            ]
      ]

  abbrev Outcome : List Text → List Text → List Text → Type 0
  Outcome raw_paths before after =
      All
        (λ raw_path.
          (resolved : Text) × IsResolved raw_path resolved × (contains after resolved ≡ true))
        raw_paths
      × ((path : Text)
          → contains after path ≡ true
          → (contains before path ≡ true) ⊎ Some (λ raw_path. IsResolved raw_path path) raw_paths)
      × Distinct after
      × ((path : Text) → contains before path ≡ true → contains after path ≡ true)

  allow_paths_outcome :
      (i : ℕ) (raw_paths before after : List Text)
      → Distinct before
      → allow_paths eval_symlinks vars group_name i raw_paths before ≡ ok after
      → Outcome raw_paths before after
  unfolding allow_paths contains
  allow_paths_outcome i [] before after distinct h =
      subst (λ (a : List Text). Outcome [] before a) (ok_injective h)
        (tt, (λ path held. inl held), distinct, (λ path held. held))
  allow_paths_outcome i (raw_path ∷ rest) before after distinct h =
      elim (Result-cases (allow_path eval_symlinks vars group_name i raw_path before)) [
        | inl (e, failed) ↦ absurd (cc (rw failed at h))
        | inr (middle, done) ↦
            let (resolved, good, new, grown) = allow_path_ok i raw_path before middle done in
            let (all, from, distinct', kept) =
              allow_paths_outcome (i + 1) rest middle after (rw grown (new, distinct))
                (rw done at h) in
            (
              ((resolved, good, kept resolved (rw (grown, contains, text_eq_refl) refl)), all),
              (λ path held. elim (from path held) [
                | inr later ↦ inr (inr later)
                | inl now ↦ elim (Bool-cases (text_eq resolved path)) [
                  | inl same ↦ inr (
                      inl (
                        subst (λ (p : Text). IsResolved raw_path p)
                          ((text_eq_iff resolved path).0 same) good))
                  | inr differ ↦ inl (rw (grown, contains, differ) at now)
                ]
              ]),
              distinct',
              (λ path held. kept path (rw (grown) (ground arith))),
            )
      ]

  -- After a successful expansion every raw path is not empty, has a meaning that is absolute, of at
  -- most 4096 bytes and resolved, and the resolved paths are the result, which has no other path and
  -- none of them twice.
  pub expand_cmd_allowed_paths :
      (raw_paths result : List Text)
      → expand_cmd_allowed eval_symlinks vars group_name raw_paths ≡ ok result
      → All
          (λ raw_path.
            (resolved : Text) × IsResolved raw_path resolved × (contains result resolved ≡ true))
          raw_paths
        × ((path : Text)
            → contains result path ≡ true
            → Some (λ raw_path. IsResolved raw_path path) raw_paths)
        × Distinct result
  unfolding expand_cmd_allowed contains
  expand_cmd_allowed_paths raw_paths result h =
      elim (Result-cases (check_raw_paths eval_symlinks vars group_name 0 [] raw_paths)) [
        | inl (e, failed) ↦ absurd (cc (rw failed at h))
        | inr (_, passed) ↦
            let (all, from, distinct, kept) =
              allow_paths_outcome 0 raw_paths [] result tt (rw passed at h) in
            (
              all,
              (λ path held. elim (from path held) [ inl old ↦ absurd (cc) | inr found ↦ found ]),
              distinct,
            )
      ]
