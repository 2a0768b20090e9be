-- ===== src/Risk/Evaluator/Levels.antt =====
-- The level of an assessment against the levels of its dimensions.
use go_safe_cmd_runner.Base.{
  ℕ, ◌≤◌, ◌≡◌, ◌↔◌, refl, sym, ◌∙◌, ap, subst, inl, inr, Bool, true, false, not, ◌&&◌, List, [],
  ◌∷◌, ◌++◌, Option, none, some, All, Text, codes, arith, ltb, if◌then◌else◌, Result, ok, err,
  Result-cases, Option-cases, Bool-cases, ok_injective,
}
use go_safe_cmd_runner.Expand.Strings.{is_abs}
use go_safe_cmd_runner.Risk.Assessment.{
  Assessment, LocationResult, BinaryAnalysisClass, uncertain, clean, network, high_risk,
  unknown_class, low, medium, high, greater, empty_assessment, add_dimension, blocking_assessment,
  blocked_class, fold_zoning, apply_class_result,
}
use go_safe_cmd_runner.Risk.Evaluator.{
  Command, Profile, Security, zone_of, is_set, apply_coreutils_risk, add_codes,
  apply_profile_factors, has_profile, add_if, named_dimensions, after_class, binary_dimension,
  evaluate_dimensions,
}

abbrev pub when : Bool → ℕ → ℕ
when true n = n
when false n = 0

abbrev raised : ℕ → List ℕ → ℕ
raised m [] = m
raised m (n ∷ ns) = raised (greater m n) ns

greater_le : (m n x : ℕ) → (greater m n ≤ x) ↔ ((m ≤ x) × (n ≤ x))
unfolding greater
greater_le m n x = ground arith

raised_le : (m : ℕ) (ns : List ℕ) (x : ℕ) → (raised m ns ≤ x) ↔ All (λ n. n ≤ x) (m ∷ ns)
raised_le m [] x = (λ h. (h, tt), λ (h, _). h)
raised_le m (n ∷ ns) x =
    let (to, from) = raised_le (greater m n) ns x in
    let (split, join) = greater_le m n x in
    (
      λ h. let (first, rest) = to h in let (a, b) = split first in (a, (b, rest)),
      λ (a, (b, rest)). from (join (a, b), rest),
    )

greater_zero : (m : ℕ) → m ≡ greater m 0
unfolding greater
greater_zero m = ground arith

greater_twice : (m n : ℕ) → greater (greater m n) n ≡ greater m n
unfolding greater
greater_twice m n = ground arith

module _ {Z : Type 0} where
  add_if_level :
      (N F D E : Type 0) (security : Security N Z F D E) (test : Bool) (level : ℕ) (code : Text)
      (a : Assessment Z)
      → (add_if N Z F D E security test level code a).level ≡ greater a.level (when test level)
  unfolding add_if add_dimension
  add_if_level N F D E security true level code a = refl
  add_if_level N F D E security false level code a = unfold greater in ground arith

module _ (N Z F D E : Type 0) (security : Security N Z F D E) where
  -- The level of codes: none contribute nothing.
  abbrev pub level_of_codes : ℕ × List Text → ℕ
  level_of_codes (level, []) = 0
  level_of_codes (level, code ∷ rest) = level

  abbrev pub factor_level : Option Profile → List Text → Bool → ℕ
  factor_level none args suppress = 0
  factor_level (some profile) args suppress =
      level_of_codes (security.profile_factor_risk profile args suppress)

  abbrev pub coreutils_level : Text → Bool → ℕ × Bool → ℕ
  coreutils_level path suppress (risk, handled) = when handled (
      if suppress
      then when (is_set N Z F D E security (security.has_setuid_or_setgid_bit path)) high
      else risk)

  abbrev pub class_level : BinaryAnalysisClass → ℕ
  class_level high_risk = high
  class_level network = medium
  class_level _ = 0

  abbrev pub analysis_level : Result E (BinaryAnalysisClass × List Text) → ℕ
  analysis_level (ok (class, reason_codes)) = class_level class
  analysis_level (err e) = 0

  coreutils_lem :
      (path : Text) (risk : ℕ) (handled suppress : Bool) (a : Assessment Z)
      → (apply_coreutils_risk N Z F D E security path risk handled suppress a).level
        ≡ greater a.level (coreutils_level path suppress (risk, handled))
  unfolding apply_coreutils_risk add_dimension
  coreutils_lem path risk false suppress a = greater_zero a.level
  coreutils_lem path risk true false a = refl
  coreutils_lem path risk true true a =
      elim (Bool-cases (is_set N Z F D E security (security.has_setuid_or_setgid_bit path))) [
        | inl set ↦ rw (set, apply_coreutils_risk, add_dimension) refl
        | inr clear ↦ rw (clear, apply_coreutils_risk) (greater_zero a.level)
      ]

  add_codes_lem :
      (level : ℕ) (reason_codes : List Text) (a : Assessment Z)
      → (add_codes N Z F D E security level reason_codes a).level
        ≡ greater a.level (level_of_codes (level, reason_codes))
  unfolding add_codes add_dimension
  add_codes_lem level [] a = greater_zero a.level
  add_codes_lem level (code ∷ []) a = refl
  add_codes_lem level (code ∷ code' ∷ rest) a =
      add_codes_lem level (code' ∷ rest) (add_dimension level code a) ∙ greater_twice a.level level

  level_of_codes_zero :
      (level : ℕ) (reason_codes : List Text)
      → ltb 0 level ≡ false
      → level_of_codes (level, reason_codes) ≡ 0
  level_of_codes_zero level [] h = refl
  level_of_codes_zero level (code ∷ rest) h = ground arith

  factor_step :
      (level : ℕ) (reason_codes : List Text) (a : Assessment Z)
      → (if ltb 0 level then add_codes N Z F D E security level reason_codes a else a).level
        ≡ greater a.level (level_of_codes (level, reason_codes))
  factor_step level reason_codes a = elim (Bool-cases (ltb 0 level)) [
    | inl some_level ↦ rw some_level (add_codes_lem level reason_codes a)
    | inr no_level ↦
        rw (no_level, level_of_codes_zero level reason_codes no_level) (greater_zero a.level)
  ]

  factors_lem :
      (profile : Option Profile) (args : List Text) (suppress : Bool) (a : Assessment Z)
      → (apply_profile_factors N Z F D E security profile args suppress a).level
        ≡ greater a.level (factor_level profile args suppress)
  unfolding apply_profile_factors
  factors_lem none args suppress a = greater_zero a.level
  factors_lem (some profile) args suppress a =
      let (level, reason_codes) = security.profile_factor_risk profile args suppress in
      factor_step level reason_codes a

  -- What the dimensions contribute, but for the binary's analysis and the zones.
  abbrev pub named_levels : Command → N → Option Profile → Bool → ℕ × Bool → List ℕ
  named_levels cmd names profile suppress coreutils =
      coreutils_level cmd.expanded_cmd suppress coreutils
      ∷ when (not suppress && security.is_destructive_file_operation names cmd.expanded_args) high
      ∷ security.system_modification_risk names
      ∷ factor_level profile cmd.expanded_args suppress
      ∷ when (not suppress) (security.check_dangerous_arg_patterns names cmd.expanded_args)
      ∷ when (security.is_arbitrary_code_execution_runner names) high
      ∷ when
          (not (has_profile N Z F D E security profile)
            && security.has_network_arguments cmd.expanded_args)
          medium
      ∷ []

  when_positive : (test : Bool) (n : ℕ) → when (test && ltb 0 n) n ≡ when test n
  when_positive true n = ground arith
  when_positive false n = refl

  zone_lem :
      (zone : LocationResult Z) (a : Assessment Z)
      → (fold_zoning zone a).level ≡ greater a.level (when zone.applies zone.level)
  unfolding fold_zoning
  zone_lem zone a = elim (Bool-cases zone.applies) [
    | inl applies ↦ rw (applies, fold_zoning) refl
    | inr skips ↦ rw (skips, fold_zoning) (greater_zero a.level)
  ]

  -- An outcome that does not block has the level of the class and that of the zones.
  class_lem :
      (zone : LocationResult Z) (class : BinaryAnalysisClass) (reason_codes : List Text)
      (a a' : Assessment Z)
      → after_class N Z F D E security zone (apply_class_result class reason_codes a) ≡ a'
      → a'.blocking ≡ false
      → a'.level ≡ greater (greater a.level (class_level class)) (when zone.applies zone.level)
  unfolding after_class apply_class_result blocked_class blocking_assessment
  class_lem zone uncertain reason_codes a a' h going = absurd (cc)
  class_lem zone (unknown_class n) reason_codes a a' h going = absurd (cc)
  class_lem zone clean reason_codes a a' h going =
      ap (λ (x : Assessment Z). x.level) (sym h)
      ∙ zone_lem zone a
      ∙ ap (λ (n : ℕ). greater n (when zone.applies zone.level)) (greater_zero a.level)
  class_lem zone network reason_codes a a' h going =
      ap (λ (x : Assessment Z). x.level) (sym h)
      ∙ zone_lem zone (record a {
        level = greater a.level medium;
        reason_codes = a.reason_codes ++ reason_codes;
      })
  class_lem zone high_risk reason_codes a a' h going =
      ap (λ (x : Assessment Z). x.level) (sym h)
      ∙ zone_lem zone
          (record a { level = greater a.level high; reason_codes = a.reason_codes ++ reason_codes })

  module _ (cmd : Command) (names : N) (profile : Option Profile) where
    named_lem :
        (suppress : Bool) (risk : ℕ) (handled : Bool)
        → (named_dimensions N Z F D E security cmd names profile suppress risk handled).level
          ≡ raised low (named_levels cmd names profile suppress (risk, handled))
    unfolding named_dimensions
    named_lem suppress risk handled =
        let args = cmd.expanded_args in
        let system = security.system_modification_risk names in
        let dangerous = security.check_dangerous_arg_patterns names args in
        let network =
          not (has_profile N Z F D E security profile) && security.has_network_arguments args in
        let runner = security.is_arbitrary_code_execution_runner names in
        let destructive = not suppress && security.is_destructive_file_operation names args in
        let a0 : Assessment Z = record (empty_assessment {Z = Z}) { level = low } in
        let a1 =
          apply_coreutils_risk N Z F D E security cmd.expanded_cmd risk handled suppress a0 in
        let a2 =
          add_if N Z F D E security destructive high (codes "destructive_file_operation") a1 in
        let a3 = add_if N Z F D E security (ltb 0 system) system (codes "system_modification") a2 in
        let a4 = apply_profile_factors N Z F D E security profile args suppress a3 in
        let a5 =
          add_if N Z F D E security (not suppress && ltb 0 dangerous) dangerous
            (codes "dangerous_arg_pattern") a4 in
        let a6 = add_if N Z F D E security runner high (codes "arbitrary_code_execution") a5 in
        let s1 = coreutils_lem cmd.expanded_cmd risk handled suppress a0 in
        let s2 =
          add_if_level N F D E security destructive high (codes "destructive_file_operation") a1 in
        let s3 =
          add_if_level N F D E security (ltb 0 system) system (codes "system_modification") a2 in
        let s4 = factors_lem profile args suppress a3 in
        let s5 =
          add_if_level N F D E security (not suppress && ltb 0 dangerous) dangerous
            (codes "dangerous_arg_pattern") a4 in
        let s6 = add_if_level N F D E security runner high (codes "arbitrary_code_execution") a5 in
        let s7 = add_if_level N F D E security network medium (codes "network_argument") a6 in
        let up : (m n c d : ℕ) → m ≡ n → c ≡ d → greater m c ≡ greater n d =
          λ m n c d e e'. rw (e, e') refl in
        s7
        ∙ up _ _ _ _
            (s6
              ∙ up _ _ _ _
                  (s5
                    ∙ up _ _ _ _
                        (s4
                          ∙ up _ _ _ _
                              (s3
                                ∙ up _ _ _ _ (s2 ∙ up _ _ _ _ s1 refl) (when_positive true system))
                              refl)
                        (when_positive (not suppress) dangerous))
                  refl)
            refl

    binary_lem :
        (zone : LocationResult Z) (handled : Bool) (a a' : Assessment Z)
        → binary_dimension N Z F D E security cmd zone handled a ≡ ok a'
        → a'.blocking ≡ false
        → a'.level
          ≡ raised a.level (
              when
                (not handled && is_abs cmd.expanded_cmd)
                (analysis_level (security.classify cmd.expanded_cmd cmd.content_hash))
              ∷ when zone.applies zone.level
              ∷ [])
    unfolding binary_dimension
    binary_lem zone handled a a' h going =
        elim (Bool-cases (not handled && is_abs cmd.expanded_cmd)) [
          | inl analysed ↦
              elim (Result-cases (security.classify cmd.expanded_cmd cmd.content_hash)) [
                | inl (e, failed) ↦ absurd (cc (rw (analysed, binary_dimension, failed) at h))
                | inr ((class, reason_codes), done) ↦
                    rw (analysed, done)
                      (class_lem zone class reason_codes a a'
                        (ok_injective (rw (analysed, binary_dimension, done) at h)) going)
              ]
          | inr skipped ↦ rw skipped (
              ap (λ (x : Assessment Z). x.level)
                (sym (ok_injective (rw (skipped, binary_dimension) at h)))
              ∙ zone_lem zone a
              ∙ ap (λ (n : ℕ). greater n (when zone.applies zone.level)) (greater_zero a.level))
        ]

    abbrev pub suppressed : Bool
    suppressed =
        (zone_of N Z F D E security cmd names).applies
        && (zone_of N Z F D E security cmd names).recognized

    abbrev pub last_levels : LocationResult Z → Bool → List ℕ
    last_levels zone handled =
        when (not handled && is_abs cmd.expanded_cmd)
          (analysis_level (security.classify cmd.expanded_cmd cmd.content_hash))
        ∷ when zone.applies zone.level
        ∷ []

    -- What each dimension contributes, where the classification of coreutils is known.
    abbrev pub raising : ℕ × Bool → List ℕ
    raising (risk, handled) =
        named_levels cmd names profile suppressed (risk, handled)
        ++ last_levels (zone_of N Z F D E security cmd names) handled

    -- The level of an assessment that does not block is the least one that no dimension exceeds.
    pub evaluate_dimensions_level :
        (a : Assessment Z)
        → evaluate_dimensions N Z F D E security cmd names profile ≡ ok a
        → a.blocking ≡ false
        → (coreutils : ℕ × Bool) × (security.coreutils_command_risk cmd.expanded_cmd
              cmd.expanded_args
            ≡ some coreutils)
          × ((x : ℕ) → (a.level ≤ x) ↔ All (λ n. n ≤ x) (low ∷ raising coreutils))
    unfolding evaluate_dimensions blocking_assessment
    evaluate_dimensions_level a h going =
        elim (Option-cases (security.coreutils_command_risk cmd.expanded_cmd cmd.expanded_args)) [
          | inl failed ↦ absurd (
              cc (
                ap (λ (x : Assessment Z). x.blocking)
                    (ok_injective (rw (failed, evaluate_dimensions) at h)),
                going,
              ))
          | inr ((risk, handled), known) ↦
              let zone = zone_of N Z F D E security cmd names in
              let start =
                named_dimensions N Z F D E security cmd names profile suppressed risk handled in
              let level =
                binary_lem zone handled start a (rw (known, evaluate_dimensions) at h) going in
              let total =
                level
                ∙ ap (λ (n : ℕ). raised n (last_levels zone handled))
                    (named_lem suppressed risk handled) in
              (
                (risk, handled),
                known,
                λ x.
                    subst (λ (n : ℕ). (n ≤ x) ↔ All (λ m. m ≤ x) (low ∷ raising (risk, handled)))
                      (sym total) (raised_le low (raising (risk, handled)) x),
              )
        ]
