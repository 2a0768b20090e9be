-- ===== src/Risk/Evaluator/Decided.antt =====
-- What EvaluateRisk decides: every plan runs the verified file of its command, or denies and runs
-- nothing.
use go_safe_cmd_runner.Base.{
  ◌≡◌, ◌⊎◌, ap, sym, subst, refl, inl, inr, true, false, none, some, [], ◌∷◌, ok, text_eq,
  Result-cases, Option-cases, Bool-cases, List, Text, codes, ok_injective, some_injective,
}
use go_safe_cmd_runner.Expand.Strings.{is_abs}
use go_safe_cmd_runner.Risk.Assessment.{Assessment, critical, blocking_assessment, empty_assessment}
use go_safe_cmd_runner.Risk.Evaluator.{
  Command, Indirect, IndirectKind, indirect_none, indirect_critical, indirect_reject,
  indirect_floor, Security, Plan, Identity, evaluate_dimensions, identity_gate, blocking_plan,
  identified_plan, critical_plan, allowed_plan, fold_indirect, final_plan, privileged,
  evaluate_profile, evaluate_indirect, evaluate_risk, identity_for, rejected_assessment,
  profile_reasons,
}
use go_safe_cmd_runner.Risk.Evaluator.Gates.{Bound, OpenResult-cases, final_plan_if}

module _ (N Z F D E : Type 0) (security : Security N Z F D E) where
  -- The plan runs nothing, holds no open file, and its assessment blocks or is critical.
  abbrev pub Denies : Plan Z F D → Type 0
  Denies plan =
      (plan.resolved_path ≡ [])
      × (plan.resolved_argv ≡ [])
      × ((identity : Identity D) → plan.identity ≡ some identity → identity.fd ≡ none)
      × ((plan.assessment.blocking ≡ true) ⊎ (plan.assessment.level ≡ critical))

  -- The plan runs the command's own path and arguments from its open, verified file, and its
  -- assessment does not block.
  abbrev pub RunsCommand : Command → Plan Z F D → Type 0
  RunsCommand cmd plan = Bound N Z F D E security cmd plan × (plan.assessment.blocking ≡ false)

  abbrev pub Decided : Command → Plan Z F D → Type 0
  Decided cmd plan = RunsCommand cmd plan ⊎ Denies plan

  blocking_plan-Denies :
      (a : Assessment Z) → a.blocking ≡ true → Denies (blocking_plan N Z F D E security a)
  unfolding blocking_plan
  blocking_plan-Denies a blocks = (refl, refl, (λ identity e. absurd (cc)), inl blocks)

  blocking_assessment-Denies :
      (reason error_class : Text)
      → Denies (blocking_plan N Z F D E security (blocking_assessment reason error_class))
  unfolding blocking_assessment
  blocking_assessment-Denies reason error_class =
      blocking_plan-Denies (blocking_assessment reason error_class) refl

  identified_plan-Denies :
      (cmd : Command) (a : Assessment Z)
      → (a.blocking ≡ true) ⊎ (a.level ≡ critical)
      → Denies (identified_plan N Z F D E security cmd a)
  unfolding identified_plan blocking_plan identity_for
  identified_plan-Denies cmd a denied =
      (refl, refl, (λ identity e. ap (λ (i : Identity D). i.fd) (sym (some_injective e))), denied)

  critical_plan-Denies :
      (cmd : Command) (reason_codes reasons : List Text)
      → Denies (critical_plan N Z F D E security cmd reason_codes reasons)
  unfolding critical_plan
  critical_plan-Denies cmd reason_codes reasons =
      identified_plan-Denies cmd
        (record (empty_assessment {Z = Z}) {
          level = critical;
          blocking_reason = codes "privilege_escalation";
          reason_codes = reason_codes;
          reasons = reasons;
        })
        (inr refl)

  allowed_plan-Decided :
      (cmd : Command) (a : Assessment Z)
      → a.blocking ≡ false
      → Decided cmd (allowed_plan N Z F D E security cmd a)
  unfolding allowed_plan
  allowed_plan-Decided cmd a free = elim (OpenResult-cases (security.open_identity cmd)) [
    | inl (fd, done) ↦ rw (done, allowed_plan) (inl ((fd, refl, refl, refl, refl), free))
    | inr (inl failed) ↦
        rw (failed, allowed_plan)
          (inr
            (blocking_assessment-Denies (codes "identity_hash_mismatch") (codes "path_resolution")))
    | inr (inr (inl failed)) ↦
        rw (failed, allowed_plan)
          (inr (
            blocking_assessment-Denies (codes "identity_not_regular_file")
              (codes "path_resolution")))
    | inr (inr (inr failed)) ↦
        rw (failed, allowed_plan)
          (inr (blocking_assessment-Denies (codes "identity_unbound") (codes "path_resolution")))
  ]

  final_plan-Decided :
      (cmd : Command) (indirect : Indirect F) (a : Assessment Z)
      → Decided cmd (final_plan N Z F D E security cmd indirect a)
  unfolding final_plan
  final_plan-Decided cmd indirect a = elim (Bool-cases a.blocking) [
    | inl denied ↦
        subst (Decided cmd) (sym (final_plan_if N Z F D E security cmd indirect a true denied))
          (inr (identified_plan-Denies cmd a (inl denied)))
    | inr free ↦
        subst (Decided cmd) (sym (final_plan_if N Z F D E security cmd indirect a false free))
          (allowed_plan-Decided cmd a free)
  ]

  evaluate_profile-Decided :
      (cmd : Command) (names : N) (indirect : Indirect F) (plan : Plan Z F D)
      → evaluate_profile N Z F D E security cmd names indirect ≡ ok plan
      → Decided cmd plan
  unfolding evaluate_profile
  evaluate_profile-Decided cmd names indirect plan h =
      let profile = security.resolve_profile names in
      elim (Bool-cases (privileged N Z F D E security profile)) [
        | inl privilege ↦
            subst (Decided cmd) (ok_injective (rw (privilege, evaluate_profile) at h)) (
              inr (
                critical_plan-Denies cmd (codes "privilege_escalation" ∷ [])
                  (profile_reasons N Z F D E security profile)))
        | inr plain ↦
            elim (Result-cases (evaluate_dimensions N Z F D E security cmd names profile)) [
              | inl (e, failed) ↦ absurd (cc (rw (plain, failed, evaluate_profile) at h))
              | inr (a, done) ↦
                  subst (Decided cmd) (ok_injective (rw (plain, done, evaluate_profile) at h))
                    (final_plan-Decided cmd indirect (fold_indirect N Z F D E security indirect a))
            ]
      ]

  evaluate_indirect-Decided :
      (cmd : Command) (names : N) (indirect : Indirect F) (kind : IndirectKind) (plan : Plan Z F D)
      → indirect.kind ≡ kind
      → evaluate_indirect N Z F D E security cmd names indirect ≡ ok plan
      → Decided cmd plan
  unfolding evaluate_indirect rejected_assessment
  evaluate_indirect-Decided cmd names indirect indirect_critical plan e h =
      subst (Decided cmd) (ok_injective (rw (e, evaluate_indirect) at h))
        (inr (critical_plan-Denies cmd indirect.reason_codes []))
  evaluate_indirect-Decided cmd names indirect indirect_reject plan e h =
      subst (Decided cmd) (ok_injective (rw (e, evaluate_indirect) at h)) (
        inr
          (identified_plan-Denies cmd (rejected_assessment N Z F D E security indirect) (inl refl)))
  evaluate_indirect-Decided cmd names indirect indirect_none plan e h =
      evaluate_profile-Decided cmd names indirect plan (rw (e, evaluate_indirect) at h)
  evaluate_indirect-Decided cmd names indirect indirect_floor plan e h =
      evaluate_profile-Decided cmd names indirect plan (rw (e, evaluate_indirect) at h)

  identity_gate_blocks :
      (cmd : Command) (a : Assessment Z)
      → identity_gate N Z F D E security cmd ≡ some a
      → a.blocking ≡ true
  unfolding identity_gate blocking_assessment
  identity_gate_blocks cmd a h = elim (Bool-cases (text_eq cmd.content_hash [])) [
    | inl empty ↦
        ap (λ (x : Assessment Z). x.blocking)
          (sym (some_injective (rw (empty, identity_gate) at h)))
    | inr given ↦ elim (Bool-cases security.analysis_enabled) [
      | inl enabled ↦ absurd (cc (rw (given, identity_gate, enabled) at h))
      | inr disabled ↦
          ap (λ (x : Assessment Z). x.blocking)
            (sym (some_injective (rw (given, identity_gate, disabled) at h)))
    ]
  ]

  -- Every plan that the evaluation returns either runs the command's own path and arguments from its
  -- open, verified file with an assessment that does not block, or has no path and no arguments to
  -- run, holds no open file, and has an assessment that blocks or is of the critical level.
  pub evaluate_risk-Decided :
      (cmd : Command) (plan : Plan Z F D)
      → evaluate_risk N Z F D E security cmd ≡ ok plan
      → Decided cmd plan
  unfolding evaluate_risk
  evaluate_risk-Decided cmd plan h = elim (Bool-cases (is_abs cmd.expanded_cmd)) [
    | inr relative ↦
        subst (Decided cmd) (ok_injective (rw (relative, evaluate_risk) at h))
          (inr (blocking_assessment-Denies (codes "non_absolute_path") (codes "path_resolution")))
    | inl absolute ↦ elim (Option-cases (security.resolve_command_names cmd.expanded_cmd)) [
      | inl dangling ↦
          subst (Decided cmd) (ok_injective (rw (absolute, dangling, evaluate_risk) at h)) (
            inr (
              blocking_assessment-Denies (codes "symlink_resolution_failed")
                (codes "symlink_resolution")))
      | inr (names, resolved) ↦ elim (Option-cases (identity_gate N Z F D E security cmd)) [
        | inr (a, denied) ↦
            subst (Decided cmd) (ok_injective (rw (absolute, resolved, denied, evaluate_risk) at h))
              (inr (blocking_plan-Denies a (identity_gate_blocks cmd a denied)))
        | inl admitted ↦
            evaluate_indirect-Decided cmd names
              (security.analyze_indirect_execution cmd.expanded_cmd cmd.expanded_args) _ plan refl
              (rw (absolute, resolved, admitted, evaluate_risk) at h)
      ]
    ]
  ]
