-- ===== src/Risk/Evaluator/Gates.antt =====
-- Which commands pass the gates of EvaluateRisk.
use go_safe_cmd_runner.Base.{
  ◌≡◌, ◌≢◌, ◌⊎◌, ◌∙◌, ap, sym, subst, refl, inl, inr, Bool, true, false, none, some, [], ◌∷◌,
  text_eq, text_eq_iff, ok, arith, Result-cases, Option-cases, Bool-cases, ok_injective,
  if◌then◌else◌,
}
use go_safe_cmd_runner.Expand.Strings.{is_abs}
use go_safe_cmd_runner.Risk.Assessment.{Assessment}
use go_safe_cmd_runner.Risk.Evaluator.{
  Command, Indirect, IndirectKind, indirect_none, indirect_critical, indirect_reject,
  indirect_floor, Security, Plan, OpenResult, opened, hash_mismatch, not_regular, other_failure,
  evaluate_dimensions, identity_gate, blocking_plan, identified_plan, critical_plan, allowed_plan,
  fold_indirect, final_plan, privileged, evaluate_profile, evaluate_indirect, evaluate_risk,
}

pub OpenResult-cases :
    {D : Type 0} (o : OpenResult D)
    → ((fd : D) × (o ≡ opened fd))
      ⊎ ((o ≡ hash_mismatch) ⊎ ((o ≡ not_regular) ⊎ (o ≡ other_failure)))
OpenResult-cases (opened fd) = inl (fd, refl)
OpenResult-cases hash_mismatch = inr (inl refl)
OpenResult-cases not_regular = inr (inr (inl refl))
OpenResult-cases other_failure = inr (inr (inr refl))

module _ (N Z F D E : Type 0) (security : Security N Z F D E) where
  -- The plan names a command to run.
  abbrev pub Allows : Plan Z F D → Type 0
  Allows plan = plan.resolved_path ≢ []

  -- The verified file of the command is open, and this is what the plan runs.
  abbrev pub Bound : Command → Plan Z F D → Type 0
  Bound cmd plan =
      (fd : D) × (security.open_identity cmd ≡ opened fd)
      × (plan.identity
          ≡ some (record {
            fd = some fd;
            resolved_path = cmd.expanded_cmd;
            content_hash = cmd.content_hash;
          }))
      × (plan.resolved_path ≡ cmd.expanded_cmd)
      × (plan.resolved_argv ≡ cmd.expanded_cmd ∷ cmd.expanded_args)

  -- The indirect form is neither critical nor rejected.
  abbrev pub Tolerated : IndirectKind → Type 0
  Tolerated kind = (kind ≢ indirect_critical) × (kind ≢ indirect_reject)

  -- The command has passed every gate.
  abbrev pub Passes : Command → Plan Z F D → Type 0
  Passes cmd plan =
      (names : N) × (security.resolve_command_names cmd.expanded_cmd ≡ some names)
      × (is_abs cmd.expanded_cmd ≡ true)
      × (cmd.content_hash ≢ [])
      × (security.analysis_enabled ≡ true)
      × (privileged N Z F D E security (security.resolve_profile names) ≡ false)
      × Tolerated (security.analyze_indirect_execution cmd.expanded_cmd cmd.expanded_args).kind
      × (plan.assessment.blocking ≡ false)
      × Bound cmd plan

  allowed_plan_lem :
      (cmd : Command) (a : Assessment Z)
      → Allows (allowed_plan N Z F D E security cmd a)
      → Bound cmd (allowed_plan N Z F D E security cmd a)
        × ((allowed_plan N Z F D E security cmd a).assessment ≡ a)
  unfolding allowed_plan blocking_plan
  allowed_plan_lem cmd a allows = elim (OpenResult-cases (security.open_identity cmd)) [
    | inl (fd, done) ↦ rw (done, allowed_plan) ((fd, refl, refl, refl, refl), refl)
    | inr (inl failed) ↦ absurd ((rw (failed, allowed_plan, blocking_plan) at allows) refl)
    | inr (inr (inl failed)) ↦ absurd ((rw (failed, allowed_plan, blocking_plan) at allows) refl)
    | inr (inr (inr failed)) ↦ absurd ((rw (failed, allowed_plan, blocking_plan) at allows) refl)
  ]

  pub final_plan_if :
      (cmd : Command) (indirect : Indirect F) (a : Assessment Z) (b : Bool)
      → a.blocking ≡ b
      → final_plan N Z F D E security cmd indirect a ≡ (
          if b
          then record (identified_plan N Z F D E security cmd a) { artifacts = indirect.artifacts }
          else record (allowed_plan N Z F D E security cmd a) { artifacts = indirect.artifacts })
  unfolding final_plan
  final_plan_if cmd indirect a b h =
      ap
        (λ (t : Bool).
          if t
          then record (identified_plan N Z F D E security cmd a) { artifacts = indirect.artifacts }
          else record (allowed_plan N Z F D E security cmd a) { artifacts = indirect.artifacts })
        h

  -- A plan that allows is bound to the open file and does not block.
  abbrev Runs : Command → Plan Z F D → Type 0
  Runs cmd plan = Allows plan → Bound cmd plan × (plan.assessment.blocking ≡ false)

  final_plan_lem :
      (cmd : Command) (indirect : Indirect F) (a : Assessment Z)
      → Runs cmd (final_plan N Z F D E security cmd indirect a)
  unfolding identified_plan blocking_plan
  final_plan_lem cmd indirect a = elim (Bool-cases a.blocking) [
    | inl denied ↦
        subst (Runs cmd) (sym (final_plan_if cmd indirect a true denied))
          (λ allows. absurd (allows refl))
    | inr free ↦ subst (Runs cmd) (sym (final_plan_if cmd indirect a false free)) (λ allows.
        let (bound, same) = allowed_plan_lem cmd a allows in
        (bound, ap (λ (x : Assessment Z). x.blocking) same ∙ free))
  ]

  evaluate_profile_lem :
      (cmd : Command) (names : N) (indirect : Indirect F) (plan : Plan Z F D)
      → evaluate_profile N Z F D E security cmd names indirect ≡ ok plan
      → Allows plan
      → (privileged N Z F D E security (security.resolve_profile names) ≡ false)
        × Bound cmd plan
        × (plan.assessment.blocking ≡ false)
  unfolding evaluate_profile critical_plan identified_plan blocking_plan
  evaluate_profile_lem cmd names indirect plan h allows =
      elim (Bool-cases (privileged N Z F D E security (security.resolve_profile names))) [
        | inl privilege ↦ absurd (
            allows (
              ap (λ (x : Plan Z F D). x.resolved_path)
                (sym (ok_injective (rw (privilege, evaluate_profile) at h)))))
        | inr plain ↦
            elim (Result-cases
              (evaluate_dimensions N Z F D E security cmd names (security.resolve_profile names))) [
                | inl (e, failed) ↦ absurd (cc (rw (plain, failed, evaluate_profile) at h))
                | inr (a, done) ↦
                    let (bound, free) =
                      subst (Runs cmd) (ok_injective (rw (plain, done, evaluate_profile) at h))
                        (final_plan_lem cmd indirect (fold_indirect N Z F D E security indirect a))
                        allows in
                    (plain, bound, free)
              ]
      ]

  evaluate_indirect_lem :
      (cmd : Command) (names : N) (indirect : Indirect F) (kind : IndirectKind) (plan : Plan Z F D)
      → indirect.kind ≡ kind
      → evaluate_indirect N Z F D E security cmd names indirect ≡ ok plan
      → Allows plan
      → Tolerated kind × (evaluate_profile N Z F D E security cmd names indirect ≡ ok plan)
  unfolding evaluate_indirect critical_plan identified_plan blocking_plan
  evaluate_indirect_lem cmd names indirect indirect_critical plan e h allows = absurd (
      allows (
        ap (λ (x : Plan Z F D). x.resolved_path)
          (sym (ok_injective (rw (e, evaluate_indirect) at h)))))
  evaluate_indirect_lem cmd names indirect indirect_reject plan e h allows = absurd (
      allows (
        ap (λ (x : Plan Z F D). x.resolved_path)
          (sym (ok_injective (rw (e, evaluate_indirect) at h)))))
  evaluate_indirect_lem cmd names indirect indirect_none plan e h allows =
      (((λ c. absurd (cc)), (λ c. absurd (cc))), (rw (e, evaluate_indirect) at h))
  evaluate_indirect_lem cmd names indirect indirect_floor plan e h allows =
      (((λ c. absurd (cc)), (λ c. absurd (cc))), (rw (e, evaluate_indirect) at h))

  identity_gate-none :
      (cmd : Command)
      → identity_gate N Z F D E security cmd ≡ none
      → (cmd.content_hash ≢ []) × (security.analysis_enabled ≡ true)
  unfolding identity_gate
  identity_gate-none cmd h = elim (Bool-cases (text_eq cmd.content_hash [])) [
    | inl empty ↦ absurd (cc (rw (empty, identity_gate) at h))
    | inr given ↦ ((λ e. absurd (cc (given, (text_eq_iff cmd.content_hash []).1 e))), ground arith)
  ]

  -- A plan that names a command to run is bound to the open file of the command, whose hash was
  -- verified, does not block, and comes only from an absolute path whose symbolic links were resolved,
  -- with a content hash, under enabled analysis, of no privileged profile and of no indirect form that
  -- is critical or rejected.
  pub evaluate_risk-Passes :
      (cmd : Command) (plan : Plan Z F D)
      → evaluate_risk N Z F D E security cmd ≡ ok plan
      → Allows plan
      → Passes cmd plan
  unfolding evaluate_risk blocking_plan
  evaluate_risk-Passes cmd plan h allows = elim (Bool-cases (is_abs cmd.expanded_cmd)) [
    | inr relative ↦ absurd (
        allows (
          ap (λ (x : Plan Z F D). x.resolved_path)
            (sym (ok_injective (rw (relative, evaluate_risk) at h)))))
    | inl absolute ↦ elim (Option-cases (security.resolve_command_names cmd.expanded_cmd)) [
      | inl dangling ↦ absurd (
          allows (
            ap (λ (x : Plan Z F D). x.resolved_path)
              (sym (ok_injective (rw (absolute, dangling, evaluate_risk) at h)))))
      | inr (names, resolved) ↦ elim (Option-cases (identity_gate N Z F D E security cmd)) [
        | inr (a, denied) ↦ absurd (
            allows (
              ap (λ (x : Plan Z F D). x.resolved_path)
                (sym (ok_injective (rw (absolute, resolved, denied, evaluate_risk) at h)))))
        | inl admitted ↦
            let indirect = security.analyze_indirect_execution cmd.expanded_cmd cmd.expanded_args in
            let (hash, enabled) = identity_gate-none cmd admitted in
            let (tolerated, profiled) =
              evaluate_indirect_lem cmd names indirect indirect.kind plan refl
                (rw (absolute, resolved, admitted, evaluate_risk) at h) allows in
            let (plain, bound, free) =
              evaluate_profile_lem cmd names indirect plan profiled allows in
            (names, resolved, absolute, hash, enabled, plain, tolerated, free, bound)
      ]
    ]
  ]
