-- ===== src/Risk/Evaluator.antt =====
-- EvaluateRisk of internal/runner/base/risk/evaluator.go. What internal/runner/base/security and the
-- network analyzer say of a command is an interface, `Security`, which the evaluator takes.
pub mod Gates
pub mod Levels
pub mod Decided
use go_safe_cmd_runner.Base.{
  ℕ, ◌≡◌, refl, Bool, true, false, not, ◌&&◌, ◌||◌, Option, none, some, List, [], ◌∷◌, ◌++◌, Text,
  codes, text_eq, ltb, if◌then◌else◌, Result, ok, err,
}
use go_safe_cmd_runner.Expand.Strings.{is_abs}
use go_safe_cmd_runner.Risk.Assessment.{
  Assessment, LocationResult, BinaryAnalysisClass, ClassOutcome, blocked, goes_on, low, medium,
  high, critical, greater, dedupe_stable, empty_assessment, add_dimension, blocking_assessment,
  fold_zoning, apply_class_result, first_code,
}

pub record Command : Type 0 where
  pub expanded_cmd : Text
  pub expanded_args : List Text
  pub content_hash : Text

pub record Profile : Type 0 where
  pub is_privilege : Bool
  pub risk_reasons : List Text
  pub network_type : Text

pub data IndirectKind : Type 0 where
  indirect_none indirect_critical indirect_reject indirect_floor : IndirectKind

pub record Indirect (F : Type 0) : Type 0 where
  pub kind : IndirectKind
  pub level : ℕ
  pub reason_codes : List Text
  pub reasons : List Text
  pub error_class : Text
  pub artifacts : List F

-- How the verified file is opened: the file, or what is wrong with it.
pub data OpenResult (D : Type 0) : Type 0 where
  opened : D → OpenResult D
  hash_mismatch not_regular other_failure : OpenResult D

-- N are the resolved names of a command, Z the record of an operand, F an artifact, D an open file,
-- E the error of a record that cannot be loaded. `none` stands for an error.
pub record Security (N Z F D E : Type 0) : Type 0 where
  pub resolve_command_names : Text → Option N
  pub analysis_enabled : Bool
  pub analyze_indirect_execution : Text → List Text → Indirect F
  pub resolve_profile : N → Option Profile
  -- `none` where zoning is not configured.
  pub classify_destination_zone : Command → N → Option (LocationResult Z)
  pub coreutils_command_risk : Text → List Text → Option (ℕ × Bool)
  pub has_setuid_or_setgid_bit : Text → Option Bool
  pub is_destructive_file_operation : N → List Text → Bool
  pub system_modification_risk : N → ℕ
  pub profile_factor_risk : Profile → List Text → Bool → ℕ × List Text
  pub check_dangerous_arg_patterns : N → List Text → ℕ
  pub is_arbitrary_code_execution_runner : N → Bool
  pub has_network_arguments : List Text → Bool
  pub classify : Text → Text → Result E (BinaryAnalysisClass × List Text)
  pub open_identity : Command → OpenResult D

-- The identity holds the path, the hash and, once it is open, the file.
pub record Identity (D : Type 0) : Type 0 where
  pub fd : Option D
  pub resolved_path : Text
  pub content_hash : Text

pub record Plan (Z F D : Type 0) : Type 0 where
  pub resolved_path : Text
  pub resolved_argv : List Text
  pub identity : Option (Identity D)
  pub assessment : Assessment Z
  pub artifacts : List F

module _ (N Z F D E : Type 0) (security : Security N Z F D E) where
  abbrev no_zone : LocationResult Z
  no_zone = record {
    applies = false;
    recognized = false;
    level = 0;
    reason_codes = [];
    operands = [];
  }

  unfoldable pub zone_of : Command → N → LocationResult Z
  zone_of cmd names = elim (security.classify_destination_zone cmd names) [
    | none ↦ no_zone
    | some zone ↦ zone
  ]

  unfoldable pub is_set : Option Bool → Bool
  is_set none = true
  is_set (some bit) = bit

  unfoldable pub apply_coreutils_risk : Text → ℕ → Bool → Bool → Assessment Z → Assessment Z
  unfolding is_set add_dimension
  apply_coreutils_risk path risk handled suppress a =
      if not handled
      then a
      else if not suppress
      then add_dimension risk (codes "coreutils_classification") a
      else if is_set (security.has_setuid_or_setgid_bit path)
      then add_dimension high (codes "permission_grant") a
      else a

  unfoldable pub add_codes : ℕ → List Text → Assessment Z → Assessment Z
  add_codes level [] a = a
  add_codes level (code ∷ rest) a = add_codes level rest (add_dimension level code a)

  unfoldable pub apply_profile_factors :
      Option Profile → List Text → Bool → Assessment Z → Assessment Z
  unfolding add_codes
  apply_profile_factors none args suppress a = a
  apply_profile_factors (some profile) args suppress a =
      let (level, reason_codes) = security.profile_factor_risk profile args suppress in
      let a' = if ltb 0 level then add_codes level reason_codes a else a in
      record a' { reasons = profile.risk_reasons; network_type = profile.network_type }

  unfoldable pub has_profile : Option Profile → Bool
  has_profile none = false
  has_profile (some profile) = true

  unfoldable pub add_if : Bool → ℕ → Text → Assessment Z → Assessment Z
  unfolding add_dimension
  add_if test level code a = if test then add_dimension level code a else a

  -- The dimensions but the binary's analysis and the zones, in the order of the code.
  unfoldable pub named_dimensions : Command → N → Option Profile → Bool → ℕ → Bool → Assessment Z
  unfolding apply_coreutils_risk apply_profile_factors has_profile add_if empty_assessment
  named_dimensions cmd names profile suppress coreutils_risk handled =
      let args = cmd.expanded_args in
      let sysmod = security.system_modification_risk names in
      let dangerous = security.check_dangerous_arg_patterns names args in
      add_if (not (has_profile profile) && security.has_network_arguments args) medium
        (codes "network_argument")
        (add_if (security.is_arbitrary_code_execution_runner names) high
          (codes "arbitrary_code_execution")
          (add_if (not suppress && ltb 0 dangerous) dangerous (codes "dangerous_arg_pattern") (
            apply_profile_factors profile args suppress (
              add_if (ltb 0 sysmod) sysmod (codes "system_modification") (
                add_if (not suppress && security.is_destructive_file_operation names args) high
                  (codes "destructive_file_operation")
                  (apply_coreutils_risk cmd.expanded_cmd coreutils_risk handled suppress
                    (record (empty_assessment {Z = Z}) { level = low })))))))

  unfoldable pub after_class : LocationResult Z → ClassOutcome Z → Assessment Z
  unfolding fold_zoning
  after_class zone (blocked a) = record a { operand_zones = zone.operands }
  after_class zone (goes_on a) = fold_zoning zone a

  unfoldable pub binary_dimension :
      Command → LocationResult Z → Bool → Assessment Z → Result E (Assessment Z)
  unfolding after_class apply_class_result fold_zoning is_abs
  binary_dimension cmd zone handled a =
      if not handled && is_abs cmd.expanded_cmd
      then elim (security.classify cmd.expanded_cmd cmd.content_hash) [
        | err e ↦ err e
        | ok (class, reason_codes) ↦ ok (after_class zone (apply_class_result class reason_codes a))
      ]
      else ok (fold_zoning zone a)

  unfoldable pub evaluate_dimensions : Command → N → Option Profile → Result E (Assessment Z)
  unfolding zone_of named_dimensions binary_dimension blocking_assessment
  evaluate_dimensions cmd names profile =
      let zone = zone_of cmd names in
      let suppress = zone.applies && zone.recognized in
      elim (security.coreutils_command_risk cmd.expanded_cmd cmd.expanded_args) [
        | none ↦
            ok
              (blocking_assessment (codes "coreutils_classification") (codes "coreutils_file_info"))
        | some (risk, handled) ↦
            binary_dimension cmd zone handled
              (named_dimensions cmd names profile suppress risk handled)
      ]

  unfoldable pub identity_for : Command → Identity D
  identity_for cmd = record {
    fd = none;
    resolved_path = cmd.expanded_cmd;
    content_hash = cmd.content_hash;
  }

  unfoldable pub blocking_plan : Assessment Z → Plan Z F D
  blocking_plan a = record {
    resolved_path = [];
    resolved_argv = [];
    identity = none;
    assessment = a;
    artifacts = [];
  }

  -- A deny of a command whose identity is known.
  unfoldable pub identified_plan : Command → Assessment Z → Plan Z F D
  unfolding identity_for blocking_plan
  identified_plan cmd a = record (blocking_plan a) { identity = some (identity_for cmd) }

  unfoldable pub critical_plan : Command → List Text → List Text → Plan Z F D
  unfolding identified_plan empty_assessment
  critical_plan cmd reason_codes reasons = identified_plan cmd (record (empty_assessment {Z = Z}) {
    level = critical;
    blocking_reason = codes "privilege_escalation";
    reason_codes = reason_codes;
    reasons = reasons;
  })

  unfoldable pub allowed_plan : Command → Assessment Z → Plan Z F D
  unfolding blocking_plan blocking_assessment
  allowed_plan cmd a = elim (security.open_identity cmd) [
    | hash_mismatch ↦
        blocking_plan
          (blocking_assessment (codes "identity_hash_mismatch") (codes "path_resolution"))
    | not_regular ↦
        blocking_plan
          (blocking_assessment (codes "identity_not_regular_file") (codes "path_resolution"))
    | other_failure ↦
        blocking_plan (blocking_assessment (codes "identity_unbound") (codes "path_resolution"))
    | opened fd ↦ record {
      resolved_path = cmd.expanded_cmd;
      resolved_argv = cmd.expanded_cmd ∷ cmd.expanded_args;
      identity = some (record {
        fd = some fd;
        resolved_path = cmd.expanded_cmd;
        content_hash = cmd.content_hash;
      });
      assessment = a;
      artifacts = [];
    }
  ]

  unfoldable pub identity_gate : Command → Option (Assessment Z)
  unfolding blocking_assessment
  identity_gate cmd =
      if text_eq cmd.content_hash []
      then some (blocking_assessment (codes "uncertain_unverified_identity") [])
      else if not security.analysis_enabled
      then some (blocking_assessment (codes "analysis_disabled") [])
      else none

  unfoldable pub indirect_blocking_reason : List Text → Text
  indirect_blocking_reason [] = codes "indirect_execution_rejected"
  indirect_blocking_reason (c ∷ cs) = c

  -- The floor of an indirect form that is allowed.
  unfoldable pub fold_floor : Indirect F → Assessment Z → Assessment Z
  unfolding greater dedupe_stable
  fold_floor indirect a =
      if ltb 0 indirect.level
      then record a {
        level = greater a.level indirect.level;
        reason_codes = dedupe_stable (a.reason_codes ++ indirect.reason_codes);
        reasons = dedupe_stable (a.reasons ++ indirect.reasons);
      }
      else a

  unfoldable pub fold_indirect : Indirect F → Assessment Z → Assessment Z
  unfolding fold_floor
  fold_indirect indirect a = elim indirect.kind [ indirect_floor ↦ fold_floor indirect a | _ ↦ a ]

  unfoldable pub final_plan : Command → Indirect F → Assessment Z → Plan Z F D
  unfolding identified_plan allowed_plan
  final_plan cmd indirect a =
      if a.blocking
      then record (identified_plan cmd a) { artifacts = indirect.artifacts }
      else record (allowed_plan cmd a) { artifacts = indirect.artifacts }

  unfoldable pub privileged : Option Profile → Bool
  privileged none = false
  privileged (some profile) = profile.is_privilege

  unfoldable pub profile_reasons : Option Profile → List Text
  profile_reasons none = []
  profile_reasons (some profile) = profile.risk_reasons

  -- Behind the gates on the indirect form: the privilege gate and the dimensions.
  unfoldable pub evaluate_profile : Command → N → Indirect F → Result E (Plan Z F D)
  unfolding critical_plan privileged profile_reasons fold_indirect final_plan
  evaluate_profile cmd names indirect =
      let profile = security.resolve_profile names in
      if privileged profile
      then ok (critical_plan cmd (codes "privilege_escalation" ∷ []) (profile_reasons profile))
      else elim (evaluate_dimensions cmd names profile) [
        | err e ↦ err e
        | ok a ↦ ok (final_plan cmd indirect (fold_indirect indirect a))
      ]

  unfoldable pub rejected_assessment : Indirect F → Assessment Z
  unfolding empty_assessment indirect_blocking_reason
  rejected_assessment indirect = record (empty_assessment {Z = Z}) {
    blocking = true;
    blocking_reason = indirect_blocking_reason indirect.reason_codes;
    error_class = indirect.error_class;
    reason_codes = indirect.reason_codes;
  }

  unfoldable pub evaluate_indirect : Command → N → Indirect F → Result E (Plan Z F D)
  unfolding critical_plan rejected_assessment evaluate_profile identified_plan
  evaluate_indirect cmd names indirect = elim indirect.kind [
    | indirect_critical ↦
        ok (record (critical_plan cmd indirect.reason_codes []) { artifacts = indirect.artifacts })
    | indirect_reject ↦ ok (record (identified_plan cmd (rejected_assessment indirect)) {
      artifacts = indirect.artifacts;
    })
    | _ ↦ evaluate_profile cmd names indirect
  ]

  unfoldable pub evaluate_risk : Command → Result E (Plan Z F D)
  unfolding identity_gate evaluate_indirect blocking_plan blocking_assessment
  evaluate_risk cmd =
      if not (is_abs cmd.expanded_cmd)
      then ok (
          blocking_plan (blocking_assessment (codes "non_absolute_path") (codes "path_resolution")))
      else elim (security.resolve_command_names cmd.expanded_cmd) [
        | none ↦ ok (
            blocking_plan (
              blocking_assessment (codes "symlink_resolution_failed") (codes "symlink_resolution")))
        | some names ↦ elim (identity_gate cmd) [
          | some a ↦ ok (blocking_plan a)
          | none ↦
              evaluate_indirect cmd names
                (security.analyze_indirect_execution cmd.expanded_cmd cmd.expanded_args)
        ]
      ]
