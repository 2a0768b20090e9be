-- ===== src/Tests/Risks.antt =====
-- The risk of a command at concrete inputs.
use go_safe_cmd_runner.Base.{
  ℕ, ◌≤◌, ◌↔◌, Bool, All, ◌≡◌, refl, true, false, none, some, [], ◌∷◌, Text, codes, has_prefix,
  text_eq, ok,
}
use go_safe_cmd_runner.Expand.Strings.{is_abs}
use go_safe_cmd_runner.Risk.Assessment.{
  low, clean, empty_assessment, apply_class_result, fold_zoning,
}
use go_safe_cmd_runner.Risk.Evaluator.{
  Command, Security, Plan, opened, indirect_none, zone_of, apply_coreutils_risk,
  apply_profile_factors, has_profile, add_if, named_dimensions, after_class, binary_dimension,
  evaluate_dimensions, allowed_plan, identity_gate, fold_indirect, final_plan, privileged,
  evaluate_profile, evaluate_indirect, evaluate_risk,
}
use go_safe_cmd_runner.Risk.Evaluator.Gates.{Passes, evaluate_risk-Passes}
use go_safe_cmd_runner.Risk.Evaluator.Levels.{raising, evaluate_dimensions_level}
use go_safe_cmd_runner.Risk.Evaluator.Decided.{Decided, evaluate_risk-Decided}

-- Names, operands, artifacts, files and errors are texts; nothing is dangerous.
abbrev harmless : Security Text Text Text Text Text
harmless = record {
  resolve_command_names = λ path. some path;
  analysis_enabled = true;
  analyze_indirect_execution = λ path args. record {
    kind = indirect_none;
    level = 0;
    reason_codes = [];
    reasons = [];
    error_class = [];
    artifacts = [];
  };
  resolve_profile = λ names. none;
  classify_destination_zone = λ cmd names. none;
  coreutils_command_risk = λ path args. some (0, false);
  has_setuid_or_setgid_bit = λ path. some false;
  is_destructive_file_operation = λ names args. false;
  system_modification_risk = λ names. 0;
  profile_factor_risk = λ profile args suppress. (0, []);
  check_dangerous_arg_patterns = λ names args. 0;
  is_arbitrary_code_execution_runner = λ names. false;
  has_network_arguments = λ args. false;
  classify = λ path hash. ok (clean, []);
  open_identity = λ cmd. opened (codes "fd");
}

abbrev ls : Command
ls = record {
  expanded_cmd = codes "/bin/ls";
  expanded_args = codes "-l" ∷ [];
  content_hash = codes "sha256:0";
}

abbrev plan : Plan Text Text Text
plan = record {
  resolved_path = codes "/bin/ls";
  resolved_argv = codes "/bin/ls" ∷ codes "-l" ∷ [];
  identity = some (record {
    fd = some (codes "fd");
    resolved_path = codes "/bin/ls";
    content_hash = codes "sha256:0";
  });
  assessment = record {
    level = 1;
    blocking = false;
    blocking_reason = [];
    error_class = [];
    reason_codes = [];
    reasons = [];
    network_type = [];
    operand_zones = [];
  };
  artifacts = [];
}

evaluated : evaluate_risk Text Text Text Text Text harmless ls ≡ ok plan
unfolding evaluate_risk evaluate_indirect evaluate_profile privileged final_plan fold_indirect
    identity_gate allowed_plan evaluate_dimensions binary_dimension after_class named_dimensions
    add_if has_profile apply_profile_factors apply_coreutils_risk zone_of is_abs has_prefix text_eq
    empty_assessment apply_class_result fold_zoning
evaluated = refl

evaluate_risk-Passes_example : Passes Text Text Text Text Text harmless ls plan
evaluate_risk-Passes_example =
    evaluate_risk-Passes Text Text Text Text Text harmless ls plan evaluated (λ e. absurd (cc))

dimensions :
    evaluate_dimensions Text Text Text Text Text harmless ls (codes "/bin/ls") none
    ≡ ok plan.assessment
unfolding evaluate_dimensions binary_dimension after_class named_dimensions add_if has_profile
    apply_profile_factors apply_coreutils_risk zone_of is_abs has_prefix text_eq empty_assessment
    apply_class_result fold_zoning
dimensions = refl

evaluate_dimensions_level_example :
    (coreutils : ℕ × Bool) × (harmless.coreutils_command_risk (codes "/bin/ls") (codes "-l" ∷ [])
      ≡ some coreutils)
    × ((x : ℕ)
        → (plan.assessment.level ≤ x)
          ↔ All
              (λ n. n ≤ x)
              (low ∷ raising Text Text Text Text Text harmless ls (codes "/bin/ls") none coreutils))
evaluate_dimensions_level_example =
    evaluate_dimensions_level Text Text Text Text Text harmless ls (codes "/bin/ls") none
      plan.assessment dimensions refl

evaluate_risk-Decided_example : Decided Text Text Text Text Text harmless ls plan
evaluate_risk-Decided_example =
    evaluate_risk-Decided Text Text Text Text Text harmless ls plan evaluated
