-- ===== src/Risk/Assessment.antt =====
-- The assessment of internal/runner/base/risk/evaluator.go and how a dimension adds to it. A level is
-- the number of its constant: unknown 0, low 1, medium 2, high 3, critical 4. A reason is its text.
use go_safe_cmd_runner.Base.{
  ℕ, Bool, true, false, List, [], ◌∷◌, ◌++◌, Text, contains, text_eq, ltb, if◌then◌else◌,
}

pub record Assessment (Z : Type 0) : Type 0 where
  pub level : ℕ
  pub blocking : Bool
  pub blocking_reason : Text
  pub error_class : Text
  pub reason_codes : List Text
  pub reasons : List Text
  pub network_type : Text
  pub operand_zones : List Z

abbrev pub low : ℕ
low = 1

abbrev pub medium : ℕ
medium = 2

abbrev pub high : ℕ
high = 3

abbrev pub critical : ℕ
critical = 4

-- `max`
unfoldable pub greater : ℕ → ℕ → ℕ
greater m n = if ltb m n then n else m

-- The loop of DedupeStable: what was seen, and the rest.
unfoldable pub dedupe : List Text → List Text → List Text
dedupe seen [] = []
dedupe seen (x ∷ xs) =
    let rest = dedupe seen xs in
    let rest' = dedupe (x ∷ seen) xs in if contains seen x then rest else x ∷ rest'

unfoldable pub dedupe_stable : List Text → List Text
unfolding dedupe
dedupe_stable xs = dedupe [] xs

module _ {Z : Type 0} where
  -- The zero value of Go.
  unfoldable pub empty_assessment : Assessment Z
  empty_assessment = record {
    level = 0;
    blocking = false;
    blocking_reason = [];
    error_class = [];
    reason_codes = [];
    reasons = [];
    network_type = [];
    operand_zones = [];
  }

  unfoldable pub add_dimension : ℕ → Text → Assessment Z → Assessment Z
  unfolding greater
  add_dimension level code a = record a {
    level = greater a.level level;
    reason_codes = a.reason_codes ++ code ∷ [];
  }

  unfoldable pub blocking_assessment : Text → Text → Assessment Z
  unfolding empty_assessment
  blocking_assessment reason error_class = record empty_assessment {
    blocking = true;
    blocking_reason = reason;
    error_class = error_class;
    reason_codes = if text_eq reason [] then [] else reason ∷ [];
  }

-- What destination zoning says of a command.
pub record LocationResult (Z : Type 0) : Type 0 where
  pub applies : Bool
  pub recognized : Bool
  pub level : ℕ
  pub reason_codes : List Text
  pub operands : List Z

unfoldable pub fold_zoning : {Z : Type 0} → LocationResult Z → Assessment Z → Assessment Z
unfolding greater dedupe_stable
fold_zoning zone a =
    if zone.applies
    then record a {
      level = greater a.level zone.level;
      reason_codes = dedupe_stable (a.reason_codes ++ zone.reason_codes);
      operand_zones = zone.operands;
    }
    else a

pub data BinaryAnalysisClass : Type 0 where
  uncertain clean network high_risk : BinaryAnalysisClass
  unknown_class : ℕ → BinaryAnalysisClass

-- A deny, or the assessment that goes on.
pub data ClassOutcome (Z : Type 0) : Type 0 where
  blocked goes_on : Assessment Z → ClassOutcome Z

unfoldable pub first_code : List Text → Text
first_code [] = []
first_code (c ∷ cs) = c

unfoldable pub blocked_class : {Z : Type 0} → List Text → Assessment Z
unfolding blocking_assessment first_code
blocked_class reason_codes = record (blocking_assessment [] []) {
  reason_codes = reason_codes;
  blocking_reason = first_code reason_codes;
}

unfoldable pub apply_class_result :
    {Z : Type 0} → BinaryAnalysisClass → List Text → Assessment Z → ClassOutcome Z
unfolding blocked_class greater
apply_class_result uncertain reason_codes a = blocked (blocked_class reason_codes)
apply_class_result high_risk reason_codes a =
    goes_on
      (record a { level = greater a.level high; reason_codes = a.reason_codes ++ reason_codes })
apply_class_result network reason_codes a =
    goes_on
      (record a { level = greater a.level medium; reason_codes = a.reason_codes ++ reason_codes })
apply_class_result clean reason_codes a = goes_on a
apply_class_result (unknown_class n) reason_codes a = blocked (blocked_class reason_codes)
