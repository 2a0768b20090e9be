-- ===== src/Config/Env/Laws.antt =====
-- What ProcessEnv sets.
use go_safe_cmd_runner.Base.{
  ◌≡◌, inl, inr, false, List, none, some, arith, Text, codes, All, ok, Result-cases, Option-cases,
}
use go_safe_cmd_runner.Base.Dict.{Dict, lookup}
use go_safe_cmd_runner.Names.{parse_key_value, validate_variable_name}
use go_safe_cmd_runner.Names.Denylist.{is_forbidden_env_var}
use go_safe_cmd_runner.Expand.Pieces.{max_recursion_depth}
use go_safe_cmd_runner.Expand.Meaning.{meaning}
use go_safe_cmd_runner.Expand.Strings.{expand_string}
use go_safe_cmd_runner.Expand.Strings.Refinement.{expand_string-meaning}
use go_safe_cmd_runner.Config.Mappings.{AddsEntry, Some, for_each_entries}
use go_safe_cmd_runner.Config.Env.{check_env, env_one, process_env}

module _ (internal_vars : Dict Text) (level : Text) where
  -- A mapping `name=text` with a valid name that is not forbidden sets the name to the meaning of
  -- the text.
  abbrev pub EnvEntry : Text → Text → Text → Type 0
  EnvEntry mapping name v =
      (text : Text) × (parse_key_value mapping ≡ some (name, text))
      × (validate_variable_name name ≡ ok tt)
      × (is_forbidden_env_var name ≡ false)
      × (meaning (λ x. lookup x internal_vars) max_recursion_depth text ≡ some v)

  check_env_ok :
      (mapping name : Text) (before : Dict Text)
      → check_env internal_vars level mapping name before ≡ ok tt
      → (lookup name before ≡ none)
        × (validate_variable_name name ≡ ok tt)
        × (is_forbidden_env_var name ≡ false)
  unfolding check_env
  check_env_ok mapping name before h = ground arith

  pub env_one_adds : AddsEntry (env_one internal_vars level) EnvEntry
  unfolding env_one
  env_one_adds mapping before after h = elim (Option-cases (parse_key_value mapping)) [
    | inl missing ↦ absurd (ground arith)
    | inr ((name, text), parsed) ↦
        elim (Result-cases (check_env internal_vars level mapping name before)) [
          | inl (e, failed) ↦ absurd (ground arith)
          | inr (done, passed) ↦
              elim (Result-cases (expand_string text internal_vars level (codes "env"))) [
                | inl (e, failed) ↦ absurd (ground arith)
                | inr (v, expanded) ↦
                    let (new, valid, harmless) = check_env_ok mapping name before passed in
                    (
                      name,
                      v,
                      (
                        text,
                        parsed,
                        valid,
                        harmless,
                        (expand_string-meaning internal_vars level (codes "env") text v).0 expanded,
                      ),
                      new,
                      ground arith,
                    )
              ]
        ]
  ]

  -- After a successful run every mapping has its entry, and every entry comes from a mapping: its
  -- name is valid and not on the denylist, and its value is the meaning of the mapping's text.
  pub process_env_entries :
      (env : List Text) (result : Dict Text)
      → process_env internal_vars level env ≡ ok result
      → All
          (λ m. (name : Text) × (v : Text) × EnvEntry m name v × (lookup name result ≡ some v))
          env
        × ((name v : Text) → lookup name result ≡ some v → Some (λ m. EnvEntry m name v) env)
  unfolding process_env
  process_env_entries env result h =
      for_each_entries (env_one internal_vars level) EnvEntry env_one_adds env result h
