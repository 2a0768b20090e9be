-- ===== src/Config/Imports/Laws.antt =====
-- What ProcessEnvImport brings in: nothing but allowed system variables.
use go_safe_cmd_runner.Base.{
  ◌≡◌, refl, inl, inr, true, false, List, none, some, arith, Text, codes, contains, All, ok,
  Result-cases, Option-cases,
}
use go_safe_cmd_runner.Base.Dict.{Dict, lookup}
use go_safe_cmd_runner.Names.{parse_key_value, validate_variable_name}
use go_safe_cmd_runner.Names.Denylist.{is_forbidden_env_var}
use go_safe_cmd_runner.Config.Mappings.{AddsEntry, Some, for_each_entries}
use go_safe_cmd_runner.Config.Errors.{validate_name}
use go_safe_cmd_runner.Config.Imports.{value_or_empty, check_import, import_one, process_env_import}

module _ (env_allowlist : List Text) (system_env : Dict Text) (level : Text) where
  -- A mapping `name=variable` with checked names, whose variable is allowed and not forbidden,
  -- gives the variable's value to the name.
  abbrev pub ImportEntry : Text → Text → Text → Type 0
  ImportEntry mapping name v =
      (variable : Text) × (parse_key_value mapping ≡ some (name, variable))
      × (validate_name name level (codes "env_import") ≡ ok tt)
      × (validate_variable_name variable ≡ ok tt)
      × (is_forbidden_env_var variable ≡ false)
      × (contains env_allowlist variable ≡ true)
      × (v ≡ value_or_empty (lookup variable system_env))

  check_import_ok :
      (name variable : Text) (before : Dict Text)
      → check_import env_allowlist system_env level name variable before ≡ ok tt
      → (validate_name name level (codes "env_import") ≡ ok tt)
        × (lookup name before ≡ none)
        × (validate_variable_name variable ≡ ok tt)
        × (is_forbidden_env_var variable ≡ false)
        × (contains env_allowlist variable ≡ true)
  unfolding check_import
  check_import_ok name variable before h = ground arith

  pub import_one_adds : AddsEntry (import_one env_allowlist system_env level) ImportEntry
  unfolding import_one
  import_one_adds mapping before after h = elim (Option-cases (parse_key_value mapping)) [
    | inl missing ↦ absurd (ground arith)
    | inr ((name, variable), parsed) ↦
        elim (Result-cases (check_import env_allowlist system_env level name variable before)) [
          | inl (e, failed) ↦ absurd (ground arith)
          | inr (done, passed) ↦
              let (good, new, valid, harmless, allowed) =
                check_import_ok name variable before passed in
              (
                name,
                value_or_empty (lookup variable system_env),
                (variable, parsed, good, valid, harmless, allowed, refl),
                new,
                ground arith,
              )
        ]
  ]

  -- After a successful import every mapping has its entry, and every entry comes from a mapping:
  -- its variable is in the allowlist and not on the denylist, and its value is that of the system
  -- environment, or empty where that has none.
  pub process_env_import_entries :
      (env_import : List Text) (result : Dict Text)
      → process_env_import env_allowlist system_env level env_import ≡ ok result
      → All
          (λ m. (name : Text) × (v : Text) × ImportEntry m name v × (lookup name result ≡ some v))
          env_import
        × ((name v : Text)
            → lookup name result ≡ some v
            → Some (λ m. ImportEntry m name v) env_import)
  unfolding process_env_import
  process_env_import_entries env_import result h =
      for_each_entries (import_one env_allowlist system_env level) ImportEntry import_one_adds
        env_import result h
