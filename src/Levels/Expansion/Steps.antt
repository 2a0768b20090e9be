-- ===== src/Levels/Expansion/Steps.antt =====
-- What the steps of a level do to its imported variables.
use go_safe_cmd_runner.Base.{
  ◌≡◌, refl, ◌∙◌, ap, subst, inl, inr, true, false, List, [], ◌∷◌, Option, some, Text, contains,
  All, Result, ok, err, Result-cases, ok_injective,
}
use go_safe_cmd_runner.Base.Dict.{Dict, lookup, UniqueKeys}
use go_safe_cmd_runner.Names.Denylist.{is_forbidden_env_var}
use go_safe_cmd_runner.Expand.Lazy.{RawValue}
use go_safe_cmd_runner.Config.Mappings.{for_each-All, for_each-UniqueKeys}
use go_safe_cmd_runner.Config.Imports.{value_or_empty, import_one, process_env_import}
use go_safe_cmd_runner.Config.Imports.Laws.{ImportEntry, import_one_adds}
use go_safe_cmd_runner.Config.Vars.{process_vars}
use go_safe_cmd_runner.Config.Vars.Kept.{process_vars_kept}
use go_safe_cmd_runner.Templates.Inheritance.{copy_to}
use go_safe_cmd_runner.Templates.Inheritance.Copied.{copy_to-All, copy_to_both, lookup-copy_to}
use go_safe_cmd_runner.Levels.Expansion.{LevelVars, lift_config, import_into, import_at, vars_at}

-- The value is that of a system variable that is in the allowlist and not on the denylist.
abbrev pub IsAllowedImport : List Text → Dict Text → Text → Text → Type 0
IsAllowedImport allowlist system_env name v =
    (variable : Text) × (is_forbidden_env_var variable ≡ false)
    × (contains allowlist variable ≡ true)
    × (v ≡ value_or_empty (lookup variable system_env))

pub lift_config_ok : {A : Type 0} (r : Result _ A) (a : A) → lift_config r ≡ ok a → r ≡ ok a
lift_config_ok (ok b) a h = ap ok (cc)
lift_config_ok (err e) a h = absurd (cc)

-- Every imported variable is of a kind, and has its imported value.
pub record IsGood (P : Text → Text → Type 0) (v : LevelVars) : Type 0 where
  pub imported : All (λ (e : Text × Text). P e.0 e.1) v.env_import_vars
  pub kept :
      (name x : Text)
      → lookup name v.env_import_vars ≡ some x
      → lookup name v.expanded_vars ≡ some x

pub imports-All :
    (P : Text → Text → Type 0) (allowlist : List Text) (system_env : Dict Text) (level : Text)
    → ((name x : Text) → IsAllowedImport allowlist system_env name x → P name x)
    → (env_import : List Text) (imported : Dict Text)
    → process_env_import allowlist system_env level env_import ≡ ok imported
    → All (λ (e : Text × Text). P e.0 e.1) imported
unfolding process_env_import
imports-All P allowlist system_env level gives env_import imported h =
    for_each-All (import_one allowlist system_env level) (ImportEntry allowlist system_env level)
      (import_one_adds allowlist system_env level) P
      (λ mapping name v (variable, parsed, good, valid, harmless, allowed, same).
        gives name v (variable, harmless, allowed, same))
      env_import [] imported tt h

pub imports-UniqueKeys :
    (allowlist : List Text) (system_env : Dict Text) (level : Text) (env_import : List Text)
    (imported : Dict Text)
    → process_env_import allowlist system_env level env_import ≡ ok imported
    → UniqueKeys imported
unfolding process_env_import
imports-UniqueKeys allowlist system_env level env_import imported h =
    for_each-UniqueKeys (import_one allowlist system_env level)
      (ImportEntry allowlist system_env level) (import_one_adds allowlist system_env level)
      env_import [] imported tt h

module _ (P : Text → Text → Type 0) where
  pub import_into-IsGood :
      (v : LevelVars) (imported : Dict Text)
      → IsGood P v
      → All (λ (e : Text × Text). P e.0 e.1) imported
      → IsGood P (import_into v imported)
  unfolding import_into
  import_into-IsGood v imported good all = record {
    imported = copy_to-All P imported v.env_import_vars good.imported all;
    kept = copy_to_both imported v.env_import_vars v.expanded_vars good.kept;
  }

  pub import_at-IsGood :
      (allowlist : List Text) (system_env : Dict Text) (level : Text) (env_import : List Text)
      (v v' : LevelVars)
      → ((name x : Text) → IsAllowedImport allowlist system_env name x → P name x)
      → IsGood P v
      → import_at allowlist system_env level env_import v ≡ ok v'
      → IsGood P v'
  unfolding import_at
  import_at-IsGood allowlist system_env level [] v v' gives good h =
      subst (IsGood P) (ok_injective h) good
  import_at-IsGood allowlist system_env level (mapping ∷ rest) v v' gives good h =
      elim (Result-cases (process_env_import allowlist system_env level (mapping ∷ rest))) [
        | inl (e, failed) ↦ absurd (cc (rw failed at h))
        | inr (imported, done) ↦ subst (IsGood P) (ok_injective (rw done at h)) (
            import_into-IsGood v imported good
              (imports-All P allowlist system_env level gives (mapping ∷ rest) imported done))
      ]

  pub vars_at-IsGood :
      (level : Text) (vars : Option (Dict RawValue)) (v v' : LevelVars)
      → IsGood P v
      → vars_at level vars v ≡ ok v'
      → IsGood P v'
  unfolding vars_at
  vars_at-IsGood level vars v v' good h =
      elim (Result-cases
        (process_vars v.expanded_vars v.expanded_array_vars v.env_import_vars level vars)) [
          | inl (e, failed) ↦ absurd (cc (rw failed at h))
          | inr ((strings, arrays), done) ↦ subst (IsGood P) (ok_injective (rw done at h)) (record {
            imported = good.imported;
            kept = λ name x found.
                process_vars_kept v.expanded_vars v.expanded_array_vars v.env_import_vars level vars
                  name x x strings arrays found (good.kept name x found) done;
          })
        ]

  pub auto_and_imports :
      (auto imported : Dict Text)
      → UniqueKeys imported
      → (name x : Text) → lookup name imported ≡ some x
      → lookup name (copy_to auto imported) ≡ some x
  auto_and_imports auto imported unique name x found =
      lookup-copy_to name imported auto unique ∙ rw found refl
