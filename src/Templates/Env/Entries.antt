-- ===== src/Templates/Env/Entries.antt =====
-- What the expansion of env_vars guarantees.
use go_safe_cmd_runner.Base.{
  ℕ, ◌+◌, ◌≡◌, ◌≢◌, subst, inl, inr, false, not, List, [], ◌∷◌, All, All-append, some, Text, cut,
  contains, ok, Result-cases, Option-cases, Bool-cases, ok_injective,
}
use go_safe_cmd_runner.Base.Dict.{Dict}
use go_safe_cmd_runner.Expand.Lazy.{RawValue}
use go_safe_cmd_runner.Templates.Args.{expand_single_arg}
use go_safe_cmd_runner.Templates.Env.{
  is_empty, validate_env_pre, validate_env_post, keep_if, keep_entries, env_entry, env_field,
  expand_env_from, check_unique, validate_env_unique, expand_template_env,
}

-- The entry is `KEY=VALUE` with a value.
abbrev pub IsEnvEntry : Text → Type 0
IsEnvEntry entry = (key value : Text) × (cut b'=' entry ≡ some (key, value)) × (value ≢ [])

-- No key of the entries occurs twice, or among those seen.
abbrev pub NewKeys : List Text → List Text → Type 0
NewKeys seen [] = Unit
NewKeys seen (entry ∷ rest) =
    (key value : Text) × (cut b'=' entry ≡ some (key, value))
    × (contains seen key ≡ false)
    × NewKeys (key ∷ seen) rest

keep_if-IsEnvEntry :
    (entry key value : Text)
    → cut b'=' entry ≡ some (key, value)
    → All IsEnvEntry (keep_if (not (is_empty value)) entry)
unfolding keep_if
keep_if-IsEnvEntry entry key [] h = tt
keep_if-IsEnvEntry entry key (c ∷ value) h = ((key, c ∷ value, h, (λ e. absurd (cc))), tt)

keep_entries-IsEnvEntry :
    (template_name field : Text) (j : ℕ) (entries out : List Text)
    → keep_entries template_name field j entries ≡ ok out
    → All IsEnvEntry out
unfolding keep_entries
keep_entries-IsEnvEntry template_name field j [] out h = subst (All IsEnvEntry) (ok_injective h) tt
keep_entries-IsEnvEntry template_name field j (entry ∷ rest) out h =
    elim (Option-cases (cut b'=' entry)) [
      | inl missing ↦ absurd (cc (rw (missing, validate_env_post) at h))
      | inr ((key, value), found) ↦
          elim (Result-cases (keep_entries template_name field (j + 1) rest)) [
            | inl (e, failed) ↦ absurd (cc (rw (found, validate_env_post, failed) at h))
            | inr (later, done) ↦
                subst (All IsEnvEntry) (ok_injective (rw (found, validate_env_post, done) at h)) (
                  All-append IsEnvEntry (keep_if (not (is_empty value)) entry) later
                    (keep_if-IsEnvEntry entry key value found)
                    (keep_entries-IsEnvEntry template_name field (j + 1) rest later done))
          ]
    ]

env_entry-IsEnvEntry :
    (params : Dict RawValue) (template_name : Text) (i : ℕ) (entry : Text) (out : List Text)
    → env_entry params template_name i entry ≡ ok out
    → All IsEnvEntry out
unfolding env_entry
env_entry-IsEnvEntry params template_name i entry out h =
    elim (Result-cases (validate_env_pre entry template_name)) [
      | inl (e, failed) ↦ absurd (cc (rw (failed, env_entry) at h))
      | inr (done, passed) ↦
          elim (Result-cases (expand_single_arg params template_name (env_field i) entry)) [
            | inl (e, failed) ↦ absurd (cc (rw (passed, failed, env_entry) at h))
            | inr (expanded, done') ↦
                keep_entries-IsEnvEntry template_name (env_field i) 0 expanded out
                  (rw (passed, done', env_entry) at h)
          ]
    ]

expand_env_from-IsEnvEntry :
    (params : Dict RawValue) (template_name : Text) (i : ℕ) (entries out : List Text)
    → expand_env_from params template_name i entries ≡ ok out
    → All IsEnvEntry out
unfolding expand_env_from
expand_env_from-IsEnvEntry params template_name i [] out h =
    subst (All IsEnvEntry) (ok_injective h) tt
expand_env_from-IsEnvEntry params template_name i (entry ∷ rest) out h =
    elim (Result-cases (env_entry params template_name i entry)) [
      | inl (e, failed) ↦ absurd (cc (rw failed at h))
      | inr (kept, done) ↦ elim (Result-cases (expand_env_from params template_name (i + 1) rest)) [
        | inl (e, failed) ↦ absurd (cc (rw (done, failed) at h))
        | inr (later, done') ↦ subst (All IsEnvEntry) (ok_injective (rw (done, done') at h)) (
            All-append IsEnvEntry kept later
              (env_entry-IsEnvEntry params template_name i entry kept done)
              (expand_env_from-IsEnvEntry params template_name (i + 1) rest later done'))
      ]
    ]

check_unique-NewKeys :
    (template_name : Text) (seen env : List Text)
    → All IsEnvEntry env
    → check_unique template_name seen env ≡ ok tt
    → NewKeys seen env
unfolding check_unique
check_unique-NewKeys template_name seen [] all h = tt
check_unique-NewKeys template_name seen (entry ∷ rest) ((key, value, found, full), all) h =
    elim (Bool-cases (contains seen key)) [
      | inl old ↦ absurd (cc (rw (found, old, check_unique) at h))
      | inr new ↦ (
        key,
        value,
        found,
        new,
        check_unique-NewKeys template_name (key ∷ seen) rest all
            (rw (found, new, check_unique) at h),
      )
    ]

-- After a successful expansion every entry is `KEY=VALUE` with a value, and no key occurs twice.
pub expand_template_env_entries :
    (env : List Text) (params : Dict RawValue) (template_name : Text) (result : List Text)
    → expand_template_env env params template_name ≡ ok result
    → All IsEnvEntry result × NewKeys [] result
unfolding expand_template_env validate_env_unique
expand_template_env_entries env params template_name result h =
    elim (Result-cases (expand_env_from params template_name 0 env)) [
      | inl (e, failed) ↦ absurd (cc (rw failed at h))
      | inr (out, done) ↦ elim (Result-cases (check_unique template_name [] out)) [
        | inl (e, failed) ↦ absurd (cc (rw (done, failed) at h))
        | inr (passed, unique) ↦
            let entries = expand_env_from-IsEnvEntry params template_name 0 env out done in
            subst (λ (r : List Text). All IsEnvEntry r × NewKeys [] r)
              (ok_injective (rw (done, unique) at h))
              (entries, check_unique-NewKeys template_name [] out entries unique)
      ]
    ]
