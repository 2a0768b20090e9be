-- ===== src/Templates/Env.antt =====
-- The expansion of a template's env_vars, of internal/runner/config/template_expansion.go.
pub mod Entries
use go_safe_cmd_runner.Base.{
  ℕ, ◌+◌, ◌≡◌, ◌≢◌, refl, sym, ◌∙◌, ap, subst, inl, inr, Bool, true, false, not, List, [], ◌∷◌,
  ◌++◌, All, All-append, Option, none, some, Text, codes, text_eq, cut, contains, decimal,
  if◌then◌else◌, Result, ok, err, ◌>>=◌, ◌>>◌, reject_if, arith, Result-cases, Option-cases,
  Bool-cases, ok_injective,
}
use go_safe_cmd_runner.Base.Dict.{Dict}
use go_safe_cmd_runner.Expand.Lazy.{RawValue}
use go_safe_cmd_runner.Templates.Errors.{
  TemplateError, placeholder_in_env_key, invalid_env_format, duplicate_env_variable,
}
use go_safe_cmd_runner.Templates.Placeholders.{Placeholder, parse_placeholders}
use go_safe_cmd_runner.Templates.Args.{expand_single_arg}

abbrev pub is_empty {ℓ} : {A : Type ℓ} → List A → Bool
is_empty [] = true
is_empty (x ∷ xs) = false

unfoldable pub is_whole : Text → List Placeholder → Bool
is_whole entry (ph ∷ []) = text_eq entry ph.full_match
is_whole entry _ = false

-- No placeholder stands in the key of an entry.
unfoldable pub check_key : Text → Text → Option (Text × Text) → Result TemplateError (Unit {0})
check_key template_name entry none = ok tt
check_key template_name entry (some (key, value)) = parse_placeholders key >>= λ found.
    reject_if (not (is_empty found)) (placeholder_in_env_key template_name entry key)

unfoldable pub validate_env_pre : Text → Text → Result TemplateError (Unit {0})
unfolding is_whole check_key
validate_env_pre entry template_name = parse_placeholders entry >>= λ placeholders.
    if is_whole entry placeholders then ok tt else check_key template_name entry (cut b'=' entry)

-- Whether an entry is kept: one without a value is left out.
unfoldable pub validate_env_post : Text → Text → Text → ℕ → Result TemplateError Bool
validate_env_post entry template_name field i = elim (cut b'=' entry) [
  | none ↦ err (invalid_env_format template_name field i entry)
  | some (key, value) ↦ ok (not (is_empty value))
]

unfoldable pub keep_if : Bool → Text → List Text
keep_if true entry = entry ∷ []
keep_if false entry = []

-- The loop over the entries that one entry became.
unfoldable pub keep_entries : Text → Text → ℕ → List Text → Result TemplateError (List Text)
unfolding validate_env_post keep_if
keep_entries template_name field j [] = ok []
keep_entries template_name field j (entry ∷ rest) =
    validate_env_post entry template_name field j >>= λ kept.
    keep_entries template_name field (j + 1) rest >>= λ later. ok (keep_if kept entry ++ later)

abbrev pub env_field : ℕ → Text
env_field i = codes "env_vars[" ++ (decimal i ++ codes "]")

unfoldable pub env_entry : Dict RawValue → Text → ℕ → Text → Result TemplateError (List Text)
unfolding validate_env_pre keep_entries
env_entry params template_name i entry = do
  validate_env_pre entry template_name
  expanded ← expand_single_arg params template_name (env_field i) entry
  keep_entries template_name (env_field i) 0 expanded

-- The loop over the entries of a template, from an index on.
unfoldable pub expand_env_from :
    Dict RawValue → Text → ℕ → List Text → Result TemplateError (List Text)
unfolding env_entry
expand_env_from params template_name i [] = ok []
expand_env_from params template_name i (entry ∷ rest) =
    env_entry params template_name i entry >>= λ kept.
    expand_env_from params template_name (i + 1) rest >>= λ later. ok (kept ++ later)

-- The loop over the entries, with the keys that were seen.
unfoldable pub check_unique : Text → List Text → List Text → Result TemplateError (Unit {0})
check_unique template_name seen [] = ok tt
check_unique template_name seen (entry ∷ rest) = elim (cut b'=' entry) [
  | none ↦ check_unique template_name seen rest
  | some (key, value) ↦
      reject_if (contains seen key) (duplicate_env_variable template_name key)
      >> check_unique template_name (key ∷ seen) rest
]

unfoldable pub validate_env_unique : List Text → Text → Result TemplateError (Unit {0})
unfolding check_unique
validate_env_unique env template_name = check_unique template_name [] env

unfoldable pub expand_template_env :
    List Text → Dict RawValue → Text → Result TemplateError (List Text)
unfolding expand_env_from validate_env_unique
expand_template_env env params template_name =
    expand_env_from params template_name 0 env >>= λ result.
    validate_env_unique result template_name >>= λ _. ok result
