-- ===== src/Levels/Expansion/Fields.antt =====
-- What an expanded command runs.
use go_safe_cmd_runner.Base.{
  ℕ, ◌+◌, ◌≡◌, refl, subst, inl, inr, List, [], ◌∷◌, ◌++◌, Option, none, some, Text, codes, decimal,
  All, ok, Result-cases, ok_injective, ℤ,
}
use go_safe_cmd_runner.Base.Dict.{Dict, lookup}
use go_safe_cmd_runner.Expand.Pieces.{max_recursion_depth}
use go_safe_cmd_runner.Expand.Meaning.{meaning}
use go_safe_cmd_runner.Expand.Strings.{expand_string}
use go_safe_cmd_runner.Expand.Strings.Refinement.{expand_string-meaning}
use go_safe_cmd_runner.Config.Mappings.{Some}
use go_safe_cmd_runner.Config.Env.{process_env}
use go_safe_cmd_runner.Config.Env.Laws.{EnvEntry, process_env_entries}
use go_safe_cmd_runner.Templates.Spec.{CommandSpec, CommandTemplate}
use go_safe_cmd_runner.Templates.Inheritance.{or_default}
use go_safe_cmd_runner.Templates.Command.{resolve_and_prepare_command_spec}
use go_safe_cmd_runner.Levels.Specs.{RuntimeGlobal, RuntimeGroup, RuntimeCommand}
use go_safe_cmd_runner.Levels.Timeouts.{
  resolve_timeout, resolve_output_size_limit, default_timeout, default_output_size_limit,
}
use go_safe_cmd_runner.Levels.Expansion.{
  expand_list, command_level, expand_command_env_import, expand_command_vars, expand_command_fields,
  group_vars, expand_resolved, expand_command,
}

module _ (vars : Dict Text) where
  -- The text is the meaning of the raw one.
  abbrev pub IsMeaning : Text → Text → Type 0
  IsMeaning raw text = meaning (λ x. lookup x vars) max_recursion_depth raw ≡ some text

  -- The texts are the meanings of the raw ones, one by one.
  abbrev pub AreMeanings : List Text → List Text → Type 0
  AreMeanings [] [] = Unit
  AreMeanings (raw ∷ raws) (text ∷ texts) = IsMeaning raw text × AreMeanings raws texts
  AreMeanings _ _ = ⊥

  -- Every mapping has its variable in the environment, and every variable of the environment comes
  -- from a mapping: it has a valid name that is not on the denylist, and the meaning of the
  -- mapping's text.
  abbrev pub IsEnvOf : Text → List Text → Dict Text → Type 0
  IsEnvOf level env_vars env =
      All
        (λ m.
          (name : Text) × (v : Text) × EnvEntry vars level m name v × (lookup name env ≡ some v))
        env_vars
      × ((name v : Text)
          → lookup name env ≡ some v
          → Some (λ m. EnvEntry vars level m name v) env_vars)

  expand_list-AreMeanings :
      (level field : Text) (i : ℕ) (raws texts : List Text)
      → expand_list vars level field i raws ≡ ok texts
      → AreMeanings raws texts
  unfolding expand_list
  expand_list-AreMeanings level field i [] texts h = subst (AreMeanings []) (ok_injective h) tt
  expand_list-AreMeanings level field i (s ∷ rest) texts h =
      let whole = field ++ (codes "[" ++ (decimal i ++ codes "]")) in
      elim (Result-cases (expand_string s vars level whole)) [
        | inl (e, failed) ↦ absurd (cc (rw failed at h))
        | inr (expanded, h1) ↦ elim (Result-cases (expand_list vars level field (i + 1) rest)) [
          | inl (e, failed) ↦ absurd (cc (rw (h1, failed) at h))
          | inr (later, h2) ↦ subst (AreMeanings (s ∷ rest)) (ok_injective (rw (h1, h2) at h)) (
            (expand_string-meaning vars level whole s expanded).0 h1,
            expand_list-AreMeanings level field (i + 1) rest later h2,
          )
        ]
      ]

  -- The cmd, the args and the environment of a specification.
  AreFields : CommandSpec → Text → List Text → Dict Text → Type 0
  AreFields spec cmd args env =
      IsMeaning spec.cmd cmd
      × AreMeanings spec.args args
      × IsEnvOf (command_level spec.name) spec.env_vars env

  expand_command_fields_lem :
      (spec : CommandSpec) (fields : Text × List Text × Dict Text)
      → expand_command_fields spec vars ≡ ok fields
      → AreFields spec fields.0 fields.1 fields.2
  unfolding expand_command_fields AreFields
  expand_command_fields_lem spec fields h =
      let level = command_level spec.name in
      elim (Result-cases (expand_string spec.cmd vars level (codes "cmd"))) [
        | inl (e, failed) ↦ absurd (cc (rw failed at h))
        | inr (cmd, h1) ↦ elim (Result-cases (expand_list vars level (codes "args") 0 spec.args)) [
          | inl (e, failed) ↦ absurd (cc (rw (h1, failed) at h))
          | inr (args, h2) ↦ elim (Result-cases (process_env vars level spec.env_vars)) [
            | inl (e, failed) ↦ absurd (cc (rw (h1, h2, failed) at h))
            | inr (env, h3) ↦
                subst (λ (f : Text × List Text × Dict Text). AreFields spec f.0 f.1 f.2)
                  (ok_injective (rw (h1, h2, h3) at h))
                  (
                    (expand_string-meaning vars level (codes "cmd") spec.cmd cmd).0 h1,
                    expand_list-AreMeanings level (codes "args") 0 spec.args args h2,
                    process_env_entries vars level spec.env_vars env h3,
                  )
          ]
        ]
      ]

abbrev pub value_or : Option ℤ → ℤ → ℤ
value_or none v = v
value_or (some w) v = w

timeout_lem :
    (cmd_timeout global_timeout : Option ℤ) (command_name group_name : Text)
    → (resolve_timeout cmd_timeout none global_timeout command_name group_name).0
      ≡ value_or (or_default cmd_timeout global_timeout) default_timeout
unfolding resolve_timeout
timeout_lem (some v) global_timeout command_name group_name = refl
timeout_lem none (some v) command_name group_name = refl
timeout_lem none none command_name group_name = refl

limit_lem :
    (cmd_limit global_limit : Option ℤ)
    → resolve_output_size_limit cmd_limit global_limit
      ≡ value_or (or_default cmd_limit global_limit) default_output_size_limit
unfolding resolve_output_size_limit
limit_lem (some v) global_limit = refl
limit_lem none (some v) = refl
limit_lem none none = refl

-- What is run, in an environment and within limits.
abbrev IsExpanded : CommandSpec → Option ℤ → Option ℤ → RuntimeCommand → Type 0
IsExpanded spec timeout limit c =
    (c.spec ≡ spec)
    × AreFields c.expanded_vars spec c.expanded_cmd c.expanded_args c.expanded_env
    × (c.effective_timeout ≡ value_or (or_default spec.timeout timeout) default_timeout)
    × (c.effective_output_size_limit
        ≡ value_or (or_default spec.output_size_limit limit) default_output_size_limit)

expand_resolved-IsExpanded :
    (spec : CommandSpec) (group : RuntimeGroup) (g : Option RuntimeGlobal)
    (timeout limit : Option ℤ) (c : RuntimeCommand)
    → expand_resolved spec group g timeout limit ≡ ok c
    → IsExpanded spec timeout limit c
unfolding expand_resolved
expand_resolved-IsExpanded spec group g timeout limit c h =
    elim (Result-cases (expand_command_env_import spec (group_vars group) group g)) [
      | inl (e, failed) ↦ absurd (cc (rw failed at h))
      | inr (imported, h1) ↦ elim (Result-cases (expand_command_vars spec imported)) [
        | inl (e, failed) ↦ absurd (cc (rw (h1, failed) at h))
        | inr (v, h2) ↦ elim (Result-cases (expand_command_fields spec v.expanded_vars)) [
          | inl (e, failed) ↦ absurd (cc (rw (h1, h2, failed) at h))
          | inr (fields, h3) ↦
              subst (IsExpanded spec timeout limit) (ok_injective (rw (h1, h2, h3) at h)) (
                refl,
                expand_command_fields_lem v.expanded_vars spec fields h3,
                timeout_lem spec.timeout timeout spec.name group.spec.name,
                limit_lem spec.output_size_limit limit,
              )
        ]
      ]
    ]

-- A command that expands comes from its resolved specification: its cmd and args are the meanings of
-- those under its variables, its environment has one variable for each mapping of env_vars and no
-- other, each of a valid name that is not on the denylist and with the meaning of its mapping's
-- text, and each limit is the command's, else the global one, else the default.
pub expand_command-IsMeaning :
    (spec : CommandSpec) (templates : Dict CommandTemplate) (group : RuntimeGroup)
    (g : Option RuntimeGlobal) (timeout limit : Option ℤ) (c : RuntimeCommand)
    → expand_command spec templates group g timeout limit ≡ ok c
    → (warnings : List Text) × (resolve_and_prepare_command_spec spec templates
        ≡ ok (c.spec, warnings))
      × IsMeaning c.expanded_vars c.spec.cmd c.expanded_cmd
      × AreMeanings c.expanded_vars c.spec.args c.expanded_args
      × IsEnvOf c.expanded_vars (command_level c.spec.name) c.spec.env_vars c.expanded_env
      × (c.effective_timeout ≡ value_or (or_default c.spec.timeout timeout) default_timeout)
      × (c.effective_output_size_limit
          ≡ value_or (or_default c.spec.output_size_limit limit) default_output_size_limit)
unfolding expand_command AreFields
expand_command-IsMeaning spec templates group g timeout limit c h =
    elim (Result-cases (resolve_and_prepare_command_spec spec templates)) [
      | inl (e, failed) ↦ absurd (cc (rw failed at h))
      | inr ((working_spec, warnings), resolved) ↦
          let (same, (cmd, args, env), time, size) =
            expand_resolved-IsExpanded working_spec group g timeout limit c (rw resolved at h) in
          rw same (warnings, resolved, cmd, args, env, time, size)
    ]
