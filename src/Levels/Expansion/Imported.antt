-- ===== src/Levels/Expansion/Imported.antt =====
-- What the imported variables of a level come from, and that they keep their values.
use go_safe_cmd_runner.Base.{
  ◌≡◌, refl, ◌⊎◌, inl, inr, List, [], Option, some, Text, codes, ok, Result-cases, ok_injective, ℤ,
  ℕ,
}
use go_safe_cmd_runner.Base.Dict.{Dict, lookup, lookup_All}
use go_safe_cmd_runner.Config.Imports.{process_env_import}
use go_safe_cmd_runner.Config.Env.{process_env}
use go_safe_cmd_runner.Templates.Inheritance.{copy_to}
use go_safe_cmd_runner.Templates.Spec.{CommandSpec, CommandTemplate}
use go_safe_cmd_runner.Templates.Command.{resolve_and_prepare_command_spec}
use go_safe_cmd_runner.Levels.Specs.{
  GlobalSpec, GroupSpec, RuntimeGlobal, RuntimeGroup, RuntimeCommand,
}
use go_safe_cmd_runner.Levels.SystemEnv.{parse_system_environment, generate_global_auto_vars}
use go_safe_cmd_runner.Levels.CmdAllowed.{expand_cmd_allowed, group_level}
use go_safe_cmd_runner.Levels.Expansion.{
  LevelVars, lift_config, expand_list, import_at, vars_at, expand_global,
  determine_effective_env_allowlist, inherited_vars, expand_group, command_level,
  expand_command_env_import, expand_command_vars, expand_command_fields, group_vars,
  expand_resolved, expand_command,
}
use go_safe_cmd_runner.Levels.Expansion.Steps.{
  IsAllowedImport, IsGood, imports-All, imports-UniqueKeys, import_at-IsGood, vars_at-IsGood,
  auto_and_imports,
}

module _ (P : Text → Text → Type 0) where
  global_lem :
      (environ : List Text) (datetime : Text) (pid : ℕ) (spec : GlobalSpec) (g : RuntimeGlobal)
      → ((name x : Text)
          → IsAllowedImport spec.env_allowed (parse_system_environment environ) name x
          → P name x)
      → expand_global environ datetime pid spec ≡ ok g
      → (g.spec ≡ spec)
        × (g.system_env ≡ parse_system_environment environ)
        × IsGood P (inherited_vars (some g))
  unfolding expand_global inherited_vars
  global_lem environ datetime pid spec g gives h =
      let system_env = parse_system_environment environ in
      elim (Result-cases
        (process_env_import spec.env_allowed system_env (codes "global") spec.env_import)) [
          | inl (e, failed) ↦ absurd (cc (rw failed at h))
          | inr (imported, h1) ↦
              let start : LevelVars = record {
                expanded_vars = copy_to (generate_global_auto_vars datetime pid) imported;
                expanded_array_vars = [];
                env_import_vars = imported;
              } in
              let good : IsGood P start = record {
                imported =
                    imports-All P spec.env_allowed system_env (codes "global") gives spec.env_import
                      imported h1;
                kept = auto_and_imports P (generate_global_auto_vars datetime pid) imported (
                    imports-UniqueKeys spec.env_allowed system_env (codes "global") spec.env_import
                      imported h1);
              } in
              elim (Result-cases (vars_at (codes "global") spec.vars start)) [
                | inl (e, failed) ↦ absurd (cc (rw (h1, failed) at h))
                | inr (v, h2) ↦
                    elim (Result-cases
                      (lift_config (process_env v.expanded_vars (codes "global") spec.env_vars))) [
                        | inl (e, failed) ↦ absurd (cc (rw (h1, h2, failed) at h))
                        | inr (env, h3) ↦
                            elim (Result-cases (
                              expand_list v.expanded_vars (codes "global") (codes "verify_files") 0
                                spec.verify_files)) [
                                  | inl (e, failed) ↦ absurd (cc (rw (h1, h2, h3, failed) at h))
                                  | inr (files, h4) ↦
                                      rw (← ok_injective (rw (h1, h2, h3, h4) at h)) (
                                        refl,
                                        refl,
                                        vars_at-IsGood P (codes "global") spec.vars start v good h2,
                                      )
                                ]
                      ]
              ]
        ]

  group_lem :
      (eval_symlinks : Text → Option Text) (spec : GroupSpec) (g : RuntimeGlobal) (r : RuntimeGroup)
      → ((name x : Text)
          → IsAllowedImport
              (determine_effective_env_allowlist spec.env_allowed g.spec.env_allowed)
              g.system_env
              name
              x
          → P name x)
      → IsGood P (inherited_vars (some g))
      → expand_group eval_symlinks spec (some g) ≡ ok r
      → (r.spec ≡ spec) × IsGood P (group_vars r)
  unfolding expand_group group_vars
  group_lem eval_symlinks spec g r gives good h =
      let level = group_level spec.name in
      let allowlist = determine_effective_env_allowlist spec.env_allowed g.spec.env_allowed in
      elim (Result-cases
        (import_at allowlist g.system_env level spec.env_import (inherited_vars (some g)))) [
          | inl (e, failed) ↦ absurd (cc (rw failed at h))
          | inr (imported, h1) ↦ elim (Result-cases (vars_at level spec.vars imported)) [
            | inl (e, failed) ↦ absurd (cc (rw (h1, failed) at h))
            | inr (v, h2) ↦
                elim (Result-cases
                  (lift_config (process_env v.expanded_vars level spec.env_vars))) [
                    | inl (e, failed) ↦ absurd (cc (rw (h1, h2, failed) at h))
                    | inr (env, h3) ↦
                        elim (Result-cases (
                          expand_list v.expanded_vars level (codes "verify_files") 0
                            spec.verify_files)) [
                              | inl (e, failed) ↦ absurd (cc (rw (h1, h2, h3, failed) at h))
                              | inr (files, h4) ↦
                                  elim (Result-cases (
                                    expand_cmd_allowed eval_symlinks v.expanded_vars spec.name
                                      spec.cmd_allowed)) [
                                        | inl (e, failed) ↦
                                            absurd (cc (rw (h1, h2, h3, h4, failed) at h))
                                        | inr (cmd_allowed, h5) ↦
                                            let good1 =
                                              import_at-IsGood P allowlist g.system_env level
                                                spec.env_import (inherited_vars (some g)) imported
                                                gives good h1 in
                                            rw (← ok_injective (rw (h1, h2, h3, h4, h5) at h)) (
                                              refl,
                                              vars_at-IsGood P level spec.vars imported v good1 h2,
                                            )
                                      ]
                            ]
                  ]
          ]
        ]

-- The variables of an expanded command.
abbrev command_vars : RuntimeCommand → LevelVars
command_vars c = record {
  expanded_vars = c.expanded_vars;
  expanded_array_vars = c.expanded_array_vars;
  env_import_vars = c.env_import_vars;
}

expand_resolved-IsGood :
    (P : Text → Text → Type 0) (spec : CommandSpec) (group : RuntimeGroup) (g : RuntimeGlobal)
    (timeout limit : Option ℤ) (c : RuntimeCommand)
    → ((name x : Text)
        → IsAllowedImport
            (determine_effective_env_allowlist group.spec.env_allowed g.spec.env_allowed)
            g.system_env
            name
            x
        → P name x)
    → IsGood P (group_vars group)
    → expand_resolved spec group (some g) timeout limit ≡ ok c
    → IsGood P (command_vars c)
unfolding expand_resolved expand_command_env_import expand_command_vars
expand_resolved-IsGood P spec group g timeout limit c gives good h =
    let allowlist = determine_effective_env_allowlist group.spec.env_allowed g.spec.env_allowed in
    elim (Result-cases (expand_command_env_import spec (group_vars group) group (some g))) [
      | inl (e, failed) ↦ absurd (cc (rw failed at h))
      | inr (imported, h1) ↦ elim (Result-cases (expand_command_vars spec imported)) [
        | inl (e, failed) ↦ absurd (cc (rw (h1, failed) at h))
        | inr (v, h2) ↦ elim (Result-cases (expand_command_fields spec v.expanded_vars)) [
          | inl (e, failed) ↦ absurd (cc (rw (h1, h2, failed) at h))
          | inr (fields, h3) ↦
              let good1 =
                import_at-IsGood P allowlist g.system_env (command_level spec.name) spec.env_import
                  (group_vars group) imported gives good h1 in
              rw (← ok_injective (rw (h1, h2, h3) at h))
                (vars_at-IsGood P (command_level spec.name) spec.vars imported v good1 h2)
        ]
      ]
    ]

-- In a command that expands, over a group and a global level that did, every imported variable has
-- its imported value, which is that of a system variable that is not on the denylist and is in the
-- global allowlist or in the one that is in force for the group.
pub expand_command_imports :
    (environ : List Text) (datetime : Text) (pid : ℕ) (global_spec : GlobalSpec) (g : RuntimeGlobal)
    (eval_symlinks : Text → Option Text) (group_spec : GroupSpec) (group : RuntimeGroup)
    (spec : CommandSpec) (templates : Dict CommandTemplate) (timeout limit : Option ℤ)
    (c : RuntimeCommand)
    → expand_global environ datetime pid global_spec ≡ ok g
    → expand_group eval_symlinks group_spec (some g) ≡ ok group
    → expand_command spec templates group (some g) timeout limit ≡ ok c
    → (name v : Text) → lookup name c.env_import_vars ≡ some v
    → (lookup name c.expanded_vars ≡ some v)
      × (IsAllowedImport global_spec.env_allowed (parse_system_environment environ) name v
          ⊎ IsAllowedImport
              (determine_effective_env_allowlist group_spec.env_allowed global_spec.env_allowed)
              (parse_system_environment environ)
              name
              v)
unfolding expand_command
expand_command_imports environ datetime pid global_spec g eval_symlinks group_spec group spec
      templates timeout limit c done_global done_group done name v found =
    let system_env = parse_system_environment environ in
    let P : Text → Text → Type 0 = λ name x.
      IsAllowedImport global_spec.env_allowed system_env name x
      ⊎ IsAllowedImport
          (determine_effective_env_allowlist group_spec.env_allowed global_spec.env_allowed)
          system_env name x in
    let (same_spec, same_env, good) =
      global_lem P environ datetime pid global_spec g (λ name x a. inl a) done_global in
    let (same_group, good') =
      group_lem P eval_symlinks group_spec g group (λ name x a. inr (rw (same_spec, same_env) at a))
        good done_group in
    elim (Result-cases (resolve_and_prepare_command_spec spec templates)) [
      | inl (e, failed) ↦ absurd (cc (rw failed at done))
      | inr ((working_spec, warnings), resolved) ↦
          let good'' =
            expand_resolved-IsGood P working_spec group g timeout limit c
              (λ name x a. inr (rw (same_group, same_spec, same_env) at a)) good'
              (rw resolved at done) in
          (good''.kept name v found, lookup_All P c.env_import_vars name v good''.imported found)
    ]
