-- ===== src/Tests/Variables.antt =====
-- Names, expansion and the tables of variables at concrete inputs.
use go_safe_cmd_runner.Base.{
  ℕ, ◌≡◌, ◌↔◌, refl, subst, inl, inr, true, none, some, List, [], ◌∷◌, All, Text, codes, text_eq,
  text_eq_iff, contains, has_prefix, cut, decimal, ok, Bool-cases,
}
use go_safe_cmd_runner.Base.Dict.{Dict, lookup, insert, UniqueKeys}
use go_safe_cmd_runner.Names.{validate_variable_name, parse_key_value}
use go_safe_cmd_runner.Names.Denylist.{has_any_prefix, is_forbidden_env_var}
use go_safe_cmd_runner.Names.Scopes.{
  determine_scope, scope_eq, validate_variable_name_for_scope, local, global, LocalStart,
  GlobalStart, IsNameChar, scope_names,
}
use go_safe_cmd_runner.Expand.Pieces.{max_recursion_depth, next_piece}
use go_safe_cmd_runner.Expand.Refs.{process_var_refs, walk, round, resolve_reference}
use go_safe_cmd_runner.Expand.Meaning.{meaning}
use go_safe_cmd_runner.Expand.Strings.{unmark, resolver, resolve_and_expand, expand_string}
use go_safe_cmd_runner.Expand.Strings.Refinement.{expand_string-meaning}
use go_safe_cmd_runner.Expand.Lazy
use go_safe_cmd_runner.Expand.Lazy.{RawValue, string, array, text_element}
use go_safe_cmd_runner.Expand.Lazy.Values.{Stands, lazy_meaning, value_of_inherited}
use go_safe_cmd_runner.Expand.Lazy.Sound.{IsMemo, expand_string_sound}
use go_safe_cmd_runner.Config.Errors.{validate_name}
use go_safe_cmd_runner.Config.Mappings.{Some, for_each}
use go_safe_cmd_runner.Config.Imports.{is_defined, check_import, import_one, process_env_import}
use go_safe_cmd_runner.Config.Imports.Laws.{ImportEntry, process_env_import_entries}
use go_safe_cmd_runner.Config.Env.{check_env, env_one, process_env}
use go_safe_cmd_runner.Config.Env.Laws.{EnvEntry, process_env_entries}
use go_safe_cmd_runner.Config.Vars.{
  classify_one, classify_value, classify_all, validate_and_classify_vars, validate_string_var,
  validate_array_var, check_elements, expand_string_vars, expand_elements, expand_array_vars,
  expand_vars_with_lazy_resolution, process_vars,
}
use go_safe_cmd_runner.Config.Vars.Values.{NoOverride}
use go_safe_cmd_runner.Config.Vars.Arrays.{ArrayValue}
use go_safe_cmd_runner.Config.Vars.Order.{process_vars_values, process_vars_order}

-- Inherited variables.
abbrev base : Dict Text
base = (codes "home", codes "/u") ∷ []

-- The variables of a level, and the same in another order.
abbrev vars : Dict RawValue
vars =
    (codes "a", string (codes "%{b}/x"))
    ∷ (codes "b", string (codes "%{home}"))
    ∷ (codes "c", string (codes "y"))
    ∷ (codes "l", array (text_element (codes "%{a}") ∷ []))
    ∷ []

abbrev vars' : Dict RawValue
vars' =
    (codes "l", array (text_element (codes "%{a}") ∷ []))
    ∷ (codes "c", string (codes "y"))
    ∷ (codes "b", string (codes "%{home}"))
    ∷ (codes "a", string (codes "%{b}/x"))
    ∷ []

expand_string-meaning_example :
    (expand_string (codes "<%{home}>") base [] [] ≡ ok (codes "</u>")) ↔ (
      meaning (λ name. lookup name base) max_recursion_depth (codes "<%{home}>")
      ≡ some (codes "</u>"))
expand_string-meaning_example = expand_string-meaning base [] [] (codes "<%{home}>") (codes "</u>")

abbrev strings : Dict Text
strings =
    (codes "home", codes "/u")
    ∷ (codes "b", codes "/u")
    ∷ (codes "a", codes "/u/x")
    ∷ (codes "c", codes "y")
    ∷ []

abbrev strings' : Dict Text
strings' =
    (codes "home", codes "/u")
    ∷ (codes "c", codes "y")
    ∷ (codes "b", codes "/u")
    ∷ (codes "a", codes "/u/x")
    ∷ []

-- Inherited arrays, and those of the level too.
abbrev base_arrays : Dict (List Text)
base_arrays = (codes "k", codes "z" ∷ []) ∷ (codes "l", codes "w" ∷ []) ∷ []

abbrev arrays : Dict (List Text)
arrays = (codes "k", codes "z" ∷ []) ∷ (codes "l", codes "/u/x" ∷ []) ∷ []

run : process_vars base base_arrays [] [] (some vars) ≡ ok (strings, arrays)
unfolding process_vars validate_and_classify_vars classify_all classify_one classify_value
    validate_name validate_variable_name_for_scope determine_scope validate_string_var
    validate_array_var check_elements expand_vars_with_lazy_resolution expand_string_vars
    expand_array_vars expand_elements Lazy.expand_string Lazy.expand_at Lazy.resolve_variable
    Lazy.resolve_raw Lazy.expand_raw process_var_refs walk round resolve_reference
    validate_variable_name next_piece lookup insert contains cut decimal unmark is_defined scope_eq
    has_prefix text_eq
run = refl

run' : process_vars base base_arrays [] [] (some vars') ≡ ok (strings', arrays)
unfolding process_vars validate_and_classify_vars classify_all classify_one classify_value
    validate_name validate_variable_name_for_scope determine_scope validate_string_var
    validate_array_var check_elements expand_vars_with_lazy_resolution expand_string_vars
    expand_array_vars expand_elements Lazy.expand_string Lazy.expand_at Lazy.resolve_variable
    Lazy.resolve_raw Lazy.expand_raw process_var_refs walk round resolve_reference
    validate_variable_name next_piece lookup insert contains cut decimal unmark is_defined scope_eq
    has_prefix text_eq
run' = refl

unique : UniqueKeys vars
unfolding lookup text_eq
unique = (refl, (refl, (refl, (refl, tt))))

unique' : UniqueKeys vars'
unfolding lookup text_eq
unique' = (refl, (refl, (refl, (refl, tt))))

-- What holds of a key holds of every text equal to it.
at_key : (P : Text → Type 0) (key name : Text) → text_eq key name ≡ true → P key → P name
at_key P key name h = subst P ((text_eq_iff key name).0 h)

free : NoOverride base vars
unfolding lookup text_eq
free name rv h = elim (Bool-cases (text_eq (codes "home") name)) [
  | inl same ↦
      at_key (λ n. lookup n vars ≡ some (string rv) → lookup n base ≡ none) (codes "home") name same
        (λ e. absurd (cc)) h
  | inr differ ↦ rw (differ, lookup) refl
]

abbrev Same : Text → Type 0
Same name = lookup name vars ≡ lookup name vars'

same : (name : Text) → Same name
unfolding lookup text_eq
same name = elim (Bool-cases (text_eq (codes "a") name)) [
  | inl a ↦ at_key Same (codes "a") name a refl
  | inr no_a ↦ elim (Bool-cases (text_eq (codes "b") name)) [
    | inl b ↦ at_key Same (codes "b") name b refl
    | inr no_b ↦ elim (Bool-cases (text_eq (codes "c") name)) [
      | inl c ↦ at_key Same (codes "c") name c refl
      | inr no_c ↦ rw (no_a, no_b, no_c, lookup) refl
    ]
  ]
]

process_vars_values_example :
    ((name v : Text) → lookup name strings ≡ some v → Stands base vars name v)
    × ((name v : Text) → lookup name base ≡ some v → lookup name strings ≡ some v)
    × ((name rv : Text)
        → lookup name vars ≡ some (string rv)
        → (v : Text) × (lookup name strings ≡ some v))
    × ((name : Text)
        → ArrayValue base vars (lookup name vars) (lookup name base_arrays) (lookup name arrays))
process_vars_values_example =
    process_vars_values base base_arrays [] [] vars strings arrays unique free run

process_vars_order_example :
    (lookup (codes "l") strings ≡ lookup (codes "l") strings')
    × (lookup (codes "l") arrays ≡ lookup (codes "l") arrays)
    × ArrayValue base vars
        (lookup (codes "l") vars)
        (lookup (codes "l") base_arrays)
        (lookup (codes "l") arrays)
process_vars_order_example =
    process_vars_order base base_arrays [] [] vars vars' strings strings' arrays arrays same unique
      unique' free run run' (codes "l")

base-IsMemo : IsMemo base vars base base
base-IsMemo = record {
  correct = λ name v h. (0, value_of_inherited base vars 0 name v h);
  covers = λ name h. h;
}

expansion :
    Lazy.expand_string [] vars [] [] (codes "%{a}") base
    ≡ ok (
      codes "/u/x",
      (codes "home", codes "/u") ∷ (codes "b", codes "/u") ∷ (codes "a", codes "/u/x") ∷ [],
    )
unfolding Lazy.expand_string Lazy.expand_at Lazy.resolve_variable Lazy.resolve_raw Lazy.expand_raw
    process_var_refs walk round resolve_reference validate_variable_name next_piece lookup insert
    contains cut unmark text_eq
expansion = refl

abbrev memo : Dict Text
memo = (codes "home", codes "/u") ∷ (codes "b", codes "/u") ∷ (codes "a", codes "/u/x") ∷ []

expand_string_sound_example :
    ((h : ℕ) × (lazy_meaning base vars h (codes "%{a}") ≡ some (codes "/u/x")))
    × IsMemo base vars base memo
expand_string_sound_example =
    expand_string_sound base vars base (λ name h. h) [] [] [] (codes "%{a}") (codes "/u/x") base
      memo base-IsMemo expansion

abbrev system_env : Dict Text
system_env = (codes "HOME", codes "/u") ∷ []

imported : process_env_import (codes "HOME" ∷ []) system_env [] (codes "home=HOME" ∷ []) ≡ ok base
unfolding process_env_import for_each import_one check_import is_defined validate_name
    validate_variable_name_for_scope determine_scope validate_variable_name lookup insert contains
    cut has_prefix text_eq parse_key_value is_forbidden_env_var has_any_prefix scope_eq
imported = refl

process_env_import_entries_example :
    All
      (λ m.
        (name : Text) × (v : Text) × ImportEntry (codes "HOME" ∷ []) system_env [] m name v
        × (lookup name base ≡ some v))
      (codes "home=HOME" ∷ [])
    × ((name v : Text)
        → lookup name base ≡ some v
        → Some
            (λ m. ImportEntry (codes "HOME" ∷ []) system_env [] m name v)
            (codes "home=HOME" ∷ []))
process_env_import_entries_example =
    process_env_import_entries (codes "HOME" ∷ []) system_env [] (codes "home=HOME" ∷ []) base
      imported

environment :
    process_env base [] (codes "DIR=%{home}/d" ∷ []) ≡ ok ((codes "DIR", codes "/u/d") ∷ [])
unfolding process_env for_each env_one check_env is_defined validate_variable_name expand_string
    resolve_and_expand resolver process_var_refs walk round resolve_reference next_piece lookup
    insert contains cut has_prefix text_eq parse_key_value is_forbidden_env_var has_any_prefix
    unmark
environment = refl

process_env_entries_example :
    All
      (λ m.
        (name : Text) × (v : Text) × EnvEntry base [] m name v
        × (lookup name ((codes "DIR", codes "/u/d") ∷ []) ≡ some v))
      (codes "DIR=%{home}/d" ∷ [])
    × ((name v : Text)
        → lookup name ((codes "DIR", codes "/u/d") ∷ []) ≡ some v
        → Some (λ m. EnvEntry base [] m name v) (codes "DIR=%{home}/d" ∷ []))
process_env_entries_example =
    process_env_entries base [] (codes "DIR=%{home}/d" ∷ []) ((codes "DIR", codes "/u/d") ∷ [])
      environment

scope_names_example :
    ((validate_variable_name_for_scope (codes "_tmp1") local (codes "vars") ≡ ok tt)
      ↔ (LocalStart (codes "_tmp1") × All IsNameChar (codes "_tmp1")))
    × ((validate_variable_name_for_scope (codes "_tmp1") global (codes "vars") ≡ ok tt)
        ↔ (GlobalStart (codes "_tmp1") × All IsNameChar (codes "_tmp1")))
scope_names_example = scope_names (codes "_tmp1") (codes "vars")

-- A table that overrides an inherited variable, visited in two orders.
abbrev overridden : Dict Text
overridden = (codes "x", codes "old") ∷ []

override_first :
    process_vars overridden [] [] []
      (some ((codes "x", string (codes "new")) ∷ (codes "y", string (codes "%{x}")) ∷ []))
    ≡ ok ((codes "x", codes "new") ∷ (codes "y", codes "new") ∷ [], [])
unfolding process_vars validate_and_classify_vars classify_all classify_one classify_value
    validate_name validate_variable_name_for_scope determine_scope validate_string_var
    validate_array_var check_elements expand_vars_with_lazy_resolution expand_string_vars
    expand_array_vars expand_elements Lazy.expand_string Lazy.expand_at Lazy.resolve_variable
    Lazy.resolve_raw Lazy.expand_raw process_var_refs walk round resolve_reference
    validate_variable_name next_piece lookup insert contains cut decimal unmark is_defined scope_eq
    has_prefix text_eq
override_first = refl

override_last :
    process_vars overridden [] [] []
      (some ((codes "y", string (codes "%{x}")) ∷ (codes "x", string (codes "new")) ∷ []))
    ≡ ok ((codes "x", codes "new") ∷ (codes "y", codes "old") ∷ [], [])
unfolding process_vars validate_and_classify_vars classify_all classify_one classify_value
    validate_name validate_variable_name_for_scope determine_scope validate_string_var
    validate_array_var check_elements expand_vars_with_lazy_resolution expand_string_vars
    expand_array_vars expand_elements Lazy.expand_string Lazy.expand_at Lazy.resolve_variable
    Lazy.resolve_raw Lazy.expand_raw process_var_refs walk round resolve_reference
    validate_variable_name next_piece lookup insert contains cut decimal unmark is_defined scope_eq
    has_prefix text_eq
override_last = refl
