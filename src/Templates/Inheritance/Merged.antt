-- ===== src/Templates/Inheritance/Merged.antt =====
-- Which mapping of each name a command gets.
use go_safe_cmd_runner.Base.{
  ◌≡◌, refl, sym, ◌∙◌, ap, inl, inr, true, List, [], ◌∷◌, none, some, Text, text_eq_iff,
  text_eq_refl, contains, Distinct, if◌then◌else◌, arith, Option-cases,
}
use go_safe_cmd_runner.Base.Dict.{lookup}
use go_safe_cmd_runner.Config.Imports.{is_defined, value_or_empty}
use go_safe_cmd_runner.Templates.Inheritance.{
  internal_name, Merge, add_template, add_command, add_all, in_order, merged, merge_env_import,
}
use go_safe_cmd_runner.Templates.Inheritance.Rounds.{
  or_else, first_named, last_named, DistinctNames, IsMerge, add_template-IsMerge,
  add_command-IsMerge, add_all-IsMerge, add_all-add_template, add_all-add_command,
}

-- The mappings of a merge, in the order of some names that it defines.
module _ (m : Merge) (good : IsMerge m) where
  DefinesAll : List Text → Type 0
  DefinesAll names =
      (name : Text) → contains names name ≡ true → is_defined (lookup name m.mappings) ≡ true

  head_mapping :
      (name : Text) (names : List Text)
      → DefinesAll (name ∷ names)
      → (mapping : Text) × (lookup name m.mappings ≡ some mapping) × (internal_name mapping ≡ name)
  unfolding DefinesAll contains is_defined
  head_mapping name names all = elim (Option-cases (lookup name m.mappings)) [
    | inl missing ↦ absurd (ground (arith, all name, text_eq_refl name))
    | inr (mapping, found) ↦ (mapping, found, good.named name mapping found)
  ]

  DefinesAll-tail : (name : Text) (names : List Text) → DefinesAll (name ∷ names) → DefinesAll names
  unfolding DefinesAll contains
  DefinesAll-tail name names all x h = all x (ground arith)

  first_named-in_order :
      (names : List Text) (x : Text)
      → DefinesAll names
      → first_named x (in_order m.mappings names)
        ≡ (if contains names x then lookup x m.mappings else none)
  unfolding first_named in_order contains value_or_empty
  first_named-in_order [] x all = refl
  first_named-in_order (name ∷ names) x all =
      let (mapping, found, named) = head_mapping name names all in
      ground (
        arith,
        found,
        named,
        first_named-in_order names x (DefinesAll-tail name names all),
        text_eq_iff name x,
      )

  in_order-DistinctNames :
      (names : List Text)
      → DefinesAll names
      → Distinct names
      → DistinctNames (in_order m.mappings names)
  unfolding in_order value_or_empty
  in_order-DistinctNames [] all h = tt
  in_order-DistinctNames (name ∷ names) all (new, h) =
      let (mapping, found, named) = head_mapping name names all in
      let rest = DefinesAll-tail name names all in
      rw found (
        rw (named, first_named-in_order names name rest, new) refl,
        in_order-DistinctNames names rest h,
      )

  order-DefinesAll : DefinesAll m.order
  unfolding DefinesAll
  order-DefinesAll name h = sym (good.ordered name) ∙ h

  looked_up :
      (name : Text)
      → (if contains m.order name then lookup name m.mappings else none) ≡ lookup name m.mappings
  unfolding is_defined
  looked_up name = elim (Option-cases (lookup name m.mappings)) [
    | inl missing ↦ ground (arith, missing)
    | inr (mapping, found) ↦ ground (arith, found, good.ordered name)
  ]

merged-IsMerge :
    (template_env_import cmd_env_import : List Text)
    → IsMerge (merged template_env_import cmd_env_import)
unfolding merged
merged-IsMerge ts cs =
    add_all-IsMerge add_command add_command-IsMerge cs (add_all add_template ts start) (
      add_all-IsMerge add_template add_template-IsMerge ts start (record {
        named = λ name mapping h. absurd (unfold lookup in cc);
        ordered = λ name. unfold lookup contains is_defined in refl;
        distinct = tt;
      }))
  where
    start : Merge
    start = record { mappings = []; order = [] }

lookup-merged :
    (ts cs : List Text) (name : Text)
    → lookup name (merged ts cs).mappings ≡ or_else (last_named name cs) (first_named name ts)
unfolding merged lookup
lookup-merged ts cs name =
    let start : Merge = record { mappings = []; order = [] } in
    add_all-add_command name cs (add_all add_template ts start)
    ∙ ap (or_else (last_named name cs)) (add_all-add_template name ts start)

-- The merged list has one mapping of each name: the command's last one, if it has one, and
-- otherwise the template's first one.
pub merge_env_import_lem :
    (template_env_import cmd_env_import : List Text)
    → DistinctNames (merge_env_import template_env_import cmd_env_import)
      × ((name : Text)
          → first_named name (merge_env_import template_env_import cmd_env_import)
            ≡ or_else (last_named name cmd_env_import) (first_named name template_env_import))
unfolding merge_env_import
merge_env_import_lem ts cs =
    let m = merged ts cs in
    let good = merged-IsMerge ts cs in
    let all = order-DefinesAll m good in
    (
      in_order-DistinctNames m good m.order all good.distinct,
      λ name.
          first_named-in_order m good m.order name all
          ∙ looked_up m good name
          ∙ lookup-merged ts cs name,
    )
