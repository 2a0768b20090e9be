-- ===== src/Templates/Inheritance/Rounds.antt =====
-- What each round of the merge of imports does.
use go_safe_cmd_runner.Base.{
  ◌≡◌, refl, sym, ◌∙◌, ap, inl, inr, false, ◌||◌, List, [], ◌∷◌, ◌++◌, Option, none, some, Text,
  text_eq, text_eq_iff, contains, Distinct, if◌then◌else◌, arith, Option-cases, Bool-cases,
}
use go_safe_cmd_runner.Base.Dict.{Dict, lookup, insert, lookup-insert}
use go_safe_cmd_runner.Config.Imports.{is_defined}
use go_safe_cmd_runner.Templates.Inheritance.{
  internal_name, Merge, add_new, add_template, add_command, add_all,
}

abbrev pub or_else : Option Text → Option Text → Option Text
or_else (some m) o = some m
or_else none o = o

abbrev pub if_named : Text → Text → Option Text
if_named name mapping = if text_eq (internal_name mapping) name then some mapping else none

-- The first mapping of a name, and the last one.
unfoldable pub first_named : Text → List Text → Option Text
first_named name [] = none
first_named name (mapping ∷ rest) = or_else (if_named name mapping) (first_named name rest)

unfoldable pub last_named : Text → List Text → Option Text
last_named name [] = none
last_named name (mapping ∷ rest) = or_else (last_named name rest) (if_named name mapping)

-- Every name is that of one mapping.
abbrev pub DistinctNames : List Text → Type 0
DistinctNames [] = Unit
DistinctNames (mapping ∷ rest) =
    (first_named (internal_name mapping) rest ≡ none) × DistinctNames rest

pub record IsMerge (m : Merge) : Type 0 where
  pub named :
      (name mapping : Text) → lookup name m.mappings ≡ some mapping → internal_name mapping ≡ name
  pub ordered : (name : Text) → contains m.order name ≡ is_defined (lookup name m.mappings)
  pub distinct : Distinct m.order

pub contains-snoc :
    (xs : List Text) (x name : Text)
    → contains (xs ++ x ∷ []) name ≡ contains xs name || text_eq x name
unfolding contains
contains-snoc [] x name = ground arith
contains-snoc (y ∷ xs) x name = ground (arith, contains-snoc xs x name)

pub Distinct-snoc :
    (xs : List Text) (x : Text) → contains xs x ≡ false → Distinct xs → Distinct (xs ++ x ∷ [])
unfolding contains
Distinct-snoc [] x new h = (refl, tt)
Distinct-snoc (y ∷ xs) x new (other, h) = (
  ground (arith, contains-snoc xs x y, text_eq_iff x y, text_eq_iff y x),
  Distinct-snoc xs x (ground arith) h,
)

pub insert-named :
    (mapping : Text) (d : Dict Text)
    → ((name m : Text) → lookup name d ≡ some m → internal_name m ≡ name)
    → (name m : Text) → lookup name (insert (internal_name mapping) mapping d) ≡ some m
    → internal_name m ≡ name
insert-named mapping d named name m h = elim (Bool-cases (text_eq (internal_name mapping) name)) [
  | inl same ↦ ground (
    arith,
    lookup-insert name (internal_name mapping) mapping d,
    text_eq_iff (internal_name mapping) name,
  )
  | inr differ ↦ named name m (ground (arith, lookup-insert name (internal_name mapping) mapping d))
]

pub add_new-IsMerge :
    (mapping : Text) (m : Merge)
    → IsMerge m
    → lookup (internal_name mapping) m.mappings ≡ none
    → IsMerge (add_new mapping m)
unfolding add_new is_defined
add_new-IsMerge mapping m good new = record {
  named = insert-named mapping m.mappings good.named;
  ordered = λ name. ground (
    arith,
    contains-snoc m.order (internal_name mapping) name,
    good.ordered name,
    lookup-insert name (internal_name mapping) mapping m.mappings,
  );
  distinct =
      Distinct-snoc m.order (internal_name mapping)
        (ground (arith, good.ordered (internal_name mapping))) good.distinct;
}

pub add_template-IsMerge :
    (mapping : Text) (m : Merge) → IsMerge m → IsMerge (add_template mapping m)
unfolding add_template is_defined
add_template-IsMerge mapping m good =
    elim (Option-cases (lookup (internal_name mapping) m.mappings)) [
      | inl new ↦ rw (new, add_template) (add_new-IsMerge mapping m good new)
      | inr (old, found) ↦ rw (found, add_template) good
    ]

pub add_command-IsMerge : (mapping : Text) (m : Merge) → IsMerge m → IsMerge (add_command mapping m)
unfolding add_command is_defined
add_command-IsMerge mapping m good =
    elim (Option-cases (lookup (internal_name mapping) m.mappings)) [
      | inl new ↦ rw (new, add_command) (add_new-IsMerge mapping m good new)
      | inr (old, found) ↦
          rw (found, add_command)
            (record {
              named = insert-named mapping m.mappings good.named;
              ordered = λ name. ground (
                arith,
                good.ordered name,
                text_eq_iff (internal_name mapping) name,
                lookup-insert name (internal_name mapping) mapping m.mappings,
              );
              distinct = good.distinct;
            })
    ]

pub add_all-IsMerge :
    (add : Text → Merge → Merge)
    → ((mapping : Text) (m : Merge) → IsMerge m → IsMerge (add mapping m))
    → (mappings : List Text) (m : Merge) → IsMerge m
    → IsMerge (add_all add mappings m)
unfolding add_all
add_all-IsMerge add keep [] m good = good
add_all-IsMerge add keep (mapping ∷ rest) m good =
    add_all-IsMerge add keep rest (add mapping m) (keep mapping m good)

pub lookup-add_template :
    (name mapping : Text) (m : Merge)
    → lookup name (add_template mapping m).mappings
      ≡ or_else (lookup name m.mappings) (if_named name mapping)
unfolding add_template add_new is_defined
lookup-add_template name mapping m = ground (
  arith,
  lookup-insert name (internal_name mapping) mapping m.mappings,
  text_eq_iff (internal_name mapping) name,
)

pub lookup-add_command :
    (name mapping : Text) (m : Merge)
    → lookup name (add_command mapping m).mappings
      ≡ or_else (if_named name mapping) (lookup name m.mappings)
unfolding add_command add_new is_defined
lookup-add_command name mapping m =
    ground (arith, lookup-insert name (internal_name mapping) mapping m.mappings)

pub or_else_assoc : (a b c : Option Text) → or_else (or_else a b) c ≡ or_else a (or_else b c)
or_else_assoc none b c = refl
or_else_assoc (some x) b c = refl

pub or_else-none : (a : Option Text) → or_else a none ≡ a
or_else-none none = refl
or_else-none (some x) = refl

pub add_all-add_template :
    (name : Text) (mappings : List Text) (m : Merge)
    → lookup name (add_all add_template mappings m).mappings
      ≡ or_else (lookup name m.mappings) (first_named name mappings)
unfolding add_all first_named
add_all-add_template name [] m = sym (or_else-none (lookup name m.mappings))
add_all-add_template name (mapping ∷ rest) m =
    add_all-add_template name rest (add_template mapping m)
    ∙ ap (λ (o : Option Text). or_else o (first_named name rest))
        (lookup-add_template name mapping m)
    ∙ or_else_assoc (lookup name m.mappings) (if_named name mapping) (first_named name rest)

pub add_all-add_command :
    (name : Text) (mappings : List Text) (m : Merge)
    → lookup name (add_all add_command mappings m).mappings
      ≡ or_else (last_named name mappings) (lookup name m.mappings)
unfolding add_all last_named
add_all-add_command name [] m = refl
add_all-add_command name (mapping ∷ rest) m =
    add_all-add_command name rest (add_command mapping m)
    ∙ ap (or_else (last_named name rest)) (lookup-add_command name mapping m)
    ∙ sym (or_else_assoc (last_named name rest) (if_named name mapping) (lookup name m.mappings))
