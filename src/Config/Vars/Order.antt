-- ===== src/Config/Vars/Order.antt =====
-- The values that ProcessVars gives, and the order in which the runtime visits the tables.
use go_safe_cmd_runner.Base.{
  ◌≡◌, sym, ◌∙◌, ap, subst, inl, inr, List, [], Option, some, arith, Text, ok, Result-cases,
  Option-cases,
}
use go_safe_cmd_runner.Base.Dict.{Dict, lookup, UniqueKeys, UniqueKeys-lookup, lookup_All}
use go_safe_cmd_runner.Expand.Lazy.{RawValue, string, Element}
use go_safe_cmd_runner.Expand.Lazy.Values.{Stands, Stands-unique, value_of_inherited}
use go_safe_cmd_runner.Config.Vars.{
  Classified, classify_all, validate_and_classify_vars, expand_string_vars, expand_array_vars,
  expand_vars_with_lazy_resolution, process_vars,
}
use go_safe_cmd_runner.Config.Vars.Classify.{Collected, Entries, classify_all-Entries}
use go_safe_cmd_runner.Config.Vars.Collected.{classify_all-arrays}
use go_safe_cmd_runner.Config.Vars.Same.{source, Stands-same, ArrayValue-same}
use go_safe_cmd_runner.Config.Vars.Arrays.{
  ArrayValue, After, After-ArrayValue, expand_array_vars-After,
}
use go_safe_cmd_runner.Config.Vars.Values.{
  NoOverride, Holds, Loop, defined_later, expand_string_vars-Holds, expand_array_vars-Holds,
}

module _ (base : Dict Text) (arrays : Dict (List Text)) (imports : Dict Text) (level : Text) where
  module _ (vars : Dict RawValue) where
    start : Classified
    start = record { string_vars = []; array_vars = [] }

    -- The steps of a successful run.
    record Run (strings : Dict Text) (out : Dict (List Text)) : Type 0 where
      classified : Classified
      memo : Dict Text
      sorted : classify_all base arrays imports level vars start ≡ ok classified
      first :
          expand_string_vars base arrays imports level vars classified.string_vars base ≡ ok memo
      second :
          expand_array_vars base arrays imports level vars classified.array_vars arrays memo
          ≡ ok (strings, out)

    process_vars-Run :
        (strings : Dict Text) (out : Dict (List Text))
        → process_vars base arrays imports level (some vars) ≡ ok (strings, out)
        → Run strings out
    unfolding process_vars validate_and_classify_vars expand_vars_with_lazy_resolution start
    process_vars-Run strings out h =
        elim (Result-cases (classify_all base arrays imports level vars start)) [
          | inl (e, failed) ↦ absurd (ground arith)
          | inr (c, sorted) ↦
              elim (Result-cases
                (expand_string_vars base arrays imports level vars c.string_vars base)) [
                  | inl (e, failed) ↦ absurd (ground arith)
                  | inr (memo, first) ↦ record {
                    classified = c;
                    memo = memo;
                    sorted = sorted;
                    first = first;
                    second = ground arith;
                  }
                ]
        ]

    base-Holds : Holds base vars base
    base-Holds = record {
      correct = λ name v h. (0, value_of_inherited base vars 0 name v h);
      covers = λ name h. h;
    }

    -- Where no string variable of the table is inherited, a successful run keeps the inherited
    -- string variables, gives a value to every string variable of the table, and every value of the
    -- string map is the one that its variable stands for. In the array map, every array of the table
    -- has the meanings of its elements, in their order, and every other name what it inherits.
    pub process_vars_values :
        (strings : Dict Text) (out : Dict (List Text))
        → UniqueKeys vars
        → NoOverride base vars
        → process_vars base arrays imports level (some vars) ≡ ok (strings, out)
        → ((name v : Text) → lookup name strings ≡ some v → Stands base vars name v)
          × ((name v : Text) → lookup name base ≡ some v → lookup name strings ≡ some v)
          × ((name rv : Text)
              → lookup name vars ≡ some (string rv)
              → (v : Text) × (lookup name strings ≡ some v))
          × ((name : Text)
              → ArrayValue base vars (lookup name vars) (lookup name arrays) (lookup name out))
    unfolding Entries Loop start lookup
    process_vars_values strings out unique free h =
        let r = process_vars-Run strings out h in
        let (good, _, collected) =
          classify_all-Entries base arrays imports level vars vars start r.classified
            (UniqueKeys-lookup vars unique) tt r.sorted in
        let (held, grown, valued) =
          expand_string_vars-Holds base vars arrays imports level free r.classified.string_vars base
            r.memo good base-Holds r.first in
        let (held', grown') =
          expand_array_vars-Holds base vars arrays imports level free r.classified.array_vars arrays
            out r.memo strings held r.second in
        (
          held'.correct,
          (λ name v found.
              let (w, e) = defined_later base vars name v base strings held'.covers found in
              e
              ∙ ap some (
                  Stands-unique base vars name w v (held'.correct name w e)
                    (0, value_of_inherited base vars 0 name v found))),
          (λ name rv found.
              let (w, e) =
                lookup_All (λ k x. Collected base arrays imports level vars (k, x) r.classified)
                  vars name (string rv) collected found in
              let (v, e') =
                lookup_All (λ k x. (y : Text) × (lookup k r.memo ≡ some y)) r.classified.string_vars
                  name w valued e in
              defined_later base vars name v r.memo strings grown' e'),
          (λ name.
              let (keys, found) =
                classify_all-arrays base arrays imports level vars start r.classified unique tt
                  r.sorted in
              After-ArrayValue base vars arrays imports level free (lookup name vars)
                (lookup name arrays) (lookup name out)
                (subst
                  (λ (o : Option (List Element)).
                    After base vars arrays imports level free o (lookup name arrays)
                      (lookup name out))
                  (found name)
                  (expand_array_vars-After base vars arrays imports level free
                    r.classified.array_vars arrays out r.memo strings keys held r.second name))),
        )

module _ (base : Dict Text) (vars vars' : Dict RawValue)
    (same : (name : Text) → lookup name vars ≡ lookup name vars') where
  module _ (arrays : Dict (List Text)) (imports : Dict Text) (level : Text)
      (unique : UniqueKeys vars) (unique' : UniqueKeys vars') (free : NoOverride base vars) where
    also_free : NoOverride base vars'
    also_free name rv h = free name rv (same name ∙ h)

    -- A value of one run is that of the other.
    carried :
        (strings strings' : Dict Text) (out out' : Dict (List Text))
        → process_vars base arrays imports level (some vars) ≡ ok (strings, out)
        → process_vars base arrays imports level (some vars') ≡ ok (strings', out')
        → (name v : Text) → lookup name strings ≡ some v
        → lookup name strings' ≡ some v
    carried strings strings' out out' h h' name v found =
        let (sound, _, _, _) =
          process_vars_values base arrays imports level vars strings out unique free h in
        let (sound', kept', given', _) =
          process_vars_values base arrays imports level vars' strings' out' unique' also_free h' in
        let stands = sound name v found in
        elim (source base vars name v stands) [
          | inl (w, inherited) ↦
              kept' name w inherited
              ∙ ap some (
                  Stands-unique base vars name w v
                    (0, value_of_inherited base vars 0 name w inherited) stands)
          | inr (rv, defined) ↦
              let (w, found') = given' name rv (sym (same name) ∙ defined) in
              found'
              ∙ ap some (
                  Stands-unique base vars' name w v (sound' name w found')
                    (Stands-same base vars vars' same name v stands))
        ]

    -- The arrays of one run are those of the other.
    same_arrays :
        (strings strings' : Dict Text) (out out' : Dict (List Text))
        → process_vars base arrays imports level (some vars) ≡ ok (strings, out)
        → process_vars base arrays imports level (some vars') ≡ ok (strings', out')
        → (name : Text) → lookup name out ≡ lookup name out'
    same_arrays strings strings' out out' h h' name =
        let (_, _, _, valued) =
          process_vars_values base arrays imports level vars strings out unique free h in
        let (_, _, _, valued') =
          process_vars_values base arrays imports level vars' strings' out' unique' also_free h' in
        ArrayValue-same base vars vars' same (lookup name vars) (lookup name arrays)
          (lookup name out) (lookup name out') (valued name)
          (subst
            (λ (d : Option RawValue).
              ArrayValue base vars' d (lookup name arrays) (lookup name out'))
            (sym (same name)) (valued' name))

-- Where no string variable of the table is inherited, two successful runs over the same table,
-- visited in any two orders, give every name the same string value and the same array value, or
-- both none; and an array of the table has the meanings of its elements in both, any other name the
-- array that it inherits.
pub process_vars_order :
    (base : Dict Text) (arrays : Dict (List Text)) (imports : Dict Text) (level : Text)
    (vars vars' : Dict RawValue) (strings strings' : Dict Text) (out out' : Dict (List Text))
    → ((name : Text) → lookup name vars ≡ lookup name vars')
    → UniqueKeys vars
    → UniqueKeys vars'
    → NoOverride base vars
    → process_vars base arrays imports level (some vars) ≡ ok (strings, out)
    → process_vars base arrays imports level (some vars') ≡ ok (strings', out')
    → (name : Text)
    → (lookup name strings ≡ lookup name strings')
      × (lookup name out ≡ lookup name out')
      × ArrayValue base vars (lookup name vars) (lookup name arrays) (lookup name out)
process_vars_order base arrays imports level vars vars' strings strings' out out' same u u' free h
      h' name =
    (
      elim (Option-cases (lookup name strings)) [
        | inr (v, found) ↦
            found
            ∙ sym (
                carried base vars vars' same arrays imports level u u' free strings strings' out
                  out' h h' name v found)
        | inl missing ↦ elim (Option-cases (lookup name strings')) [
          | inl missing' ↦ missing ∙ sym missing'
          | inr (w, found) ↦ absurd (
              cc (
                carried base vars' vars (λ x. sym (same x)) arrays imports level u' u
                  (λ x rv e. free x rv (same x ∙ e)) strings' strings out' out h' h name w found))
        ]
      ],
      same_arrays base vars vars' same arrays imports level u u' free strings strings' out out' h h'
          name,
      (process_vars_values base arrays imports level vars strings out u free h).3 name,
    )
