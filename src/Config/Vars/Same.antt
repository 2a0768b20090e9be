-- ===== src/Config/Vars/Same.antt =====
-- What the variables stand for depends on the table's entries, not on their order.
use go_safe_cmd_runner.Base.{
  ℕ, zero, suc, ◌≡◌, refl, sym, ◌∙◌, ap, ◌⊎◌, inl, inr, List, [], ◌∷◌, Option, none, some, Text,
  Option-cases,
}
use mathlib.Core.Path.{fun_ext}
use go_safe_cmd_runner.Base.Dict.{Dict, lookup}
use go_safe_cmd_runner.Expand.Lazy.{
  RawValue, string, array, other, Element, text_element, other_element,
}
use go_safe_cmd_runner.Expand.Meaning.{read}
use go_safe_cmd_runner.Expand.Lazy.Values.{
  Stands, value_of, lazy_meaning, inherited_or, definition_of,
}
use go_safe_cmd_runner.Config.Vars.Arrays.{ElementsStand, ElementsStand-unique, ArrayValue}

source_of :
    (o : Option RawValue) (f : Text → Option Text) (v : Text)
    → inherited_or none (definition_of o) f ≡ some v
    → (rv : Text) × (o ≡ some (string rv))
source_of none f v h = absurd (cc)
source_of (some (string rv)) f v h = (rv, refl)
source_of (some (array elements)) f v h = absurd (cc)
source_of (some other) f v h = absurd (cc)

-- What stands for a value is inherited or defined by the table.
pub source :
    (base : Dict Text) (vars : Dict RawValue) (name v : Text)
    → Stands base vars name v
    → ((w : Text) × (lookup name base ≡ some w))
      ⊎ ((rv : Text) × (lookup name vars ≡ some (string rv)))
unfolding value_of
source base vars name v (h, e) = elim (Option-cases (lookup name base)) [
  | inr inherited ↦ inl inherited
  | inl absent ↦ inr (source_of (lookup name vars) (lazy_meaning base vars h) v (rw absent at e))
]

module _ (base : Dict Text) (vars vars' : Dict RawValue)
    (same : (name : Text) → lookup name vars ≡ lookup name vars') where
  inherited_same :
      (f g : Text → Option Text) (name : Text)
      → f ≡ g
      → inherited_or (lookup name base) (definition_of (lookup name vars)) f
        ≡ inherited_or (lookup name base) (definition_of (lookup name vars')) g
  inherited_same f g name e =
      ap (λ (d : Option RawValue). inherited_or (lookup name base) (definition_of d) f) (same name)
      ∙ ap
          (λ (k : Text → Option Text).
            inherited_or (lookup name base) (definition_of (lookup name vars')) k)
          e

  lazy_meaning_same : (h : ℕ) (t : Text) → lazy_meaning base vars h t ≡ lazy_meaning base vars' h t
  unfolding lazy_meaning
  lazy_meaning_same zero t = refl
  lazy_meaning_same (suc h) t =
      ap (λ (f : Text → Option Text). read f 0 t)
        (fun_ext λ name. inherited_same _ _ name (fun_ext (lazy_meaning_same h)))

  pub Stands-same : (name v : Text) → Stands base vars name v → Stands base vars' name v
  unfolding value_of
  Stands-same name v (h, e) = (h, sym (inherited_same _ _ name (fun_ext (lazy_meaning_same h))) ∙ e)

  ElementsStand-same :
      (es : List Element) (ts : List Text)
      → ElementsStand base vars es ts
      → ElementsStand base vars' es ts
  ElementsStand-same [] [] h = tt
  ElementsStand-same [] (t ∷ ts) h = absurd h
  ElementsStand-same (other_element ∷ rest) ts h = absurd h
  ElementsStand-same (text_element s ∷ rest) [] h = absurd h
  ElementsStand-same (text_element s ∷ rest) (t ∷ ts) ((h, e), stand) =
      ((h, sym (lazy_meaning_same h s) ∙ e), ElementsStand-same rest ts stand)

  pub ArrayValue-same :
      (definition : Option RawValue) (inherited value value' : Option (List Text))
      → ArrayValue base vars definition inherited value
      → ArrayValue base vars' definition inherited value'
      → value ≡ value'
  ArrayValue-same none inherited value value' h k = h ∙ sym k
  ArrayValue-same (some (string rv)) inherited value value' h k = h ∙ sym k
  ArrayValue-same (some (array es)) inherited value value' (ts, e, stand) (us, d, stand') =
      e
      ∙ ap some (ElementsStand-unique base vars' es ts us (ElementsStand-same es ts stand) stand')
      ∙ sym d
  ArrayValue-same (some other) inherited value value' h k = h ∙ sym k
