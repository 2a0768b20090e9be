-- ===== src/Config/Vars/Arrays.antt =====
-- What ProcessVars makes of the array variables.
use go_safe_cmd_runner.Base.{
  ℕ, ◌+◌, ◌≡◌, sym, ◌∙◌, ap, subst, inl, inr, List, [], ◌∷◌, ◌++◌, Option, none, some, arith, Text,
  codes, text_eq, text_eq_iff, decimal, ok, Result-cases, Bool-cases, ok_pair,
}
use go_safe_cmd_runner.Base.Dict.{Dict, lookup, insert, lookup-insert, UniqueKeys}
use go_safe_cmd_runner.Expand.Lazy
use go_safe_cmd_runner.Expand.Lazy.{
  RawValue, string, array, other, Element, text_element, other_element,
}
use go_safe_cmd_runner.Expand.Lazy.Values.{lazy_meaning, lazy_meaning_mono}
use go_safe_cmd_runner.Config.Vars.{expand_elements, expand_array_vars}
use go_safe_cmd_runner.Config.Vars.Collected.{array_or}
use go_safe_cmd_runner.Config.Vars.Values.{
  Holds, NoOverride, expand_string-Holds, expand_elements-Holds,
}

module _ (base : Dict Text) (vars : Dict RawValue) where
  -- Each element is a text, and the result holds its meaning in its place.
  abbrev pub ElementsStand : List Element → List Text → Type 0
  ElementsStand [] [] = Unit
  ElementsStand [] (t ∷ ts) = ⊥
  ElementsStand (other_element ∷ rest) ts = ⊥
  ElementsStand (text_element s ∷ rest) [] = ⊥
  ElementsStand (text_element s ∷ rest) (t ∷ ts) =
      ((h : ℕ) × (lazy_meaning base vars h s ≡ some t)) × ElementsStand rest ts

  pub ElementsStand-unique :
      (es : List Element) (ts us : List Text) → ElementsStand es ts → ElementsStand es us → ts ≡ us
  ElementsStand-unique [] [] [] h k = cc
  ElementsStand-unique [] [] (u ∷ us) h k = absurd k
  ElementsStand-unique [] (t ∷ ts) us h k = absurd h
  ElementsStand-unique (other_element ∷ rest) ts us h k = absurd h
  ElementsStand-unique (text_element s ∷ rest) [] us h k = absurd h
  ElementsStand-unique (text_element s ∷ rest) (t ∷ ts) [] h k = absurd k
  ElementsStand-unique (text_element s ∷ rest) (t ∷ ts) (u ∷ us) ((h, e), es) ((k, d), ds) = cc (
    lazy_meaning_mono base vars h (h + k) s t (omega arith) e,
    lazy_meaning_mono base vars k (h + k) s u (omega arith) d,
    ElementsStand-unique rest ts us es ds,
  )

  -- What the array map has for a name by the name's definition: the meanings of the elements of an
  -- array, in their order, and for a name that is not an array of the table what is inherited.
  abbrev pub ArrayValue : Option RawValue → Option (List Text) → Option (List Text) → Type 0
  ArrayValue none inherited value = value ≡ inherited
  ArrayValue (some (string rv)) inherited value = value ≡ inherited
  ArrayValue (some (array elements)) inherited value =
      (texts : List Text) × (value ≡ some texts) × ElementsStand elements texts
  ArrayValue (some other) inherited value = value ≡ inherited

  module _ (arrays : Dict (List Text)) (imports : Dict Text) (level : Text)
      (free : NoOverride base vars) where
    expand_elements-ElementsStand :
        (arrays' : Dict (List Text)) (name : Text) (i : ℕ) (elements : List Element)
        (memo memo' : Dict Text) (out : List Text)
        → Holds base vars memo
        → expand_elements base arrays imports level vars arrays' name i elements memo
          ≡ ok (out, memo')
        → ElementsStand elements out
    unfolding expand_elements
    expand_elements-ElementsStand arrays' name i [] memo memo' out m h =
        subst (ElementsStand []) ((ok_pair [] out memo memo' h).0) tt
    expand_elements-ElementsStand arrays' name i (other_element ∷ rest) memo memo' out m h =
        absurd (cc)
    expand_elements-ElementsStand arrays' name i (text_element str ∷ rest) memo memo' out m h =
        let field = codes "vars." ++ (name ++ (codes "[" ++ (decimal i ++ codes "]"))) in
        elim (Result-cases (Lazy.expand_string arrays' vars level field str memo)) [
          | inl (e, failed) ↦ absurd (cc (rw failed at h))
          | inr ((v, m1), done) ↦
              let (means, held, _) =
                expand_string-Holds base vars arrays' level field str v memo m1 m done in
              elim (Result-cases
                (expand_elements base arrays imports level vars arrays' name (i + 1) rest m1)) [
                  | inl (e, failed) ↦ absurd (cc (rw (done, failed) at h))
                  | inr ((later, m2), done') ↦
                      let stand =
                        expand_elements-ElementsStand arrays' name (i + 1) rest m1 m2 later held
                          done' in
                      subst (ElementsStand (text_element str ∷ rest))
                        ((ok_pair (v ∷ later) out m2 memo' (rw (done, done') at h)).0)
                        (means, stand)
                ]
        ]

    -- The array of a name, after the loop: of its elements, or the one of before.
    abbrev pub After : Option (List Element) → Option (List Text) → Option (List Text) → Type 0
    After none before after = after ≡ before
    After (some elements) before after =
        (texts : List Text) × (after ≡ some texts) × ElementsStand elements texts

    pub expand_array_vars-After :
        (entries : Dict (List Element)) (arrays' out : Dict (List Text)) (memo memo' : Dict Text)
        → UniqueKeys entries
        → Holds base vars memo
        → expand_array_vars base arrays imports level vars entries arrays' memo ≡ ok (memo', out)
        → (name : Text) → After (lookup name entries) (lookup name arrays') (lookup name out)
    unfolding expand_array_vars lookup
    expand_array_vars-After [] arrays' out memo memo' u m h name =
        ap (lookup name) (sym (ok_pair memo memo' arrays' out h).1)
    expand_array_vars-After ((key, elements) ∷ rest) arrays' out memo memo' (new, u) m h name =
        elim (Result-cases
          (expand_elements base arrays imports level vars arrays' key 0 elements memo)) [
            | inl (e, failed) ↦ absurd (cc (rw failed at h))
            | inr ((expanded, m1), done) ↦
                let (held, _) =
                  expand_elements-Holds base vars arrays imports level free arrays' key 0 elements
                    memo m1 expanded m done in
                let later =
                  expand_array_vars-After rest (insert key expanded arrays') out m1 memo' u held
                    (rw done at h) name in
                elim (Bool-cases (text_eq key name)) [
                  | inl same ↦ rw same (
                    expanded,
                    subst
                          (λ (o : Option (List Element)).
                            After o (lookup name (insert key expanded arrays')) (lookup name out))
                          (subst (λ (x : Text). lookup x rest ≡ none)
                            ((text_eq_iff key name).0 same) new)
                          later
                        ∙ lookup-insert name key expanded arrays'
                        ∙ rw same,
                    expand_elements-ElementsStand arrays' key 0 elements memo m1 expanded m done,
                  )
                  | inr differ ↦ rw differ (
                      subst
                        (λ (o : Option (List Text)). After (lookup name rest) o (lookup name out))
                        (lookup-insert name key expanded arrays' ∙ rw differ) later)
                ]
          ]

    pub After-ArrayValue :
        (definition : Option RawValue) (before after : Option (List Text))
        → After (array_or base arrays imports level definition none) before after
        → ArrayValue definition before after
    After-ArrayValue none before after h = h
    After-ArrayValue (some (string rv)) before after h = h
    After-ArrayValue (some (array elements)) before after h = h
    After-ArrayValue (some other) before after h = h
