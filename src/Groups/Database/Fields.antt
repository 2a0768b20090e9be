-- ===== src/Groups/Database/Fields.antt =====
-- The fields of a text between separators, apart from how they are found.
use go_safe_cmd_runner.Base.{
  ℕ, ◌≡◌, ◌≢◌, refl, sym, ◌∙◌, ap, subst, inl, inr, false, List, [], ◌∷◌, ◌++◌, Text, ◌==◌, ==_iff,
  All, Bool-cases,
}
use go_safe_cmd_runner.Groups.Database.{push_front, split}

module _ (sep : ℕ) where
  abbrev Lacks : Text → Type 0
  Lacks field = All (λ c. c ≢ sep) field

  -- The fields, with the separator between them.
  abbrev joined : List Text → Text
  joined [] = []
  joined (f ∷ []) = f
  joined (f ∷ g ∷ rest) = f ++ sep ∷ joined (g ∷ rest)

  -- The text is these fields, at least one, with separators between them and none in them.
  abbrev pub IsSplit : Text → List Text → Type 0
  IsSplit text fields = (fields ≢ []) × All Lacks fields × (joined fields ≡ text)

  differs : (c : ℕ) → c ≢ sep → (c == sep) ≡ false
  differs c other = elim (Bool-cases (c == sep)) [
    | inl same ↦ absurd (other ((==_iff c sep).0 same))
    | inr differ ↦ differ
  ]

  split_last : (f : Text) → Lacks f → split sep f ≡ f ∷ []
  unfolding split
  split_last [] lacks = refl
  split_last (c ∷ f) (other, lacks) = rw (differs c other) (ap (push_front c) (split_last f lacks))

  split_first : (f t : Text) → Lacks f → split sep (f ++ sep ∷ t) ≡ f ∷ split sep t
  unfolding split
  split_first [] t lacks = rw ((==_iff sep sep).1 refl) refl
  split_first (c ∷ f) t (other, lacks) =
      rw (differs c other) (ap (push_front c) (split_first f t lacks))

  split-joined :
      (f : Text) (rest : List Text)
      → All Lacks (f ∷ rest)
      → split sep (joined (f ∷ rest)) ≡ f ∷ rest
  split-joined f [] (lacks, _) = split_last f lacks
  split-joined f (g ∷ rest) (lacks, later) =
      split_first f (joined (g ∷ rest)) lacks
      ∙ ap (λ (xs : List Text). f ∷ xs) (split-joined g rest later)

  joined_behind :
      (text : Text) (fields : List Text) → IsSplit text fields → IsSplit (sep ∷ text) ([] ∷ fields)
  joined_behind text [] (nonempty, _, _) = absurd (nonempty refl)
  joined_behind text (f ∷ rest) (nonempty, all, e) =
      ((λ h. absurd (cc)), (tt, all), ap (λ (t : Text). sep ∷ t) e)

  joined_front :
      (c : ℕ) (text : Text) (fields : List Text)
      → c ≢ sep
      → IsSplit text fields
      → IsSplit (c ∷ text) (push_front c fields)
  joined_front c text [] other (nonempty, _, _) = absurd (nonempty refl)
  joined_front c text (f ∷ []) other (nonempty, (lacks, _), e) =
      ((λ h. absurd (cc)), ((other, lacks), tt), ap (λ (t : Text). c ∷ t) e)
  joined_front c text (f ∷ g ∷ rest) other (nonempty, (lacks, all), e) =
      ((λ h. absurd (cc)), ((other, lacks), all), ap (λ (t : Text). c ∷ t) e)

  pub split-IsSplit : (text : Text) → IsSplit text (split sep text)
  unfolding split
  split-IsSplit [] = ((λ h. absurd (cc)), (tt, tt), refl)
  split-IsSplit (c ∷ s) = elim (Bool-cases (c == sep)) [
    | inl same ↦ rw same (
        subst (λ (d : ℕ). IsSplit (d ∷ s) ([] ∷ split sep s)) (sym ((==_iff c sep).0 same))
          (joined_behind s (split sep s) (split-IsSplit s)))
    | inr differ ↦ rw differ (
        joined_front c s (split sep s) (λ e. absurd (cc (differ, (==_iff c sep).1 e)))
          (split-IsSplit s))
  ]

  pub IsSplit-split :
      (text : Text) (fields : List Text) → IsSplit text fields → fields ≡ split sep text
  IsSplit-split text [] (nonempty, _, _) = absurd (nonempty refl)
  IsSplit-split text (f ∷ rest) (nonempty, all, e) =
      sym (split-joined f rest all) ∙ ap (split sep) e
