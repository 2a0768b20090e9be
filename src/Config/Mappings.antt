-- ===== src/Config/Mappings.antt =====
-- A loop over `KEY=VALUE` mappings that fills a map and stops at the first error: the loops of
-- ProcessEnvImport and ProcessEnv in internal/runner/config/expansion.go.
use go_safe_cmd_runner.Base.{
  ◌≡◌, sym, ◌∙◌, ap, subst, ◌⊎◌, inl, inr, true, List, [], ◌∷◌, none, some, arith, Text, text_eq,
  text_eq_iff, text_eq_refl, All, Result, ok, ◌>>=◌, Result-cases, Bool-cases, ok_injective,
  if◌then◌else◌,
}
use go_safe_cmd_runner.Base.Dict.{
  Dict, lookup, insert, lookup-insert, insert-All, UniqueKeys, insert-UniqueKeys,
}

module _ {ℓ} {E : Type ℓ} (one : Text → Dict Text → Result E (Dict Text)) where
  unfoldable pub for_each : List Text → Dict Text → Result E (Dict Text)
  for_each [] result = ok result
  for_each (mapping ∷ rest) result = one mapping result >>= for_each rest

-- Some member of a list has a property.
abbrev pub Some {ℓ} : {A : Type ℓ} → (A → Type 0) → List A → Type 0
Some P [] = ⊥
Some P (x ∷ xs) = P x ⊎ Some P xs

module _ (middle : Dict Text) (name v x : Text) where
  entry_at :
      (before : Dict Text)
      → middle ≡ insert name v before
      → lookup x middle ≡ (if text_eq name x then some v else lookup x before)
  entry_at before grown = ap (lookup x) grown ∙ lookup-insert x name v before

  value_at :
      (w : Text) (before : Dict Text)
      → middle ≡ insert name v before
      → text_eq name x ≡ true
      → lookup x middle ≡ some w
      → v ≡ w
  value_at w before grown same held = ground (arith, entry_at before grown)

  old_at :
      (w : Text) (before : Dict Text)
      → middle ≡ insert name v before
      → lookup name before ≡ none
      → lookup x before ≡ some w
      → lookup x middle ≡ some w
  old_at w before grown new found = ground (arith, entry_at before grown, text_eq_iff name x)

module _ {ℓ} {E : Type ℓ} (one : Text → Dict Text → Result E (Dict Text))
    (Entry : Text → Text → Text → Type 0) where
  -- One round adds one new entry.
  abbrev pub AddsEntry : Type ℓ
  AddsEntry =
      (mapping : Text) (before after : Dict Text)
      → one mapping before ≡ ok after
      → (name : Text) × (v : Text) × Entry mapping name v
        × (lookup name before ≡ none)
        × (after ≡ insert name v before)

  abbrev Outcome : List Text → Dict Text → Dict Text → Type 0
  Outcome mappings before after =
      All (λ m. (name : Text) × (v : Text) × Entry m name v × (lookup name after ≡ some v)) mappings
      × ((name v : Text)
          → lookup name after ≡ some v
          → (lookup name before ≡ some v) ⊎ Some (λ m. Entry m name v) mappings)
      × ((name v : Text) → lookup name before ≡ some v → lookup name after ≡ some v)

  module _ (adds : AddsEntry) where
    for_each_outcome :
        (mappings : List Text) (before after : Dict Text)
        → for_each one mappings before ≡ ok after
        → Outcome mappings before after
    unfolding for_each
    for_each_outcome [] before after h = (tt, (λ name v found. inl (cc)), (λ name v found. cc))
    for_each_outcome (m ∷ rest) before after h = elim (Result-cases (one m before)) [
      | inl (e, failed) ↦ absurd (cc (rw failed at h))
      | inr (middle, done) ↦
          let (name, v, entry, new, grown) = adds m before middle done in
          let (all, from, kept) = for_each_outcome rest middle after (rw done at h) in
          (
            (
              (
                name,
                v,
                entry,
                kept name v (entry_at middle name v name before grown ∙ rw text_eq_refl),
              ),
              all,
            ),
            (λ x w found. elim (from x w found) [
              | inr later ↦ inr (inr later)
              | inl held ↦ elim (Bool-cases (text_eq name x)) [
                | inr differ ↦
                    inl (sym (rw differ at (entry_at middle name v x before grown)) ∙ held)
                | inl same ↦ inr (
                    inl (
                      subst (λ y. Entry m x y) (value_at middle name v x w before grown same held)
                        (subst (λ y. Entry m y v) ((text_eq_iff name x).0 same) entry)))
              ]
            ]),
            (λ x w found. kept x w (old_at middle name v x w before grown new found)),
          )
    ]

    -- Each mapping has its entry in the result, and the result holds no other entry.
    pub for_each_entries :
        (mappings : List Text) (after : Dict Text)
        → for_each one mappings [] ≡ ok after
        → All
            (λ m. (name : Text) × (v : Text) × Entry m name v × (lookup name after ≡ some v))
            mappings
          × ((name v : Text) → lookup name after ≡ some v → Some (λ m. Entry m name v) mappings)
    unfolding lookup
    for_each_entries mappings after h =
        let (all, from, _) = for_each_outcome mappings [] after h in
        (all, λ name v found. elim (from name v found) [ inl old ↦ absurd (cc) | inr e ↦ e ])

    -- What every entry has, all values of the result have.
    pub for_each-All :
        (P : Text → Text → Type 0)
        → ((mapping name v : Text) → Entry mapping name v → P name v)
        → (mappings : List Text) (before after : Dict Text)
        → All (λ (e : Text × Text). P e.0 e.1) before
        → for_each one mappings before ≡ ok after
        → All (λ (e : Text × Text). P e.0 e.1) after
    unfolding for_each
    for_each-All P gives [] before after all h =
        subst (λ (d : Dict Text). All (λ (e : Text × Text). P e.0 e.1) d) (ok_injective h) all
    for_each-All P gives (m ∷ rest) before after all h = elim (Result-cases (one m before)) [
      | inl (e, failed) ↦ absurd (cc (rw failed at h))
      | inr (middle, done) ↦
          let (name, v, entry, new, grown) = adds m before middle done in
          for_each-All P gives rest middle after
            (rw grown (insert-All P before name v all (gives m name v entry))) (rw done at h)
    ]

    pub for_each-UniqueKeys :
        (mappings : List Text) (before after : Dict Text)
        → UniqueKeys before
        → for_each one mappings before ≡ ok after
        → UniqueKeys after
    unfolding for_each
    for_each-UniqueKeys [] before after unique h =
        subst (λ (d : Dict Text). UniqueKeys d) (ok_injective h) unique
    for_each-UniqueKeys (m ∷ rest) before after unique h = elim (Result-cases (one m before)) [
      | inl (e, failed) ↦ absurd (cc (rw failed at h))
      | inr (middle, done) ↦
          let (name, v, entry, new, grown) = adds m before middle done in
          for_each-UniqueKeys rest middle after (rw grown (insert-UniqueKeys name v before unique))
            (rw done at h)
    ]
