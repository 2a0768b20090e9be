-- ===== src/Expand/Meaning.antt =====
-- What a text with references stands for, with no set of visited names, no chain and no memo: the
-- specification of `processVarRefs` in internal/runner/config/expansion.go.
use go_safe_cmd_runner.Base.{
  ℕ, zero, suc, ◌-◌, ◌≤◌, ◌≡◌, inl, inr, refl, [], ◌∷◌, ◌++◌, Option, none, some, Text, arith, ok,
  err, Option-cases,
}
use go_safe_cmd_runner.Names.{validate_variable_name}
use go_safe_cmd_runner.Expand.Pieces.{Piece, emit, reference, bad_escape, unclosed, next_piece}

unfoldable pub prepend : Text → Option Text → Option Text
prepend front none = none
prepend front (some behind) = some (front ++ behind)

-- A text is read piece by piece, and each name by a function of its own.
module _ (value_of : Text → Option Text) where
  unfoldable pub value_if_name : Text → Option Text
  value_if_name name = elim (validate_variable_name name) [ err _ ↦ none | ok _ ↦ value_of name ]

  unfoldable pub read_piece : Piece → (ℕ → Option Text) → Option Text
  unfolding prepend
  read_piece (emit byte n) behind = prepend (byte ∷ []) (behind (n - 1))
  read_piece (bad_escape sequence) behind = none
  read_piece unclosed behind = none
  read_piece (reference name n) behind = elim (value_if_name name) [
    | none ↦ none
    | some value ↦ prepend value (behind (n - 1))
  ]

  unfoldable pub read : ℕ → Text → Option Text
  unfolding read_piece
  read skip [] = some []
  read (suc skip) (c ∷ rest) = read skip rest
  read zero (c ∷ rest) = read_piece (next_piece c rest) (λ skip. read skip rest)

-- A name by the meaning of the text that `look` defines it with.
abbrev pub defined_by : (Text → Option Text) → (Text → Option Text) → Text → Option Text
defined_by look expand name = elim (look name) [ none ↦ none | some value ↦ expand value ]

-- The meaning with references nested less than `height` deep, where `look` gives the text that
-- defines a name.
unfoldable pub meaning : (Text → Option Text) → ℕ → Text → Option Text
meaning look zero text = none
meaning look (suc height) text = read (defined_by look (meaning look height)) 0 text

pub prepend-some :
    (front : Text) (o : Option Text) (v : Text)
    → prepend front o ≡ some v
    → (w : Text) × (o ≡ some w) × (v ≡ front ++ w)
unfolding prepend
prepend-some front none v h = absurd (ground arith)
prepend-some front (some w) v h = (w, refl, ground arith)

module _ (f g : Text → Option Text) (le : (name v : Text) → f name ≡ some v → g name ≡ some v) where
  value_if_name_mono :
      (name v : Text) → value_if_name f name ≡ some v → value_if_name g name ≡ some v
  unfolding value_if_name
  value_if_name_mono name v h = ground (arith, le name v)

  read_piece_mono :
      (p : Piece) (a b : ℕ → Option Text) (v : Text)
      → ((k : ℕ) (w : Text) → a k ≡ some w → b k ≡ some w)
      → read_piece f p a ≡ some v
      → read_piece g p b ≡ some v
  unfolding read_piece prepend
  read_piece_mono (emit byte n) a b v later h =
      let (w, e, q) = prepend-some (byte ∷ []) (a (n - 1)) v h in
      rw (later (n - 1) w e) (ground arith)
  read_piece_mono (bad_escape sequence) a b v later h = absurd (ground arith)
  read_piece_mono unclosed a b v later h = absurd (ground arith)
  read_piece_mono (reference name n) a b v later h = elim (Option-cases (value_if_name f name)) [
    | inl missing ↦ absurd (ground arith)
    | inr (value, e) ↦
        let (w, e', q) = prepend-some value (a (n - 1)) v (rw (e, read_piece) at h) in
        rw (value_if_name_mono name value e, read_piece) (rw (later (n - 1) w e') (ground arith))
  ]

  pub read_mono : (k : ℕ) (t v : Text) → read f k t ≡ some v → read g k t ≡ some v
  unfolding read
  read_mono k [] v h = h
  read_mono (suc k) (c ∷ t) v h = read_mono k t v h
  read_mono zero (c ∷ t) v h = read_piece_mono (next_piece c t) _ _ v (λ k w e. read_mono k t w e) h

defined_by_mono :
    (look f g : Text → Option Text)
    → ((t v : Text) → f t ≡ some v → g t ≡ some v)
    → (name v : Text) → defined_by look f name ≡ some v
    → defined_by look g name ≡ some v
defined_by_mono look f g le name v h = elim (Option-cases (look name)) [
  | inl missing ↦ absurd (ground arith)
  | inr (value, e) ↦ rw (e, defined_by) (le value v (rw (e, defined_by) at h))
]

module _ (look : Text → Option Text) where
  pub meaning-suc :
      (h : ℕ) (t v : Text) → meaning look h t ≡ some v → meaning look (suc h) t ≡ some v
  unfolding meaning
  meaning-suc zero t v e = absurd (ground arith)
  meaning-suc (suc h) t v e =
      read_mono (defined_by look (meaning look h)) (defined_by look (meaning look (suc h)))
        (λ name w d.
          defined_by_mono look (meaning look h) (meaning look (suc h)) (meaning-suc h) name w d)
        0 t v e

  pub meaning_mono :
      (h k : ℕ) (t v : Text) → h ≤ k → meaning look h t ≡ some v → meaning look k t ≡ some v
  unfolding meaning
  meaning_mono zero k t v le e = absurd (ground arith)
  meaning_mono (suc h) zero t v le e = absurd (omega arith)
  meaning_mono (suc h) (suc k) t v le e =
      read_mono (defined_by look (meaning look h)) (defined_by look (meaning look k))
        (defined_by_mono look (meaning look h) (meaning look k)
          (λ t' w d. meaning_mono h k t' w (omega arith) d))
        0 t v e
