-- ===== src/Expand/Refs/Complete.antt =====
-- A walk over references that all resolve, in a state that the resolver gives back.
use go_safe_cmd_runner.Base.{
  ℕ, zero, suc, ◌-◌, ◌≡◌, inl, inr, false, List, [], ◌∷◌, ◌++◌, append_assoc, append-nil, sym, ◌∙◌,
  ap, arith, Text, contains, Result, ok, Option-cases, Option, some,
}
use go_safe_cmd_runner.Names.{validate_variable_name}
use go_safe_cmd_runner.Expand.Pieces.{
  Piece, emit, reference, bad_escape, unclosed, next_piece, ExpandError,
}
use go_safe_cmd_runner.Expand.Refs.{State, Resolver, resolve_reference, round, walk}
use go_safe_cmd_runner.Expand.Refs.Sound.{Reads, ReadsPiece}
use go_safe_cmd_runner.Expand.Meaning.{prepend, prepend-some, value_if_name, read_piece, read}

module _ (value_of : Text → Option Text) where
  abbrev Stands : Text → Text → Type 0
  Stands name v = value_of name ≡ some v

  value_if_name_complete :
      (name v : Text)
      → validate_variable_name name ≡ ok tt
      → value_of name ≡ some v
      → value_if_name value_of name ≡ some v
  unfolding value_if_name
  value_if_name_complete name v valid stands = ground arith

  ReadsPiece-read_piece :
      (p : Piece) (Behind : ℕ → Text → Type 0) (behind : ℕ → Option Text) (out : Text)
      → ((k : ℕ) (w : Text) → Behind k w → behind k ≡ some w)
      → ReadsPiece Stands p Behind out
      → read_piece value_of p behind ≡ some out
  unfolding read_piece prepend
  ReadsPiece-read_piece (emit byte n) Behind behind out later (w, reads, q) =
      rw (later (n - 1) w reads) (ground arith)
  ReadsPiece-read_piece (bad_escape sequence) Behind behind out later h = absurd h
  ReadsPiece-read_piece unclosed Behind behind out later h = absurd h
  ReadsPiece-read_piece (reference name n) Behind behind out later (v, w, valid, stands, reads, q) =
      rw (value_if_name_complete name v valid stands, read_piece)
        (rw (later (n - 1) w reads) (ground arith))

  -- The relation of a function of names is what the specification reads.
  pub Reads-read : (k : ℕ) (t out : Text) → Reads Stands k t out → read value_of k t ≡ some out
  unfolding read
  Reads-read k [] out h = ap some (sym h)
  Reads-read (suc k) (c ∷ t) out h = Reads-read k t out h
  Reads-read zero (c ∷ t) out h =
      ReadsPiece-read_piece (next_piece c t) (λ k w. Reads Stands k t w) (λ k. read value_of k t)
        out (λ k w r. Reads-read k t w r) h

  value_if_name-some :
      (name v : Text)
      → value_if_name value_of name ≡ some v
      → (validate_variable_name name ≡ ok tt) × (value_of name ≡ some v)
  unfolding value_if_name
  value_if_name-some name v h = ground arith

module _ {ℓ} {M : Type ℓ} (resolver : Resolver M) (level field : Text) (chain : List Text) where
  resolve_reference_complete :
      (name v : Text) (st : State M)
      → validate_variable_name name ≡ ok tt
      → contains st.visited name ≡ false
      → resolver name chain st ≡ ok (v, st)
      → resolve_reference resolver level field chain name st ≡ ok (v, st)
  unfolding resolve_reference
  resolve_reference_complete name v st valid fresh resolved = ground arith

  extend :
      (out v w front : Text) (st : State M)
      → w ≡ front ++ v
      → ◌≡◌ {A = Result ExpandError (Text × State M)}
          (ok ((out ++ front) ++ v, st))
          (ok (out ++ w, st))
  extend out v w front st q =
      ap (λ o. ok (o, st)) (append_assoc out front v ∙ ap (λ x. out ++ x) (sym q))

  module _ (value_of : Text → Option Text) (st : State M)
      (resolves : (name v : Text)
        → value_of name ≡ some v
        → (contains st.visited name ≡ false) × (resolver name chain st ≡ ok (v, st)))
      (context : Text) where
    round_complete :
        (p : Piece) (out w : Text)
        (continue : ℕ → Text → State M → Result ExpandError (Text × State M))
        (behind : ℕ → Option Text)
        → ((k : ℕ) (o v : Text) → behind k ≡ some v → continue k o st ≡ ok (o ++ v, st))
        → read_piece value_of p behind ≡ some w
        → round resolver level field chain context p out st continue ≡ ok (out ++ w, st)
    unfolding round read_piece
    round_complete (emit byte n) out w continue behind later h =
        let (v, e, q) = prepend-some (byte ∷ []) (behind (n - 1)) w h in
        later (n - 1) (out ++ byte ∷ []) v e ∙ extend out v w (byte ∷ []) st q
    round_complete (bad_escape sequence) out w continue behind later h = absurd (ground arith)
    round_complete unclosed out w continue behind later h = absurd (ground arith)
    round_complete (reference name n) out w continue behind later h =
        elim (Option-cases (value_if_name value_of name)) [
          | inl missing ↦ absurd (ground arith)
          | inr (value, e) ↦
              let (valid, stands) = value_if_name-some value_of name value e in
              let (fresh, resolved) = resolves name value stands in
              let (v, e', q) = prepend-some value (behind (n - 1)) w (rw (e, read_piece) at h) in
              rw (resolve_reference_complete name value st valid fresh resolved, round)
                (later (n - 1) (out ++ value) v e' ∙ extend out v w value st q)
        ]

    pub walk_complete :
        (k : ℕ) (t out w : Text)
        → read value_of k t ≡ some w
        → walk resolver level field chain context k t out st ≡ ok (out ++ w, st)
    unfolding walk read
    walk_complete k [] out w h =
        ap (λ o. ok (o, st)) (sym (append-nil out) ∙ ap (λ x. out ++ x) (cc))
    walk_complete (suc k) (c ∷ t) out w h = walk_complete k t out w h
    walk_complete zero (c ∷ t) out w h =
        round_complete (next_piece c t) out w _ (λ k. read value_of k t)
          (λ k o v e. walk_complete k t o v e) h
