-- ===== src/Expand/Refs/Sound.antt =====
-- What a successful walk over the references has read, for any resolver with a sound contract.
use go_safe_cmd_runner.Base.{
  ℕ, zero, suc, ◌-◌, ◌≡◌, refl, inl, inr, false, List, [], ◌∷◌, ◌++◌, append_assoc, append-nil, sym,
  ◌∙◌, ap, subst, Result-cases, ok_pair, arith, Text, contains, Result, ok,
}
use go_safe_cmd_runner.Names.{validate_variable_name}
use go_safe_cmd_runner.Expand.Pieces.{
  ExpandError, Piece, emit, reference, bad_escape, unclosed, next_piece,
}
use go_safe_cmd_runner.Expand.Refs.{State, Resolver, resolve_reference, round, walk}

-- A text is read as another, where names stand for values by a relation.
module _ (R : Text → Text → Type 0) where
  abbrev pub ReadsPiece : Piece → (ℕ → Text → Type 0) → Text → Type 0
  ReadsPiece (emit byte n) Behind out = (w : Text) × Behind (n - 1) w × (out ≡ byte ∷ w)
  ReadsPiece (bad_escape sequence) Behind out = ⊥
  ReadsPiece unclosed Behind out = ⊥
  ReadsPiece (reference name n) Behind out =
      (v : Text) × (w : Text) × (validate_variable_name name ≡ ok tt)
      × R name v
      × Behind (n - 1) w
      × (out ≡ v ++ w)

  abbrev pub Reads : ℕ → Text → Text → Type 0
  Reads skip [] out = out ≡ []
  Reads (suc skip) (c ∷ rest) out = Reads skip rest out
  Reads zero (c ∷ rest) out = ReadsPiece (next_piece c rest) (λ skip w. Reads skip rest w) out

module _ (R S : Text → Text → Type 0) (weaken : (name v : Text) → R name v → S name v) where
  map_piece :
      (p : Piece) (Behind Behind' : ℕ → Text → Type 0) (out : Text)
      → ((n : ℕ) (w : Text) → Behind n w → Behind' n w)
      → ReadsPiece R p Behind out
      → ReadsPiece S p Behind' out
  map_piece (emit byte n) Behind Behind' out later (w, reads, q) = (w, later (n - 1) w reads, q)
  map_piece (bad_escape sequence) Behind Behind' out later r = r
  map_piece unclosed Behind Behind' out later r = r
  map_piece (reference name n) Behind Behind' out later (v, w, valid, stands, reads, q) =
      (v, w, valid, weaken name v stands, later (n - 1) w reads, q)

  pub Reads-map : (n : ℕ) (t out : Text) → Reads R n t out → Reads S n t out
  Reads-map n [] out r = r
  Reads-map (suc n) (c ∷ t) out r = Reads-map n t out r
  Reads-map zero (c ∷ t) out r =
      map_piece (next_piece c t) (λ n w. Reads R n t w) (λ n w. Reads S n t w) out
        (λ n w r'. Reads-map n t w r') r

module _ {ℓ} {M : Type ℓ} (resolver : Resolver M) (level field : Text) (chain : List Text) where
  -- The contract of a resolver: from a state with an invariant it gives a value that the name
  -- stands for, keeps the invariant, and leaves the visited names as they were.
  abbrev pub IsSound : (Text → Text → Type 0) → (State M → Type 0) → Type ℓ
  IsSound R P =
      (name v : Text) (s s' : State M)
      → contains s.visited name ≡ false
      → P s
      → resolver name chain s ≡ ok (v, s')
      → R name v × (s'.visited ≡ s.visited) × P s'

  resolve_reference_ok :
      (name v : Text) (s s' : State M)
      → resolve_reference resolver level field chain name s ≡ ok (v, s')
      → (validate_variable_name name ≡ ok tt)
        × (contains s.visited name ≡ false)
        × (resolver name chain s ≡ ok (v, s'))
  unfolding resolve_reference
  resolve_reference_ok name v s s' h = ground arith

  module _ (R : Text → Text → Type 0) (P : State M → Type 0) (sound : IsSound R P)
      (context : Text) where
    -- The outcome of a walk that has written `out`, over a text with the readings `Read`.
    abbrev Outcome : (Text → Type 0) → Text → State M → Text → State M → Type 0
    Outcome Read out s res s' =
        (w : Text) × Read w × (res ≡ out ++ w) × (s'.visited ≡ s.visited) × P s'

    round_sound :
        (p : Piece) (out res : Text) (s s' : State M)
        (continue : ℕ → Text → State M → Result ExpandError (Text × State M))
        (Behind : ℕ → Text → Type 0)
        → ((k : ℕ) (o : Text) (t : State M)
            → P t
            → continue k o t ≡ ok (res, s')
            → Outcome (Behind k) o t res s')
        → P s
        → round resolver level field chain context p out s continue ≡ ok (res, s')
        → Outcome (ReadsPiece R p Behind) out s res s'
    unfolding round
    round_sound (emit byte n) out res s s' continue Behind later p h =
        let (w, reads, q, same, kept) = later (n - 1) (out ++ byte ∷ []) s p h in
        (byte ∷ w, (w, reads, refl), q ∙ append_assoc out (byte ∷ []) w, same, kept)
    round_sound (bad_escape sequence) out res s s' continue Behind later p h = absurd (ground arith)
    round_sound unclosed out res s s' continue Behind later p h = absurd (ground arith)
    round_sound (reference name n) out res s s' continue Behind later p h =
        elim (Result-cases (resolve_reference resolver level field chain name s)) [
          | inl (e, failed) ↦ absurd (cc (rw (failed, round) at h))
          | inr ((v, t), found) ↦
              let (valid, fresh, resolved) = resolve_reference_ok name v s t found in
              let (stands, same, kept) = sound name v s t fresh p resolved in
              let (w, reads, q, same', kept') =
                later (n - 1) (out ++ v) t kept (rw (found, round) at h) in
              (
                v ++ w,
                (v, w, valid, stands, reads, refl),
                q ∙ append_assoc out v w,
                same' ∙ same,
                kept',
              )
        ]

    pub walk_sound :
        (k : ℕ) (t out res : Text) (s s' : State M)
        → P s
        → walk resolver level field chain context k t out s ≡ ok (res, s')
        → Outcome (Reads R k t) out s res s'
    unfolding walk
    walk_sound k [] out res s s' p h =
        let (same, kept) = ok_pair out res s s' h in
        (
          [],
          refl,
          sym same ∙ sym (append-nil out),
          ap (λ (x : State M). x.visited) (sym kept),
          subst P kept p,
        )
    walk_sound (suc k) (c ∷ t) out res s s' p h = walk_sound k t out res s s' p h
    walk_sound zero (c ∷ t) out res s s' p h =
        round_sound (next_piece c t) out res s s' _ (λ k w. Reads R k t w)
          (λ k o t' p' e. walk_sound k t o res t' s' p' e) p h
