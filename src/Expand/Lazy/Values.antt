-- ===== src/Expand/Lazy/Values.antt =====
-- What a variable stands for at one level: its inherited value, which is not expanded again, or
-- the meaning of its definition. No memo, no visited names, no order.
use go_safe_cmd_runner.Base.{
  ℕ, zero, suc, ◌+◌, ◌-◌, ◌≤◌, ◌≡◌, [], ◌∷◌, Option, none, some, Text, arith,
}
use go_safe_cmd_runner.Base.Dict.{Dict, lookup}
use go_safe_cmd_runner.Expand.Pieces.{Piece, emit, reference, bad_escape, unclosed, next_piece}
use go_safe_cmd_runner.Expand.Refs.Sound.{Reads, ReadsPiece, Reads-map}
use go_safe_cmd_runner.Expand.Refs.Complete.{Reads-read}
use go_safe_cmd_runner.Expand.Meaning.{read, read_mono}
use go_safe_cmd_runner.Expand.Lazy.{RawValue, string, array, other}

abbrev pub definition_of : Option RawValue → Option Text
definition_of none = none
definition_of (some (string rv)) = some rv
definition_of (some (array elements)) = none
definition_of (some other) = none

abbrev pub inherited_or : Option Text → Option Text → (Text → Option Text) → Option Text
inherited_or (some v) definition expand = some v
inherited_or none none expand = none
inherited_or none (some rv) expand = expand rv

module _ (base : Dict Text) (raw_vars : Dict RawValue) where
  unfoldable pub lazy_meaning : ℕ → Text → Option Text
  lazy_meaning zero text = none
  lazy_meaning (suc height) text =
      read
        (λ name.
          inherited_or (lookup name base) (definition_of (lookup name raw_vars))
            (lazy_meaning height))
        0 text

  unfoldable pub value_of : ℕ → Text → Option Text
  value_of height name =
      inherited_or (lookup name base) (definition_of (lookup name raw_vars)) (lazy_meaning height)

  inherited_or_mono :
      (inherited definition : Option Text) (f g : Text → Option Text)
      → ((t v : Text) → f t ≡ some v → g t ≡ some v)
      → (v : Text) → inherited_or inherited definition f ≡ some v
      → inherited_or inherited definition g ≡ some v
  inherited_or_mono (some w) definition f g le v h = h
  inherited_or_mono none none f g le v h = h
  inherited_or_mono none (some rv) f g le v h = le rv v h

  pub lazy_meaning_mono :
      (h k : ℕ) (t v : Text) → h ≤ k → lazy_meaning h t ≡ some v → lazy_meaning k t ≡ some v
  unfolding lazy_meaning
  lazy_meaning_mono zero k t v le e = absurd (ground arith)
  lazy_meaning_mono (suc h) zero t v le e = absurd (omega arith)
  lazy_meaning_mono (suc h) (suc k) t v le e =
      read_mono _ _
        (λ name w d.
          inherited_or_mono (lookup name base) (definition_of (lookup name raw_vars))
            (lazy_meaning h) (lazy_meaning k)
            (λ t' w' d'. lazy_meaning_mono h k t' w' (omega arith) d') w d)
        0 t v e

  pub value_of_mono :
      (h k : ℕ) (name v : Text) → h ≤ k → value_of h name ≡ some v → value_of k name ≡ some v
  unfolding value_of
  value_of_mono h k name v le e =
      inherited_or_mono (lookup name base) (definition_of (lookup name raw_vars)) (lazy_meaning h)
        (lazy_meaning k) (λ t w d. lazy_meaning_mono h k t w le d) v e

  pub value_of_defined :
      (height : ℕ) (name rv v : Text)
      → lookup name base ≡ none
      → lookup name raw_vars ≡ some (string rv)
      → lazy_meaning height rv ≡ some v
      → value_of height name ≡ some v
  unfolding value_of
  value_of_defined height name rv v absent found means = rw (absent, found) means

  pub value_of_inherited :
      (height : ℕ) (name v : Text) → lookup name base ≡ some v → value_of height name ≡ some v
  unfolding value_of
  value_of_inherited height name v found = rw found

  -- A name stands for a value, at some height. It stands for one at most.
  abbrev pub Stands : Text → Text → Type 0
  Stands name v = (h : ℕ) × (value_of h name ≡ some v)

  pub Stands-unique : (name v w : Text) → Stands name v → Stands name w → v ≡ w
  Stands-unique name v w (h, e) (k, d) = cc (
    value_of_mono h (h + k) name v (omega arith) e,
    value_of_mono k (h + k) name w (omega arith) d,
  )

  At : ℕ → Text → Text → Type 0
  At h name v = value_of h name ≡ some v

  At-mono : (h k : ℕ) (name v : Text) → h ≤ k → At h name v → At k name v
  unfolding At
  At-mono = value_of_mono

  common_piece :
      (p : Piece) (t out : Text)
      → ((n : ℕ) (w : Text) → Reads Stands n t w → (h : ℕ) × Reads (At h) n t w)
      → ReadsPiece Stands p (λ n w. Reads Stands n t w) out
      → (h : ℕ) × ReadsPiece (At h) p (λ n w. Reads (At h) n t w) out
  unfolding At
  common_piece (emit byte n) t out later (w, reads, q) =
      let (h, reads') = later (n - 1) w reads in (h, (w, reads', q))
  common_piece (bad_escape sequence) t out later r = absurd r
  common_piece unclosed t out later r = absurd r
  common_piece (reference name n) t out later (v, w, valid, (k, e), reads, q) =
      let (h, reads') = later (n - 1) w reads in
      (
        h + k,
        (
          v,
          w,
          valid,
          value_of_mono k (h + k) name v (omega arith) e,
          Reads-map (At h) (At (h + k)) (λ name' v' d. At-mono h (h + k) name' v' (omega arith) d)
              (n - 1) t w reads',
          q,
        ),
      )

  common_height : (n : ℕ) (t out : Text) → Reads Stands n t out → (h : ℕ) × Reads (At h) n t out
  common_height n [] out r = (0, r)
  common_height (suc n) (c ∷ t) out r = common_height n t out r
  common_height zero (c ∷ t) out r =
      common_piece (next_piece c t) t out (λ n w r'. common_height n t w r') r

  -- A text that is read by what the names stand for has that meaning, at some height.
  pub Reads-lazy_meaning :
      (t out : Text) → Reads Stands 0 t out → (h : ℕ) × (lazy_meaning h t ≡ some out)
  unfolding lazy_meaning At value_of
  Reads-lazy_meaning t out r =
      let (h, reads) = common_height 0 t out r in (suc h, Reads-read (value_of h) 0 t out reads)
