-- ===== src/Groups/Database/Numbers.antt =====
-- What a number field and a line of the group databases are, apart from how they are read.
use go_safe_cmd_runner.Base.{
  ℕ, ◌+◌, ◌*◌, ◌-◌, ◌≤◌, ◌≡◌, ◌≢◌, ◌↔◌, refl, inl, inr, false, ◌&&◌, [], ◌∷◌, some, Text,
  has_prefix, leb, ltb, All, arith, max_uint32, Bool-cases, some_injective, text_eq,
}
use go_safe_cmd_runner.Groups.Database.{parse_digits, parse_uint32, is_skipped}

abbrev IsDigit : ℕ → Type 0
IsDigit c = (b'0' ≤ c) × (c ≤ b'9')

-- The number that decimal digits are, behind what stands before them.
abbrev value_from : ℕ → Text → ℕ
value_from n [] = n
value_from n (c ∷ s) = value_from (n * 10 + (c - b'0')) s

-- Decimal digits, at least one, of a number of 32 bits.
abbrev pub IsUint32 : Text → ℕ → Type 0
IsUint32 digits n =
    (digits ≢ []) × All IsDigit digits × (value_from 0 digits ≡ n) × (n ≤ max_uint32)

parse_digits_iff :
    (n g : ℕ) (s : Text)
    → (parse_digits n s ≡ some g) ↔ (All IsDigit s × (value_from n s ≡ g) × (g ≤ max_uint32))
unfolding parse_digits
parse_digits_iff n g [] = elim (Bool-cases (ltb max_uint32 n)) [
  | inl large ↦ (
    λ h. absurd (cc (rw (large, parse_digits) at h)),
    λ (_, e, le). absurd (ground (arith, large, e, le)),
  )
  | inr fits ↦ (
    λ h. let e = some_injective (rw (fits, parse_digits) at h) in (tt, e, ground (arith, fits, e)),
    λ (_, e, le). rw (fits, parse_digits, e) refl,
  )
]
parse_digits_iff n g (c ∷ s) =
    let (to, from) = parse_digits_iff (n * 10 + (c - b'0')) g s in
    elim (Bool-cases (leb b'0' c && leb c b'9')) [
      | inl digit ↦ (
        λ h.
            let (all, e, le) = to (rw (digit, parse_digits) at h) in
            (((ground (arith, digit), ground (arith, digit)), all), e, le),
        λ ((d, all), e, le). rw (digit, parse_digits) (from (all, e, le)),
      )
      | inr other ↦ (
        λ h. absurd (cc (rw (other, parse_digits) at h)),
        λ (((low, high), all), e, le). absurd (ground (arith, other, low, high)),
      )
    ]

pub parse_uint32_iff : (digits : Text) (n : ℕ) → (parse_uint32 digits ≡ some n) ↔ IsUint32 digits n
unfolding parse_uint32
parse_uint32_iff [] n = (λ h. absurd (cc), λ (nonempty, _, _, _). absurd (nonempty refl))
parse_uint32_iff (c ∷ s) n =
    let (to, from) = parse_digits_iff 0 n (c ∷ s) in
    (
      λ h. let (all, e, le) = to h in ((λ e'. absurd (cc)), all, e, le),
      λ (_, all, e, le). from (all, e, le),
    )

-- A text that is not empty and no comment.
abbrev pub IsEntryText : Text → Type 0
IsEntryText [] = ⊥
IsEntryText (c ∷ s) = c ≢ b'#'

pub is_skipped-IsEntryText : (t : Text) → (is_skipped t ≡ false) ↔ IsEntryText t
unfolding is_skipped has_prefix text_eq
is_skipped-IsEntryText [] = (λ h. absurd (cc), λ missing. absurd missing)
is_skipped-IsEntryText (c ∷ s) = (λ h e. ground (arith, h, e), λ other. ground (arith, other))
