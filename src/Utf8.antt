-- ===== src/Utf8.antt =====
-- UTF-8 as the Go language reads and writes it: `range` over a string and `[]rune(s)` decode, and
-- a byte that begins no valid sequence becomes U+FFFD and is one byte long; `WriteRune` encodes.
-- Code of the language, which internal/filevalidator/pathencoding relies on.
use go_safe_cmd_runner.Base.{
  ℕ, zero, suc, ◌+◌, ◌-◌, ◌*◌, ◌/◌, ◌%◌, ◌≤◌, ◌<◌, ◌≡◌, ◌⊎◌, inl, inr, refl, Bool, ◌&&◌, ◌||◌, List,
  [], ◌∷◌, ◌++◌, append_assoc, arith, Text, All, ltb, leb, ◌==◌, if◌then◌else◌, Bool-cases, ap,
}

abbrev pub replacement : ℕ
replacement = 0xfffd

-- A Unicode scalar value: no surrogate, and at most U+10FFFF.
abbrev pub IsScalar : ℕ → Type 0
IsScalar r = (r < 0xd800) ⊎ ((0xe000 ≤ r) × (r ≤ 0x10ffff))

abbrev is_scalar : ℕ → Bool
is_scalar r = ltb r 0xd800 || leb 0xe000 r && leb r 0x10ffff

abbrev cont : ℕ → ℕ
cont x = 0x80 + x % 64

unfoldable pub encode_scalar : ℕ → Text
encode_scalar r =
    if ltb r 0x80
    then r ∷ []
    else if ltb r 0x800
    then (0xc0 + r / 64) ∷ cont r ∷ []
    else if ltb r 0x10000
    then (0xe0 + r / 4096) ∷ cont (r / 64) ∷ cont r ∷ []
    else (0xf0 + r / 262144) ∷ cont (r / 4096) ∷ cont (r / 64) ∷ cont r ∷ []

-- `WriteRune(r)`
unfoldable pub write_rune : ℕ → Text
unfolding encode_scalar
write_rune r = if is_scalar r then encode_scalar r else encode_scalar replacement

abbrev within : ℕ → ℕ → ℕ → Bool
within lo hi c = leb lo c && leb c hi

abbrev is_cont : ℕ → Bool
is_cont = within 0x80 0xbf

-- The rune at the front, and its length in bytes.
abbrev invalid : ℕ × ℕ
invalid = (replacement, 1)

two : ℕ → Text → ℕ × ℕ
two b [] = invalid
two b (c ∷ s) = if is_cont c then ((b - 0xc0) * 64 + (c - 0x80), 2) else invalid

-- The second byte is bounded: no overlong form and no surrogate.
three : ℕ → Text → ℕ × ℕ
three b [] = invalid
three b (c ∷ []) = invalid
three b (c ∷ d ∷ s) =
    if within (if b == 0xe0 then 0xa0 else 0x80) (if b == 0xed then 0x9f else 0xbf) c && is_cont d
    then ((b - 0xe0) * 4096 + (c - 0x80) * 64 + (d - 0x80), 3)
    else invalid

-- The second byte is bounded: no overlong form, and nothing above U+10FFFF.
four : ℕ → Text → ℕ × ℕ
four b [] = invalid
four b (c ∷ []) = invalid
four b (c ∷ d ∷ []) = invalid
four b (c ∷ d ∷ e ∷ s) =
    if within (if b == 0xf0 then 0x90 else 0x80) (if b == 0xf4 then 0x8f else 0xbf) c
      && (is_cont d && is_cont e)
    then ((b - 0xf0) * 262144 + (c - 0x80) * 4096 + (d - 0x80) * 64 + (e - 0x80), 4)
    else invalid

decode_rune : ℕ → Text → ℕ × ℕ
unfolding two three four
decode_rune b s =
    if ltb b 0x80
    then (b, 1)
    else if within 0xc2 0xdf b
    then two b s
    else if within 0xe0 0xef b
    then three b s
    else if within 0xf0 0xf4 b
    then four b s
    else invalid

-- The number is the bytes that the last rune still covers.
runes_from : ℕ → Text → List ℕ
runes_from skip [] = []
runes_from zero (b ∷ s) = let (r, n) = decode_rune b s in r ∷ runes_from (n - 1) s
runes_from (suc skip) (b ∷ s) = runes_from skip s

-- `[]rune(s)`
unfoldable pub runes : Text → List ℕ
unfolding runes_from decode_rune
runes = runes_from 0

decode_one : (r : ℕ) (s : Text) → r < 0x80 → runes_from 0 (r ∷ s) ≡ r ∷ runes_from 0 s
unfolding runes_from decode_rune
decode_one r s h = ground arith

decode_two :
    (b c : ℕ) (s : Text) (r : ℕ)
    → 0x80 ≤ r
    → r < 0x800
    → b ≡ 0xc0 + r / 64
    → c ≡ cont r
    → runes_from 0 (b ∷ c ∷ s) ≡ r ∷ runes_from 0 s
unfolding runes_from decode_rune
decode_two b c s r lo hi p q = ground arith

decode_three :
    (b c d : ℕ) (s : Text) (r : ℕ)
    → 0x800 ≤ r
    → r < 0x10000
    → IsScalar r
    → b ≡ 0xe0 + r / 4096
    → c ≡ cont (r / 64)
    → d ≡ cont r
    → runes_from 0 (b ∷ c ∷ d ∷ s) ≡ r ∷ runes_from 0 s
unfolding runes_from decode_rune
decode_three b c d s r lo hi v p q t = ground arith

decode_four :
    (b c d e : ℕ) (s : Text) (r : ℕ)
    → 0x10000 ≤ r
    → r ≤ 0x10ffff
    → b ≡ 0xf0 + r / 262144
    → c ≡ cont (r / 4096)
    → d ≡ cont (r / 64)
    → e ≡ cont r
    → runes_from 0 (b ∷ c ∷ d ∷ e ∷ s) ≡ r ∷ runes_from 0 s
unfolding runes_from decode_rune
decode_four b c d e s r lo hi p q t u = ground arith

runes-encode_scalar :
    (r : ℕ) (s : Text) → IsScalar r → runes_from 0 (encode_scalar r ++ s) ≡ r ∷ runes_from 0 s
unfolding encode_scalar
runes-encode_scalar r s v = elim (Bool-cases (ltb r 0x80)) [
  | inl a ↦ rw a (decode_one r s (ground arith))
  | inr a ↦ rw a elim (Bool-cases (ltb r 0x800)) [
    | inl b ↦ rw b (decode_two _ _ s r (ground arith) (ground arith) refl refl)
    | inr b ↦ rw b elim (Bool-cases (ltb r 0x10000)) [
      | inl c ↦ rw c (decode_three _ _ _ s r (ground arith) (ground arith) v refl refl refl)
      | inr c ↦ rw c (decode_four _ _ _ _ s r (ground arith) (ground arith) refl refl refl refl)
    ]
  ]
]

write_rune-scalar : (r : ℕ) → IsScalar r → write_rune r ≡ encode_scalar r
unfolding write_rune
write_rune-scalar r v = ground arith

-- `string(rs)`
unfoldable pub encode : List ℕ → Text
encode [] = []
encode (r ∷ rs) = write_rune r ++ encode rs

pub encode-append : (rs ts : List ℕ) → encode (rs ++ ts) ≡ encode rs ++ encode ts
unfolding encode
encode-append [] ts = refl
encode-append (r ∷ rs) ts = simp (encode-append rs ts, append_assoc)

-- Scalars are read back from the bytes that spell them.
pub runes-encode : (rs : List ℕ) → All IsScalar rs → runes (encode rs) ≡ rs
unfolding encode runes
runes-encode [] h = unfold runes_from in refl
runes-encode (r ∷ rs) (v, h) =
    rw (write_rune-scalar r v, runes-encode_scalar r (encode rs) v)
      (ap (λ x. r ∷ x) (runes-encode rs h))

-- A byte of no UTF-8 sequence is read as the replacement character, whichever byte it is.
pub runes_invalid :
    (c b : ℕ) (s : Text) → c < 0x80 → 0xf5 ≤ b → runes (c ∷ b ∷ s) ≡ c ∷ replacement ∷ runes s
unfolding runes
runes_invalid c b s hc hb = rw (decode_one c (b ∷ s) hc) (ap (λ x. c ∷ x) (ground arith))
