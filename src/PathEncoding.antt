-- ===== src/PathEncoding.antt =====
-- internal/filevalidator/pathencoding/substitution_hash_escape.go: the reversible file name of a
-- path, and its encoder's and decoder's loops over runes.
pub mod RoundTrip
pub mod HashPath
use go_safe_cmd_runner.Base.{
  ℕ, ◌≡◌, refl, Bool, true, false, List, [], ◌∷◌, ◌++◌, Text, codes, ◌==◌, if◌then◌else◌, Result,
  ok, err,
}
use go_safe_cmd_runner.Utf8.{runes, write_rune}

-- `ErrInvalidPath` with its only cause `ErrEmptyPath`, and `ErrFallbackNotReversible`.
pub data EncodingError : Type 0 where
  invalid_path : Text → EncodingError
  fallback_not_reversible : Text → EncodingError

-- The bytes that one round of the encoder's loop writes.
unfoldable pub encode_char : ℕ → Text
unfolding write_rune
encode_char char =
    if char == b'/'
    then write_rune b'~'
    else if char == b'~'
    then codes "##"
    else if char == b'#'
    then codes "#1"
    else write_rune char

unfoldable pub encode_loop : List ℕ → Text → Text
encode_loop [] out = out
encode_loop (char ∷ rest) out = encode_loop rest (out ++ encode_char char)

unfoldable pub encode_optimized : Text → Text
unfolding encode_loop encode_char runes
encode_optimized path = encode_loop (runes path) []

unfoldable pub encode : Text → Result EncodingError Text
unfolding encode_optimized
encode [] = err (invalid_path [])
encode (c ∷ path) = ok (encode_optimized (c ∷ path))

-- What one round of the decoder's loop writes, and whether it skips the next rune.
pub data Round : Type 0 where
  single : Text → Round
  pair : Text → Round

decode_single : ℕ → Text
decode_single char = if char == b'~' then write_rune b'/' else write_rune char

decode_round : ℕ → ℕ → Round
unfolding decode_single
decode_round char next =
    if char == b'#'
    then if next == b'#'
      then pair (write_rune b'~')
      else if next == b'1'
      then pair (write_rune b'#')
      else single (write_rune char)
    else single (decode_single char)

decode_loop : List ℕ → Text → Text
unfolding decode_round
decode_loop [] out = out
decode_loop (char ∷ []) out = out ++ decode_single char
decode_loop (char ∷ next ∷ rest) out = elim (decode_round char next) [
  | single bytes ↦ decode_loop (next ∷ rest) (out ++ bytes)
  | pair bytes ↦ decode_loop rest (out ++ bytes)
]

unfoldable pub decode_optimized : Text → Text
unfolding decode_loop runes write_rune
decode_optimized encoded = decode_loop (runes encoded) []

unfoldable pub decode : Text → Result EncodingError Text
unfolding decode_optimized
decode [] = ok []
decode (c ∷ encoded) =
    if c == b'~'
    then ok (decode_optimized (c ∷ encoded))
    else err (fallback_not_reversible (c ∷ encoded))

encode_home : encode (codes "/home/a~b#1") ≡ ok (codes "~home~a##b#11")
unfolding encode
encode_home = refl

decode_home : decode (codes "~home~a##b#11") ≡ ok (codes "/home/a~b#1")
unfolding decode
decode_home = refl

decode_fallback : decode (codes "AbC.json") ≡ err (fallback_not_reversible (codes "AbC.json"))
unfolding decode
decode_fallback = refl
