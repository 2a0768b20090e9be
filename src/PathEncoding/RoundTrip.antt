-- ===== src/PathEncoding/RoundTrip.antt =====
-- The file name of a path gives the path back.
use go_safe_cmd_runner.Base.{
  ℕ, ◌≤◌, ◌≡◌, sym, ◌∙◌, ap, List, [], ◌∷◌, ◌++◌, append_assoc, append-nil, arith, Text, All,
  All-append, ◌==◌, if◌then◌else◌, ok,
}
use go_safe_cmd_runner.Utf8
use go_safe_cmd_runner.Utf8.{
  IsScalar, runes, runes-encode, runes_invalid, encode-append, write_rune,
}
use go_safe_cmd_runner.PathEncoding.{
  encode_char, encode_loop, encode_optimized, encode, decode_loop, decode_optimized, decode,
}

-- The runes that stand for one rune of the path.
unfoldable pub escape : ℕ → List ℕ
escape c =
    if c == b'/'
    then b'~' ∷ []
    else if c == b'~'
    then b'#' ∷ b'#' ∷ []
    else if c == b'#'
    then b'#' ∷ b'1' ∷ []
    else c ∷ []

unfoldable pub escape_all : List ℕ → List ℕ
escape_all [] = []
escape_all (c ∷ cs) = escape c ++ escape_all cs

encode_char-escape : (c : ℕ) → encode_char c ≡ Utf8.encode (escape c)
unfolding encode_char escape Utf8.encode
encode_char-escape c = ground (arith, append-nil (write_rune c))

encode_loop-escape_all :
    (cs : List ℕ) (out : Text) → encode_loop cs out ≡ out ++ Utf8.encode (escape_all cs)
unfolding encode_loop escape_all
encode_loop-escape_all [] out = unfold Utf8.encode in sym (append-nil out)
encode_loop-escape_all (c ∷ cs) out =
    rw (encode_loop-escape_all cs, encode_char-escape c, encode-append, append_assoc)

escape-IsScalar : (c : ℕ) → IsScalar c → All IsScalar (escape c)
unfolding escape
escape-IsScalar c v = ground arith

escape_all-IsScalar : (cs : List ℕ) → All IsScalar cs → All IsScalar (escape_all cs)
unfolding escape_all
escape_all-IsScalar [] h = tt
escape_all-IsScalar (c ∷ cs) (v, h) =
    All-append IsScalar (escape c) (escape_all cs) (escape-IsScalar c v) (escape_all-IsScalar cs h)

-- One decoding round undoes `escape`, whatever runes follow.
decode_loop-escape :
    (c : ℕ) (rest : List ℕ) (out : Text)
    → decode_loop (escape c ++ rest) out ≡ decode_loop rest (out ++ write_rune c)
unfolding decode_loop escape
decode_loop-escape c [] out = ground (arith, append_assoc out (write_rune c) [])
decode_loop-escape c (d ∷ rest) out = ground arith

decode_loop-escape_all :
    (cs : List ℕ) (out : Text) → decode_loop (escape_all cs) out ≡ out ++ Utf8.encode cs
unfolding escape_all
decode_loop-escape_all [] out = unfold decode_loop Utf8.encode in sym (append-nil out)
decode_loop-escape_all (c ∷ cs) out =
    decode_loop-escape c (escape_all cs) out
    ∙ decode_loop-escape_all cs (out ++ write_rune c)
    ∙ unfold Utf8.encode in append_assoc out (write_rune c) (Utf8.encode cs)

encode_optimized-encode :
    (cs : List ℕ)
    → All IsScalar cs
    → encode_optimized (Utf8.encode cs) ≡ Utf8.encode (escape_all cs)
unfolding encode_optimized
encode_optimized-encode cs h = rw (runes-encode cs h) (encode_loop-escape_all cs [])

decode_optimized-encode :
    (cs : List ℕ)
    → All IsScalar cs
    → decode_optimized (Utf8.encode (escape_all cs)) ≡ Utf8.encode cs
unfolding decode_optimized
decode_optimized-encode cs h =
    rw (runes-encode (escape_all cs) (escape_all-IsScalar cs h)) (decode_loop-escape_all cs [])

-- The name of an absolute path of valid UTF-8.
unfoldable pub name_of : List ℕ → Text
name_of cs = b'~' ∷ Utf8.encode (escape_all cs)

pub encode-absolute :
    (cs : List ℕ) → All IsScalar cs → encode (Utf8.encode (b'/' ∷ cs)) ≡ ok (name_of cs)
unfolding name_of encode Utf8.encode escape_all escape
encode-absolute cs h = ap ok (encode_optimized-encode (b'/' ∷ cs) (omega arith, h))

pub decode-name_of :
    (cs : List ℕ) → All IsScalar cs → decode (name_of cs) ≡ ok (Utf8.encode (b'/' ∷ cs))
unfolding name_of decode Utf8.encode escape_all escape
decode-name_of cs h = ap ok (decode_optimized-encode (b'/' ∷ cs) (omega arith, h))

-- Encoding an absolute path of valid UTF-8 succeeds, and decoding the name gives the path back.
pub decode-encode :
    (cs : List ℕ)
    → All IsScalar cs
    → (name : Text) × (encode (Utf8.encode (b'/' ∷ cs)) ≡ ok name)
      × (decode name ≡ ok (Utf8.encode (b'/' ∷ cs)))
decode-encode cs h = (name_of cs, encode-absolute cs h, decode-name_of cs h)

-- Two absolute paths that differ only in their first byte behind the root, where it is 0xf5 or more
-- and so begins no UTF-8 sequence, are encoded to one name.
pub encode_invalid_byte :
    (a b : ℕ) (s : Text) → 0xf5 ≤ a → 0xf5 ≤ b → encode (b'/' ∷ a ∷ s) ≡ encode (b'/' ∷ b ∷ s)
unfolding encode
encode_invalid_byte a b s ha hb =
    ap (λ cs. ok (encode_loop cs []))
      (runes_invalid (b'/') a s (omega arith) ha ∙ sym (runes_invalid (b'/') b s (omega arith) hb))
