-- ===== src/PathEncoding/HashPath.antt =====
-- internal/filevalidator/hybrid_hash_path_getter.go and sha256_path_hash_getter.go: where the
-- record of a file stands. SHA-256 with base64url is a parameter.
use go_safe_cmd_runner.Base.{
  ℕ, ◌≤◌, ◌≡◌, ◌≢◌, inl, inr, refl, subst, ap, List, [], ◌∷◌, ◌++◌, arith, Text, codes, take,
  length, All, All-append, if◌then◌else◌, leb, le→leb, Bool-cases, Result, ok, err, text_eq,
}
use go_safe_cmd_runner.Utf8
use go_safe_cmd_runner.Utf8.{IsScalar, runes, write_rune}
use go_safe_cmd_runner.PathEncoding.{EncodingError, encode_char, encode_loop, encode, decode}
use go_safe_cmd_runner.PathEncoding.RoundTrip.{name_of, encode-absolute, decode-name_of}

pub data HashPathError : Type 0 where
  empty_hash_dir : HashPathError
  failed_to_encode : EncodingError → HashPathError

abbrev pub max_filename_length : ℕ
max_filename_length = 250

-- `filepath.Join(dir, name)` at a clean absolute directory and a name of one component.
abbrev pub join : Text → Text → Text
join dir name = if text_eq dir (b'/' ∷ []) then b'/' ∷ name else dir ++ b'/' ∷ name

module _ (sha256_base64 : Text → Text) where
  unfoldable pub fallback_path : Text → Text → Result HashPathError Text
  fallback_path [] file_path = err empty_hash_dir
  fallback_path (c ∷ dir) file_path =
      ok (join (c ∷ dir) (take 12 (sha256_base64 file_path) ++ codes ".json"))

  unfoldable pub get_hash_file_path : Text → Text → Result HashPathError Text
  unfolding fallback_path
  get_hash_file_path [] file_path = err empty_hash_dir
  get_hash_file_path (c ∷ dir) file_path = elim (encode file_path) [
    | err e ↦ err (failed_to_encode e)
    | ok name ↦
        if leb (length name) max_filename_length
        then ok (join (c ∷ dir) name)
        else fallback_path (c ∷ dir) file_path
  ]

abbrev pub LacksSlash : Text → Type 0
LacksSlash = All (λ b. b ≢ b'/')

encode_char-LacksSlash : (c : ℕ) → LacksSlash (encode_char c)
unfolding encode_char
encode_char-LacksSlash c = ground arith

encode_loop-LacksSlash :
    (cs : List ℕ) (out : Text) → LacksSlash out → LacksSlash (encode_loop cs out)
unfolding encode_loop
encode_loop-LacksSlash [] out h = h
encode_loop-LacksSlash (c ∷ cs) out h =
    encode_loop-LacksSlash cs _ (All-append _ out (encode_char c) h (encode_char-LacksSlash c))

-- A name that the encoder returns is one component: it holds no slash, whatever bytes the path has.
pub encode-LacksSlash : (path name : Text) → encode path ≡ ok name → LacksSlash name
unfolding encode
encode-LacksSlash [] name e = absurd (cc)
encode-LacksSlash (c ∷ path) name e =
    subst LacksSlash (cc) (encode_loop-LacksSlash (runes (c ∷ path)) [] tt)

-- Injectivity of the join on names.
append_cancel {ℓ} : {A : Type ℓ} (xs ys zs : List A) → xs ++ ys ≡ xs ++ zs → ys ≡ zs
append_cancel [] ys zs e = e
append_cancel (x ∷ xs) ys zs e = append_cancel xs ys zs (cc)

join-injective : (dir m n : Text) → join dir m ≡ join dir n → m ≡ n
join-injective dir m n e = elim (Bool-cases (text_eq dir (b'/' ∷ []))) [
  | inl root ↦ ground arith
  | inr other ↦ ground (arith, append_cancel dir (b'/' ∷ m) (b'/' ∷ n))
]

-- With a directory given, the hash file of a valid absolute path is decided by its name's length.
hash_path_of :
    (sha256_base64 : Text → Text) (dir : Text) (cs : List ℕ)
    → dir ≢ []
    → All IsScalar cs
    → get_hash_file_path sha256_base64 dir (Utf8.encode (b'/' ∷ cs)) ≡ (
        if leb (length (name_of cs)) max_filename_length
        then ok (join dir (name_of cs))
        else ok (join dir (take 12 (sha256_base64 (Utf8.encode (b'/' ∷ cs))) ++ codes ".json")))
unfolding get_hash_file_path
hash_path_of sha256_base64 [] cs given h = absurd (given refl)
hash_path_of sha256_base64 (c ∷ dir) cs given h = ground (arith, encode-absolute cs h)

same_name :
    (cs ds : List ℕ)
    → All IsScalar cs
    → All IsScalar ds
    → name_of cs ≡ name_of ds
    → Utf8.encode (b'/' ∷ cs) ≡ Utf8.encode (b'/' ∷ ds)
same_name cs ds hc hd e = cc (decode-name_of cs hc, decode-name_of ds hd, ap decode e)

module _ (sha256_base64 : Text → Text)
    (alphabet : (s : Text)
      → (c : ℕ) × (rest : Text) × (sha256_base64 s ≡ c ∷ rest) × (c ≢ b'~')) where
  not_fallback :
      (dir : Text) (cs : List ℕ) (path : Text)
      → join dir (name_of cs) ≢ join dir (take 12 (sha256_base64 path) ++ codes ".json")
  unfolding name_of
  not_fallback dir cs path e =
      let (c, rest, spelled, other) = alphabet path in
      let same = rw spelled at (join-injective dir _ _ e) in other (cc same)

  -- No other absolute path of valid UTF-8 has the hash file of a path whose name fits, be the
  -- other's name long or short.
  pub get_hash_file_path-injective :
      (dir : Text) (cs ds : List ℕ)
      → dir ≢ []
      → All IsScalar cs
      → All IsScalar ds
      → length (name_of cs) ≤ max_filename_length
      → get_hash_file_path sha256_base64 dir (Utf8.encode (b'/' ∷ cs))
        ≡ get_hash_file_path sha256_base64 dir (Utf8.encode (b'/' ∷ ds))
      → Utf8.encode (b'/' ∷ cs) ≡ Utf8.encode (b'/' ∷ ds)
  get_hash_file_path-injective dir cs ds given hc hd fits same =
      let short = le→leb (length (name_of cs)) max_filename_length fits in
      let left = hash_path_of sha256_base64 dir cs given hc in
      let right = hash_path_of sha256_base64 dir ds given hd in
      elim (Bool-cases (leb (length (name_of ds)) max_filename_length)) [
        | inl fits' ↦
            same_name cs ds hc hd
              (join-injective dir _ _ (cc (same, rw short at left, rw fits' at right)))
        | inr long ↦ absurd (
            not_fallback dir cs (Utf8.encode (b'/' ∷ ds))
              (cc (same, rw short at left, rw long at right)))
      ]
