-- ===== src/Tests/Files.antt =====
-- Hash files, and the access to files, at concrete inputs.
use go_safe_cmd_runner.Base.{
  ℕ, ◌≡◌, ◌↔◌, ◌⊎◌, ◌+◌, ◌*◌, ◌/◌, ◌%◌, refl, true, false, Option, none, List, [], ◌∷◌, All, Text,
  codes, Result, ok, arith, ℤ, pos, to_uint32, exceeds_uint32,
}
use go_safe_cmd_runner.Utf8
use go_safe_cmd_runner.PathEncoding.{encode, decode, encode_optimized, encode_loop, encode_char}
use go_safe_cmd_runner.PathEncoding.RoundTrip.{
  name_of, escape, escape_all, decode-encode, encode_invalid_byte,
}
use go_safe_cmd_runner.PathEncoding.HashPath.{
  LacksSlash, encode-LacksSlash, get_hash_file_path-injective,
}
use go_safe_cmd_runner.Groups.Policy.{
  unset, real_uid_only, sudo_uid_aware, unknown, after_calls, first_settable, after_calls_first,
}
use go_safe_cmd_runner.Groups.Members.{clear_cache, get_group_members}
use go_safe_cmd_runner.Groups.Members.Recent
use go_safe_cmd_runner.Groups.Members.Recent.{EnumeratedBy, get_group_members-after_calls}
use go_safe_cmd_runner.Groups.SudoUid.{LookupError, resolve_permission_check_uid}
use go_safe_cmd_runner.Groups.SudoUid.Laws.{
  AllExist, NamesUser, asks_sudo_uid, resolve_permission_check_uid_iff,
}
use go_safe_cmd_runner.Groups.Access.{User, can_user_safely_write_file, can_user_safely_read_file}
use go_safe_cmd_runner.Groups.Access.Laws.{
  IsOnlyMember, IsMember, can_user_safely_write_file_iff, can_user_safely_read_file_iff,
}
use go_safe_cmd_runner.Groups.Access.Special.{can_user_safely_read_file_special}

abbrev path : List ℕ
path = b'a' ∷ b'~' ∷ b'/' ∷ 233 ∷ []

path-IsScalar : All Utf8.IsScalar path
path-IsScalar = (omega arith, (omega arith, (omega arith, (omega arith, tt))))

decode-encode_example :
    (name : Text) × (encode (Utf8.encode (b'/' ∷ path)) ≡ ok name)
    × (decode name ≡ ok (Utf8.encode (b'/' ∷ path)))
decode-encode_example = decode-encode path path-IsScalar

encode_invalid_byte_example : encode (b'/' ∷ 254 ∷ b'x' ∷ []) ≡ encode (b'/' ∷ 255 ∷ b'x' ∷ [])
encode_invalid_byte_example = encode_invalid_byte 254 255 (b'x' ∷ []) (omega arith) (omega arith)

encoded : encode (codes "/a/b") ≡ ok (codes "~a~b")
unfolding encode encode_optimized encode_loop encode_char Utf8.runes
encoded = refl

encode-LacksSlash_example : LacksSlash (codes "~a~b")
encode-LacksSlash_example = encode-LacksSlash (codes "/a/b") (codes "~a~b") encoded

-- A stand-in for the encoded digest.
abbrev digest : Text → Text
digest s = b'A' ∷ s

get_hash_file_path-injective_example : Utf8.encode (b'/' ∷ path) ≡ Utf8.encode (b'/' ∷ path)
get_hash_file_path-injective_example =
    get_hash_file_path-injective digest (λ s. (b'A', s, refl, (λ e. absurd (omega arith))))
      (codes "/h") path path (λ e. absurd (cc)) path-IsScalar path-IsScalar
      (unfold name_of escape escape_all Utf8.encode Utf8.write_rune Utf8.encode_scalar in
        omega arith)
      refl

after_calls_first_example :
    after_calls (unknown 7 ∷ sudo_uid_aware ∷ real_uid_only ∷ []) unset
    ≡ first_settable (unknown 7 ∷ sudo_uid_aware ∷ real_uid_only ∷ [])
after_calls_first_example = after_calls_first (unknown 7 ∷ sudo_uid_aware ∷ real_uid_only ∷ [])

-- A database in which every group has one member, and every user is in the group 100.
abbrev enumerate : ℕ → ℕ → Result Text (List Text)
enumerate now gid = ok (codes "alice" ∷ [])

abbrev lookup_id : ℤ → Result Text User
lookup_id uid = ok (record { username = codes "alice"; primary_gid = codes "100" })

abbrev group_ids : User → Result Text (List Text)
group_ids user = ok []

abbrev parse_uint32 : Text → Result Text ℕ
parse_uint32 s = ok 100

answered :
    (get_group_members Text enumerate 100 20
      (Recent.after_calls Text enumerate ((100, 5) ∷ (7, 9) ∷ []) clear_cache)).0
    ≡ ok (codes "alice" ∷ [])
unfolding get_group_members Recent.after_calls clear_cache
answered = refl

get_group_members-after_calls_example : EnumeratedBy Text enumerate 100 20 (codes "alice" ∷ [])
get_group_members-after_calls_example =
    get_group_members-after_calls Text enumerate ((100, 5) ∷ (7, 9) ∷ []) 100 20
      (codes "alice" ∷ []) (omega arith, (omega arith, omega arith)) answered

abbrev atoi : Text → Result Text ℤ
atoi s = ok (pos 1000)

abbrev user_exists : ℤ → Option (LookupError Text)
user_exists uid = none

resolve_permission_check_uid_iff_example :
    AllExist Text atoi user_exists
      (resolve_permission_check_uid Text atoi user_exists sudo_uid_aware
        (pos 0)
        (codes "1000")
        []).1
    × (((resolve_permission_check_uid Text atoi user_exists sudo_uid_aware
            (pos 0)
            (codes "1000")
            []).0
          ≡ ok (pos 1000))
        ↔ (((asks_sudo_uid Text atoi user_exists sudo_uid_aware (pos 0) (codes "1000") ≡ false)
              × (pos 0 ≡ pos 1000))
            ⊎ ((asks_sudo_uid Text atoi user_exists sudo_uid_aware (pos 0) (codes "1000") ≡ true)
                × NamesUser Text atoi user_exists (codes "1000") (pos 1000))))
resolve_permission_check_uid_iff_example =
    resolve_permission_check_uid_iff Text atoi user_exists sudo_uid_aware (pos 0) (pos 1000)
      (codes "1000") [] tt

-- Mode 0o664 of a file of alice and of the group 100.
can_user_safely_write_file_iff_example :
    ((can_user_safely_write_file Text enumerate lookup_id group_ids parse_uint32
        (pos 1000)
        1000
        100
        436
        20
        clear_cache).0
      ≡ ok true)
    ↔ ((exceeds_uint32 (pos 1000) ≡ false)
        × (436 / 2 % 2 ≡ 0)
        × (to_uint32 (pos 1000) ≡ 1000)
        × (((436 / 16 % 2 ≡ 0) × (436 / 128 % 2 ≡ 1))
            ⊎ ((436 / 16 % 2 ≡ 1)
                × IsOnlyMember Text enumerate lookup_id group_ids parse_uint32
                    (pos 1000)
                    100
                    20
                    clear_cache)))
can_user_safely_write_file_iff_example =
    can_user_safely_write_file_iff Text enumerate lookup_id group_ids parse_uint32 (pos 1000) 1000
      100 436 20 clear_cache

can_user_safely_read_file_iff_example :
    ((can_user_safely_read_file Text enumerate lookup_id group_ids parse_uint32
        (pos 1000)
        100
        436
        20
        clear_cache).0
      ≡ ok true)
    ↔ ((436 / 2 % 2 ≡ 0)
        × (436 / 512 % 2 ≡ 0)
        × ((436 / 16 % 2 ≡ 0)
            ⊎ ((436 / 16 % 2 ≡ 1)
                × IsMember Text enumerate lookup_id group_ids parse_uint32
                    (to_uint32 (pos 1000))
                    100
                    20
                    clear_cache)))
can_user_safely_read_file_iff_example =
    can_user_safely_read_file_iff Text enumerate lookup_id group_ids parse_uint32 (pos 1000) 100 436
      20 clear_cache

-- The sticky bit.
can_user_safely_read_file_special_example :
    can_user_safely_read_file Text enumerate lookup_id group_ids parse_uint32
      (pos 1000)
      100
      (436 + 1048576 * 1)
      20
      clear_cache
    ≡ can_user_safely_read_file Text enumerate lookup_id group_ids parse_uint32
        (pos 1000)
        100
        436
        20
        clear_cache
can_user_safely_read_file_special_example =
    can_user_safely_read_file_special Text enumerate lookup_id group_ids parse_uint32 (pos 1000) 100
      436 1 20 clear_cache (omega arith)
