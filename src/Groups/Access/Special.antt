-- ===== src/Groups/Access/Special.antt =====
-- The special bits of a file's mode play no part in the read check.
use go_safe_cmd_runner.Base.{
  ℕ, ◌+◌, ◌*◌, ◌%◌, ◌≡◌, ◌<◌, refl, ap, Bool, true, false, List, Text, Result, ok, err, ℤ, arith,
  if◌then◌else◌, ◌==◌, to_uint32,
}
use go_safe_cmd_runner.Groups.Members.{Cache}
use go_safe_cmd_runner.Groups.Access.{
  User, AccessError, check_maximum, after_group, is_user_in_group, has_bit,
  can_user_safely_read_file, and_not, permissions_exceed_maximum, max_allowed_read_perms,
  file_world_writable,
}

check_maximum_low :
    {E : Type 0} (p q maximum : ℕ)
    → p % 4096 ≡ q % 4096
    → check_maximum {E = E} p maximum ≡ check_maximum q maximum
unfolding check_maximum
check_maximum_low p q maximum h =
    ap
      (λ (n : ℕ).
        if and_not 12 n maximum == 0
        then ok tt
        else err (permissions_exceed_maximum n (and_not 12 n maximum) maximum))
      h

after_group_low :
    {E : Type 0} (p q : ℕ) (r : Result (AccessError E) Bool × Cache)
    → p % 4096 ≡ q % 4096
    → after_group p r ≡ after_group q r
unfolding after_group
after_group_low p q (err e, c) h = refl
after_group_low p q (ok false, c) h = refl
after_group_low p q (ok true, c) h =
    rw (check_maximum_low p q max_allowed_read_perms h, after_group) refl

module _ (E : Type 0) (enumerate_group_members : ℕ → ℕ → Result E (List Text))
    (lookup_id : ℤ → Result E User) (group_ids : User → Result E (List Text))
    (parse_uint32 : Text → Result E ℕ) where
  -- `os.FileMode` has setuid, setgid and sticky at bits 23, 22 and 20, not at 11 to 9: with any bits
  -- set from 20 upwards, the answer is that for the permissions alone.
  pub can_user_safely_read_file_special :
      (uid : ℤ) (file_gid perm special now : ℕ) (c : Cache)
      → perm < 512
      → can_user_safely_read_file E enumerate_group_members lookup_id group_ids parse_uint32 uid
          file_gid
          (perm + 1048576 * special)
          now
          c
        ≡ can_user_safely_read_file E enumerate_group_members lookup_id group_ids parse_uint32 uid
            file_gid perm now c
  unfolding can_user_safely_read_file
  can_user_safely_read_file_special uid file_gid perm special now c small =
      let low : (perm + 1048576 * special) % 512 ≡ perm % 512 = omega arith in
      let group : Result (AccessError E) Bool × Cache =
        if has_bit (perm % 512) 16
        then is_user_in_group E enumerate_group_members lookup_id group_ids parse_uint32
            (to_uint32 uid) file_gid now c
        else (ok true, c) in
      let tail = after_group_low {E = E} (perm + 1048576 * special) perm group (omega arith) in
      rw (low, can_user_safely_read_file)
        (ap
          (λ (r : Result (AccessError E) Bool × Cache).
            if has_bit (perm % 512) 2 then (err (file_world_writable (perm % 512)), c) else r)
          tail)
