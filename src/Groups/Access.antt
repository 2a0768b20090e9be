-- ===== src/Groups/Access.antt =====
-- The access checks of internal/groupmembership/manager.go. The user database and `strconv` are
-- parameters; every check carries the cache of group members.
pub mod Laws
pub mod Special
use go_safe_cmd_runner.Base.{
  ℕ, zero, suc, ◌+◌, ◌-◌, ◌*◌, ◌/◌, ◌%◌, ◌≡◌, refl, Bool, true, false, not, ◌&&◌, Option, none,
  some, List, [], ◌∷◌, Text, contains, decimal, text_eq, Result, ok, err, if◌then◌else◌, ◌==◌, ℤ,
  pos, exceeds_uint32, to_uint32,
}
use go_safe_cmd_runner.Groups.Members.{Cache, get_group_members}

-- `os/user.User`
pub record User : Type 0 where
  pub username : Text
  pub primary_gid : Text

pub data AccessError (E : Type 0) : Type 0 where
  uid_out_of_bounds : ℤ → AccessError E
  -- The permissions.
  file_world_writable file_not_owner : ℕ → AccessError E
  file_not_writable : ℤ → AccessError E
  group_writable_non_member : AccessError E
  -- The permissions, those not allowed, and the maximum.
  permissions_exceed_maximum : ℕ → ℕ → ℕ → AccessError E
  invalid_file_operation : AccessError E
  failed_to_lookup_user failed_to_get_members failed_to_parse_gid failed_to_get_groups :
      E → AccessError E

abbrev pub max_allowed_read_perms : ℕ
max_allowed_read_perms = 3581

abbrev pub max_allowed_write_perms : ℕ
max_allowed_write_perms = 436

-- `a &^ b` on the lowest bits.
unfoldable pub and_not : ℕ → ℕ → ℕ → ℕ
and_not zero a b = 0
and_not (suc width) a b = (a % 2) * (1 - b % 2) + 2 * and_not width (a / 2) (b / 2)

unfoldable pub has_bit : ℕ → ℕ → Bool
has_bit perm bit = (perm / bit) % 2 == 1

pub data FileOperation : Type 0 where
  file_op_read file_op_write : FileOperation
  unknown_file_op : ℕ → FileOperation

unfoldable pub check_maximum : {E : Type 0} → ℕ → ℕ → Result (AccessError E) (Unit {0})
check_maximum perm maximum =
    if and_not 12 (perm % 4096) maximum == 0
    then ok tt
    else err (permissions_exceed_maximum (perm % 4096) (and_not 12 (perm % 4096) maximum) maximum)

unfoldable pub validate_requested_permissions :
    {E : Type 0} → ℕ → FileOperation → Result (AccessError E) (Unit {0})
unfolding check_maximum
validate_requested_permissions perm file_op_read = check_maximum perm max_allowed_read_perms
validate_requested_permissions perm file_op_write = check_maximum perm max_allowed_write_perms
validate_requested_permissions perm (unknown_file_op n) = err invalid_file_operation

-- The result that follows a call of GetGroupMembers.
unfoldable pub with_members :
    {E : Type 0}
    → (List Text → Bool)
    → Result E (List Text) × Cache
    → Result (AccessError E) Bool × Cache
with_members test (ok members, c) = (ok (test members), c)
with_members test (err e, c) = (err (failed_to_get_members e), c)

-- `len(members) == 1 && members[0] == name`
unfoldable pub is_only_member : Text → List Text → Bool
is_only_member name [] = false
is_only_member name (m ∷ []) = text_eq m name
is_only_member name (m ∷ n ∷ rest) = false

-- What follows the test of the group, which is `ok true` where the group may not write.
unfoldable pub after_group :
    {E : Type 0} → ℕ → Result (AccessError E) Bool × Cache → Result (AccessError E) Bool × Cache
after_group file_perm (err e, c) = (err e, c)
after_group file_perm (ok false, c) = (err group_writable_non_member, c)
after_group file_perm (ok true, c) = elim (check_maximum file_perm max_allowed_read_perms) [
  | err e ↦ (err e, c)
  | ok done ↦ (ok true, c)
]

module _ (E : Type 0) (enumerate_group_members : ℕ → ℕ → Result E (List Text))
    (lookup_id : ℤ → Result E User) (group_ids : User → Result E (List Text))
    (parse_uint32 : Text → Result E ℕ) where
  unfoldable pub is_user_only_group_member : ℤ → ℕ → ℕ → Cache → Result (AccessError E) Bool × Cache
  unfolding with_members is_only_member
  is_user_only_group_member user_uid file_gid now c = elim (lookup_id user_uid) [
    | err e ↦ (err (failed_to_lookup_user e), c)
    | ok user ↦
        with_members (is_only_member user.username)
          (get_group_members E enumerate_group_members file_gid now c)
  ]

  unfoldable pub is_user_in_group : ℕ → ℕ → ℕ → Cache → Result (AccessError E) Bool × Cache
  unfolding with_members
  is_user_in_group uid gid now c = elim (lookup_id (pos uid)) [
    | err e ↦ (err (failed_to_lookup_user e), c)
    | ok user ↦ elim (parse_uint32 user.primary_gid) [
      | err e ↦ (err (failed_to_parse_gid e), c)
      | ok primary ↦ if primary == gid then (ok true, c) else elim (group_ids user) [
        | err e ↦ (err (failed_to_get_groups e), c)
        | ok ids ↦
            if contains ids (decimal gid)
            then (ok true, c)
            else with_members (λ members. contains members user.username)
                (get_group_members E enumerate_group_members gid now c)
      ]
    ]
  ]

  unfoldable pub can_user_safely_write_file :
      ℤ → ℕ → ℕ → ℕ → ℕ → Cache → Result (AccessError E) Bool × Cache
  unfolding has_bit
  can_user_safely_write_file user_uid file_uid file_gid file_perm now c =
      if exceeds_uint32 user_uid
      then (err (uid_out_of_bounds user_uid), c)
      else let perm = file_perm % 512 in
        if has_bit perm 2
        then (err (file_world_writable perm), c)
        else if has_bit perm 16
        then (if not (to_uint32 user_uid == file_uid)
            then (err (file_not_owner perm), c)
            else is_user_only_group_member user_uid file_gid now c)
        else if has_bit perm 128 && (to_uint32 user_uid == file_uid)
        then (ok true, c)
        else (err (file_not_writable user_uid), c)

  -- For the user that the policy names, resolved before.
  unfoldable pub can_user_safely_read_file :
      ℤ → ℕ → ℕ → ℕ → Cache → Result (AccessError E) Bool × Cache
  unfolding has_bit after_group
  can_user_safely_read_file permission_check_uid file_gid file_perm now c =
      let perm = file_perm % 512 in
      if has_bit perm 2
      then (err (file_world_writable perm), c)
      else after_group file_perm (
          if has_bit perm 16
          then is_user_in_group (to_uint32 permission_check_uid) file_gid now c
          else (ok true, c))
