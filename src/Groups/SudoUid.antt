-- ===== src/Groups/SudoUid.antt =====
-- The user of a permission check (internal/groupmembership/manager.go): the real user, or under
-- sudo the user that SUDO_UID names. `strconv.Atoi` and the user database are parameters.
pub mod Laws
use go_safe_cmd_runner.Base.{
  Bool, true, false, not, ◌||◌, Option, none, some, List, [], ◌∷◌, Text, Result, ok, err,
  if◌then◌else◌, ℤ, pos, exceeds_uint32, int_eq, text_eq,
}
use go_safe_cmd_runner.Groups.Policy.{Policy, sudo_uid_aware}

-- What `user.LookupId` fails with.
pub data LookupError (E : Type 0) : Type 0 where
  unknown_user_id : LookupError E
  other_error : E → LookupError E

pub data SudoUidError (E : Type 0) : Type 0 where
  failed_to_parse : Text → E → SudoUidError E
  out_of_range : Text → SudoUidError E
  user_not_found : Text → SudoUidError E
  user_lookup_failed : Text → E → SudoUidError E

unfoldable pub is_sudo_uid_aware : Policy → Bool
is_sudo_uid_aware sudo_uid_aware = true
is_sudo_uid_aware _ = false

-- The UIDs that were confirmed to exist.
unfoldable pub is_confirmed : ℤ → List ℤ → Bool
is_confirmed uid [] = false
is_confirmed uid (x ∷ xs) = int_eq x uid || is_confirmed uid xs

module _ (E : Type 0) (atoi : Text → Result E ℤ) (lookup_id : ℤ → Option (LookupError E)) where
  unfoldable pub parse_sudo_uid : Text → Result (SudoUidError E) ℤ
  parse_sudo_uid sudo_uid = elim (atoi sudo_uid) [
    | err e ↦ err (failed_to_parse sudo_uid e)
    | ok uid ↦ if exceeds_uint32 uid then err (out_of_range sudo_uid) else ok uid
  ]

  -- `sudoUIDExistenceMemo.verify`: an error of the lookup, and the memo behind it.
  unfoldable pub verify : ℤ → List ℤ → Option (LookupError E) × List ℤ
  verify uid confirmed =
      if is_confirmed uid confirmed
      then (none, confirmed)
      else elim (lookup_id uid) [ some e ↦ (some e, confirmed) | none ↦ (none, uid ∷ confirmed) ]

  unfoldable pub sudo_uid_result : Text → ℤ → Option (LookupError E) → Result (SudoUidError E) ℤ
  sudo_uid_result sudo_uid uid none = ok uid
  sudo_uid_result sudo_uid uid (some unknown_user_id) = err (user_not_found sudo_uid)
  sudo_uid_result sudo_uid uid (some (other_error e)) = err (user_lookup_failed sudo_uid e)

  -- The value of SUDO_UID is the empty text where it is unset.
  unfoldable pub resolve_permission_check_uid :
      Policy → ℤ → Text → List ℤ → Result (SudoUidError E) ℤ × List ℤ
  resolve_permission_check_uid policy real_uid sudo_uid confirmed =
      if not (is_sudo_uid_aware policy) || not (int_eq real_uid (pos 0))
      then (ok real_uid, confirmed)
      else if text_eq sudo_uid []
      then (ok real_uid, confirmed)
      else elim (parse_sudo_uid sudo_uid) [
        | err e ↦ (err e, confirmed)
        | ok uid ↦ (sudo_uid_result sudo_uid uid (verify uid confirmed).0, (verify uid confirmed).1)
      ]
