-- ===== src/Privilege/Manager.antt =====
-- The privilege manager of internal/runner/base/privilege/unix.go. The kernel's seteuid and the
-- reading of the saved-set IDs are parameters, as is the callback, which may change anything of the
-- process. The mutex makes a call one step; logging is left out; `os.Exit` ends the process.
pub mod Restored
pub mod Elevated
use go_safe_cmd_runner.Base.{
  ℕ, ◌≡◌, refl, Bool, true, false, not, ◌&&◌, ◌||◌, Option, none, some, Result, ok, err,
  if◌then◌else◌, ◌==◌, ℤ, pos, negsuc, int_eq,
}
use go_safe_cmd_runner.Privilege.Metrics.{
  Metrics, record_elevation_success, record_elevation_failure,
}

-- The IDs of the process.
pub record Process : Type 0 where
  pub uid : ℕ
  pub euid : ℕ
  pub suid : ℕ
  pub gid : ℕ
  pub egid : ℕ
  pub sgid : ℕ

pub data Operation : Type 0 where
  user_group_execution file_validation : Operation
  other_operation : ℕ → Operation

-- What the kernel or /proc fails with.
pub data SavedIdsError (S : Type 0) : Type 0 where
  saved_set_not_supported : SavedIdsError S
  read_failed : S → SavedIdsError S

pub data PrivilegeError (S : Type 0) : Type 0 where
  failed_to_read_saved_ids : S → PrivilegeError S
  unsupported_operation_type : Operation → PrivilegeError S
  not_available : PrivilegeError S
  seteuid_failed : S → PrivilegeError S

-- Either the restoration failed, or a check found an identity leak.
pub data IdentityError : Type 0 where
  leaked_uid leaked_gid : ℕ → ℕ → IdentityError

-- `syscall.Geteuid() != syscall.Getuid()`, and the same for the group.
unfoldable pub default_identity_verifier : Process → Option IdentityError
default_identity_verifier p =
    if not (p.euid == p.uid)
    then some (leaked_uid p.euid p.uid)
    else if not (p.egid == p.gid)
    then some (leaked_gid p.egid p.gid)
    else none

pub record Manager : Type 0 where
  pub original_uid : ℕ
  pub privilege_supported : Bool

-- The callback's error, or the value it panics with.
pub data Callback (F : Type 0) : Type 0 where
  returned : Option F → Callback F
  panicked : ℕ → Callback F

pub record ExecutionContext : Type 0 where
  pub needs_privilege_escalation : Bool
  pub original_suid : ℤ
  pub original_sgid : ℤ

-- `execCtx.originalSUID >= 0`
unfoldable pub is_captured : ℤ → Bool
is_captured (pos n) = true
is_captured (negsuc n) = false

-- How a call ends: with an error of its own, as the callback does, or with the process.
pub data Outcome (S F : Type 0) : Type 0 where
  refused : PrivilegeError S → Process → Metrics (PrivilegeError S) → Outcome S F
  finished : Callback F → Process → Metrics (PrivilegeError S) → Outcome S F
  exited : Outcome S F

module _ (S F : Type 0) (seteuid : ℕ → Process → Option S × Process)
    (read_saved_ids : Process → Result (SavedIdsError S) (ℤ × ℤ)) where
  unfoldable pub context_of : Operation → ℤ → ℤ → Result (PrivilegeError S) ExecutionContext
  context_of user_group_execution suid sgid =
      ok (record { needs_privilege_escalation = true; original_suid = suid; original_sgid = sgid })
  context_of file_validation suid sgid =
      ok (record { needs_privilege_escalation = true; original_suid = suid; original_sgid = sgid })
  context_of (other_operation n) suid sgid = err (unsupported_operation_type (other_operation n))

  unfoldable pub prepare_execution :
      Operation → Process → Result (PrivilegeError S) ExecutionContext
  unfolding context_of
  prepare_execution operation p = elim (read_saved_ids p) [
    | err (read_failed e) ↦ err (failed_to_read_saved_ids e)
    | err saved_set_not_supported ↦ context_of operation (negsuc 0) (negsuc 0)
    | ok (suid, sgid) ↦ context_of operation suid sgid
  ]

  unfoldable pub seteuid_result : Option S × Process → Option (PrivilegeError S) × Process
  seteuid_result (none, p) = (none, p)
  seteuid_result (some e, p) = (some (seteuid_failed e), p)

  unfoldable pub escalate_privileges : Manager → Process → Option (PrivilegeError S) × Process
  unfolding seteuid_result
  escalate_privileges m p =
      if not m.privilege_supported
      then (some not_available, p)
      else if m.original_uid == 0
      then (none, p)
      else seteuid_result (seteuid 0 p)

  unfoldable pub perform_elevation :
      Manager → ExecutionContext → Process → Option (PrivilegeError S) × Process
  unfolding escalate_privileges
  perform_elevation m ctx p =
      if ctx.needs_privilege_escalation then escalate_privileges m p else (none, p)

  unfoldable pub restore_privileges : Manager → Process → Option S × Process
  restore_privileges m p = if m.original_uid == 0 then (none, p) else seteuid m.original_uid p

  -- The saved-set IDs are those captured, unless none were.
  unfoldable pub saved_ids_kept : ExecutionContext → Process → Bool
  unfolding is_captured
  saved_ids_kept ctx p =
      if is_captured ctx.original_suid
      then elim (read_saved_ids p) [
        | err e ↦ false
        | ok (suid, sgid) ↦ int_eq suid ctx.original_suid && int_eq sgid ctx.original_sgid
      ]
      else true

  -- Every failure here is an emergency shutdown.
  unfoldable pub verify_identity : ExecutionContext → Process → Bool
  unfolding default_identity_verifier saved_ids_kept
  verify_identity ctx p = elim (default_identity_verifier p) [
    | some e ↦ false
    | none ↦ saved_ids_kept ctx p
  ]

  unfoldable pub success_metrics :
      Callback F → ℕ → Metrics (PrivilegeError S) → Metrics (PrivilegeError S)
  success_metrics (returned e) duration metrics =
      record_elevation_success (PrivilegeError S) duration metrics
  success_metrics (panicked v) duration metrics = metrics

  -- What follows the restoration.
  unfoldable pub after_restore :
      ExecutionContext
      → ℕ
      → Metrics (PrivilegeError S)
      → Callback F
      → Option S × Process
      → Outcome S F
  unfolding verify_identity success_metrics
  after_restore ctx duration metrics result (some e, p) = exited
  after_restore ctx duration metrics result (none, p) =
      if verify_identity ctx p
      then finished result p (success_metrics result duration metrics)
      else exited

  -- `restorePrivilegesAndMetrics`, with the panic that goes on behind it.
  unfoldable pub handle_cleanup :
      Manager
      → ExecutionContext
      → ℕ
      → Metrics (PrivilegeError S)
      → Callback F × Process
      → Outcome S F
  unfolding restore_privileges after_restore
  handle_cleanup m ctx duration metrics (result, p) =
      if ctx.needs_privilege_escalation
      then after_restore ctx duration metrics result (restore_privileges m p)
      else finished result p metrics

  unfoldable pub run_elevated :
      Manager
      → ExecutionContext
      → ℕ
      → (Process → Callback F × Process)
      → Metrics (PrivilegeError S)
      → Option (PrivilegeError S) × Process
      → Outcome S F
  unfolding handle_cleanup
  run_elevated m ctx duration fn metrics (some e, p) =
      refused e p (record_elevation_failure (PrivilegeError S) e metrics)
  run_elevated m ctx duration fn metrics (none, p) = handle_cleanup m ctx duration metrics (fn p)

  -- The duration is what the clock says of the callback.
  unfoldable pub with_privileges :
      Manager
      → Operation
      → ℕ
      → (Process → Callback F × Process)
      → Metrics (PrivilegeError S)
      → Process
      → Outcome S F
  unfolding prepare_execution perform_elevation run_elevated
  with_privileges m operation duration fn metrics p = elim (prepare_execution operation p) [
    | err e ↦ refused e p (record_elevation_failure (PrivilegeError S) e metrics)
    | ok ctx ↦ run_elevated m ctx duration fn metrics (perform_elevation m ctx p)
  ]
