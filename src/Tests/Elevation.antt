-- ===== src/Tests/Elevation.antt =====
-- Privileged calls at concrete inputs.
use go_safe_cmd_runner.Base.{
  ℕ, ◌≡◌, refl, true, Option, none, some, Text, codes, Result, ok, arith, ℤ, pos, ◌==◌,
  if◌then◌else◌,
}
use go_safe_cmd_runner.Privilege.Metrics.{reset, Consistent}
use go_safe_cmd_runner.Privilege.Manager.{
  Process, Manager, Callback, returned, file_validation, SavedIdsError, PrivilegeError,
  with_privileges,
}
use go_safe_cmd_runner.Privilege.Manager.Restored.{Restored, with_privileges-Restored}
use go_safe_cmd_runner.Privilege.Manager.Elevated.{
  WithMetrics, with_privileges-Consistent, with_privileges_root,
}

-- A kernel that lets a process take its real or its saved user.
abbrev seteuid : ℕ → Process → Option Text × Process
seteuid u p =
    if u == p.uid
    then (none, record p { euid = u })
    else if u == p.suid
    then (none, record p { euid = u })
    else (some (codes "EPERM"), p)

seteuid_keeps : (u : ℕ) (q : Process) (e : Text) → (seteuid u q).0 ≡ some e → (seteuid u q).1 ≡ q
seteuid_keeps u q e h = ground arith

seteuid_sets : (u : ℕ) (q : Process) → (seteuid u q).0 ≡ none → (seteuid u q).1.euid ≡ u
seteuid_sets u q h = ground arith

abbrev read_saved_ids : Process → Result (SavedIdsError Text) (ℤ × ℤ)
read_saved_ids p = ok (pos p.suid, pos p.sgid)

abbrev process : Process
process = record { uid = 1000; euid = 1000; suid = 0; gid = 1000; egid = 1000; sgid = 1000 }

abbrev manager : Manager
manager = record { original_uid = 1000; privilege_supported = true }

-- A callback that leaves the process alone.
abbrev read_file : Process → Callback Text × Process
read_file p = (returned none, p)

-- One that fails unless it is root.
abbrev guarded : Process → Callback Text × Process
guarded p = if p.euid == 0 then (returned none, p) else (returned (some (codes "denied")), p)

with_privileges-Restored_example : Restored Text Text seteuid read_saved_ids process (
    with_privileges Text Text seteuid read_saved_ids manager file_validation 5 read_file
      (reset (PrivilegeError Text))
      process)
with_privileges-Restored_example =
    with_privileges-Restored Text Text seteuid read_saved_ids seteuid_keeps manager file_validation
      5 read_file (reset (PrivilegeError Text)) process

reset-Consistent : Consistent (PrivilegeError Text) (reset (PrivilegeError Text))
unfolding reset
reset-Consistent = (refl, omega arith)

with_privileges-Consistent_example :
    WithMetrics Text Text seteuid read_saved_ids (Consistent (PrivilegeError Text)) (
      with_privileges Text Text seteuid read_saved_ids manager file_validation 5 read_file
        (reset (PrivilegeError Text))
        process)
with_privileges-Consistent_example =
    with_privileges-Consistent Text Text seteuid read_saved_ids manager file_validation 5 read_file
      (reset (PrivilegeError Text)) process reset-Consistent

agree : (q : Process) → q.euid ≡ 0 → guarded q ≡ read_file q
agree q h = ground arith

with_privileges_root_example :
    with_privileges Text Text seteuid read_saved_ids manager file_validation 5 guarded
      (reset (PrivilegeError Text))
      process
    ≡ with_privileges Text Text seteuid read_saved_ids manager file_validation 5 read_file
        (reset (PrivilegeError Text))
        process
with_privileges_root_example =
    with_privileges_root Text Text seteuid read_saved_ids seteuid_sets manager file_validation 5
      guarded read_file (reset (PrivilegeError Text)) process (λ e. absurd (omega arith)) agree
