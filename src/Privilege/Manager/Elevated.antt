-- ===== src/Privilege/Manager/Elevated.antt =====
-- When the callback runs, and what the metrics say of it.
use go_safe_cmd_runner.Base.{
  ℕ, ◌≡◌, refl, ap, inl, inr, true, Option, none, some, Result, ℤ, arith, Result-cases, Bool-cases,
}
use go_safe_cmd_runner.Privilege.Metrics.{Metrics, Consistent, success_lem, failure_lem}
use go_safe_cmd_runner.Privilege.Manager.Restored.{prepare_execution_ok}
use go_safe_cmd_runner.Privilege.Manager.{
  Process, Operation, SavedIdsError, PrivilegeError, Manager, Callback, returned, panicked,
  ExecutionContext, Outcome, refused, finished, exited, prepare_execution, seteuid_result,
  escalate_privileges, perform_elevation, restore_privileges, verify_identity, success_metrics,
  after_restore, handle_cleanup, run_elevated, with_privileges,
}

module _ (S F : Type 0) (seteuid : ℕ → Process → Option S × Process)
    (read_saved_ids : Process → Result (SavedIdsError S) (ℤ × ℤ)) where
  -- The metrics of an outcome.
  abbrev pub WithMetrics : (Metrics (PrivilegeError S) → Type 0) → Outcome S F → Type 0
  WithMetrics P (refused e p metrics) = P metrics
  WithMetrics P (finished result p metrics) = P metrics
  WithMetrics P exited = Unit

  success_metrics-Consistent :
      (result : Callback F) (duration : ℕ) (metrics : Metrics (PrivilegeError S))
      → Consistent (PrivilegeError S) metrics
      → Consistent
          (PrivilegeError S)
          (success_metrics S F seteuid read_saved_ids result duration metrics)
  unfolding success_metrics
  success_metrics-Consistent (returned e) duration metrics h =
      success_lem (PrivilegeError S) duration metrics h
  success_metrics-Consistent (panicked v) duration metrics h = h

  after_restore-Consistent :
      (ctx : ExecutionContext) (duration : ℕ) (metrics : Metrics (PrivilegeError S))
      (result : Callback F) (r : Option S × Process)
      → Consistent (PrivilegeError S) metrics
      → WithMetrics
          (Consistent (PrivilegeError S))
          (after_restore S F seteuid read_saved_ids ctx duration metrics result r)
  unfolding after_restore
  after_restore-Consistent ctx duration metrics result (some e, p) h = tt
  after_restore-Consistent ctx duration metrics result (none, p) h =
      elim (Bool-cases (verify_identity S F seteuid read_saved_ids ctx p)) [
        | inr leaked ↦ rw (leaked, after_restore) tt
        | inl verified ↦
            rw (verified, after_restore) (success_metrics-Consistent result duration metrics h)
      ]

  run_elevated-Consistent :
      (m : Manager) (ctx : ExecutionContext) (duration : ℕ) (fn : Process → Callback F × Process)
      (metrics : Metrics (PrivilegeError S)) (r : Option (PrivilegeError S) × Process)
      → Consistent (PrivilegeError S) metrics
      → WithMetrics
          (Consistent (PrivilegeError S))
          (run_elevated S F seteuid read_saved_ids m ctx duration fn metrics r)
  unfolding run_elevated handle_cleanup
  run_elevated-Consistent m ctx duration fn metrics (some e, p) h =
      failure_lem (PrivilegeError S) e metrics h
  run_elevated-Consistent m ctx duration fn metrics (none, p) h =
      elim (Bool-cases ctx.needs_privilege_escalation) [
        | inl needed ↦
            rw (needed, run_elevated, handle_cleanup)
              (after_restore-Consistent ctx duration metrics (fn p).0
                (restore_privileges S F seteuid read_saved_ids m (fn p).1) h)
        | inr needless ↦ rw (needless, run_elevated, handle_cleanup) h
      ]

  -- Every call keeps the metrics consistent: the attempts are the successes and the failures, and
  -- the total time is at most the maximum for each success.
  pub with_privileges-Consistent :
      (m : Manager) (operation : Operation) (duration : ℕ) (fn : Process → Callback F × Process)
      (metrics : Metrics (PrivilegeError S)) (p : Process)
      → Consistent (PrivilegeError S) metrics
      → WithMetrics
          (Consistent (PrivilegeError S))
          (with_privileges S F seteuid read_saved_ids m operation duration fn metrics p)
  unfolding with_privileges
  with_privileges-Consistent m operation duration fn metrics p h =
      elim (Result-cases (prepare_execution S F seteuid read_saved_ids operation p)) [
        | inl (e, failed) ↦
            rw (failed, with_privileges) (failure_lem (PrivilegeError S) e metrics h)
        | inr (ctx, prepared) ↦
            rw (prepared, with_privileges)
              (run_elevated-Consistent m ctx duration fn metrics
                (perform_elevation S F seteuid read_saved_ids m ctx p) h)
      ]

  -- An elevation that goes on leads to root.
  abbrev AsRoot : Option (PrivilegeError S) × Process → Type 0
  AsRoot r = r.0 ≡ none → r.1.euid ≡ 0

  seteuid_result-AsRoot :
      (r : Option S × Process)
      → (r.0 ≡ none → r.1.euid ≡ 0)
      → AsRoot (seteuid_result S F seteuid read_saved_ids r)
  unfolding seteuid_result
  seteuid_result-AsRoot (none, q) h e = h refl
  seteuid_result-AsRoot (some e', q) h e = absurd (cc)

  perform_elevation-AsRoot :
      ((u : ℕ) (q : Process) → (seteuid u q).0 ≡ none → (seteuid u q).1.euid ≡ u)
      → (m : Manager) (ctx : ExecutionContext) (p : Process) → ctx.needs_privilege_escalation ≡ true
      → (m.original_uid ≡ 0 → p.euid ≡ 0)
      → AsRoot (perform_elevation S F seteuid read_saved_ids m ctx p)
  unfolding perform_elevation escalate_privileges
  perform_elevation-AsRoot sets m ctx p needed native h =
      let elevated = seteuid_result-AsRoot (seteuid 0 p) (sets 0 p) in ground arith

  run_elevated_root :
      (m : Manager) (ctx : ExecutionContext) (duration : ℕ)
      (fn fn' : Process → Callback F × Process) (metrics : Metrics (PrivilegeError S))
      (r : Option (PrivilegeError S) × Process)
      → AsRoot r
      → ((q : Process) → q.euid ≡ 0 → fn q ≡ fn' q)
      → run_elevated S F seteuid read_saved_ids m ctx duration fn metrics r
        ≡ run_elevated S F seteuid read_saved_ids m ctx duration fn' metrics r
  unfolding run_elevated
  run_elevated_root m ctx duration fn fn' metrics (some e, p) root same = refl
  run_elevated_root m ctx duration fn fn' metrics (none, p) root same =
      ap (handle_cleanup S F seteuid read_saved_ids m ctx duration metrics) (same p (root refl))

  -- The callback runs as root or not at all: two callbacks that agree on every process whose
  -- effective user is root give the same outcome, where a seteuid that succeeds sets the effective
  -- user, and a manager made by root has a process that is still root.
  pub with_privileges_root :
      ((u : ℕ) (q : Process) → (seteuid u q).0 ≡ none → (seteuid u q).1.euid ≡ u)
      → (m : Manager) (operation : Operation) (duration : ℕ)
        (fn fn' : Process → Callback F × Process) (metrics : Metrics (PrivilegeError S))
        (p : Process)
      → (m.original_uid ≡ 0 → p.euid ≡ 0)
      → ((q : Process) → q.euid ≡ 0 → fn q ≡ fn' q)
      → with_privileges S F seteuid read_saved_ids m operation duration fn metrics p
        ≡ with_privileges S F seteuid read_saved_ids m operation duration fn' metrics p
  unfolding with_privileges
  with_privileges_root sets m operation duration fn fn' metrics p native same =
      elim (Result-cases (prepare_execution S F seteuid read_saved_ids operation p)) [
        | inl (e, failed) ↦ rw (failed, with_privileges) refl
        | inr (ctx, prepared) ↦
            rw (prepared, with_privileges)
              (run_elevated_root m ctx duration fn fn' metrics
                (perform_elevation S F seteuid read_saved_ids m ctx p)
                (perform_elevation-AsRoot sets m ctx p
                  (prepare_execution_ok S F seteuid read_saved_ids operation p ctx prepared).0
                  native)
                same)
      ]
