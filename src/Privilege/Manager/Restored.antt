-- ===== src/Privilege/Manager/Restored.antt =====
-- How a privileged call leaves the process.
use go_safe_cmd_runner.Base.{
  ℕ, ◌≡◌, ◌∙◌, sym, ap, refl, inl, inr, true, ◌&&◌, Option, none, some, Result, ok, ℤ, pos, negsuc,
  int_eq, arith, Result-cases, Bool-cases, Option-cases, ok_injective,
}
use go_safe_cmd_runner.Privilege.Metrics.{Metrics}
use go_safe_cmd_runner.Privilege.Manager.{
  Process, Operation, user_group_execution, file_validation, other_operation, SavedIdsError,
  saved_set_not_supported, read_failed, PrivilegeError, default_identity_verifier, Manager,
  Callback, ExecutionContext, is_captured, Outcome, refused, finished, exited, context_of,
  prepare_execution, seteuid_result, escalate_privileges, perform_elevation, restore_privileges,
  saved_ids_kept, verify_identity, after_restore, handle_cleanup, run_elevated, with_privileges,
}

int_eq-true : (a b : ℤ) → int_eq a b ≡ true → a ≡ b
unfolding int_eq
int_eq-true (pos m) (pos n) h = ground arith
int_eq-true (negsuc m) (negsuc n) h = ground arith
int_eq-true (pos m) (negsuc n) h = absurd (cc)
int_eq-true (negsuc m) (pos n) h = absurd (cc)

-- The effective IDs are the real ones.
abbrev pub OwnIdentity : Process → Type 0
OwnIdentity p = (p.euid ≡ p.uid) × (p.egid ≡ p.gid)

default_identity_verifier-none : (p : Process) → default_identity_verifier p ≡ none → OwnIdentity p
unfolding default_identity_verifier
default_identity_verifier-none p h = ground arith

module _ (S F : Type 0) (seteuid : ℕ → Process → Option S × Process)
    (read_saved_ids : Process → Result (SavedIdsError S) (ℤ × ℤ)) where
  -- The saved-set IDs that could be read before are those read now.
  abbrev pub SavedIdsKept : Process → Process → Type 0
  SavedIdsKept before after =
      (suid : ℕ) (sgid : ℤ)
      → read_saved_ids before ≡ ok (pos suid, sgid)
      → read_saved_ids after ≡ ok (pos suid, sgid)

  -- A refused call leaves the process as it was, and one that ran its callback leaves it with its
  -- own identity.
  abbrev pub Restored : Process → Outcome S F → Type 0
  Restored p (refused e p' metrics) = p' ≡ p
  Restored p (finished result p' metrics) = OwnIdentity p' × SavedIdsKept p p'
  Restored p exited = Unit

  -- The context of a call from a process.
  abbrev pub IsContext : Process → ExecutionContext → Type 0
  IsContext p ctx =
      (ctx.needs_privilege_escalation ≡ true)
      × ((suid : ℕ) (sgid : ℤ)
          → read_saved_ids p ≡ ok (pos suid, sgid)
          → (ctx.original_suid ≡ pos suid) × (ctx.original_sgid ≡ sgid))

  context_of_ok :
      (operation : Operation) (suid sgid : ℤ) (ctx : ExecutionContext)
      → context_of S F seteuid read_saved_ids operation suid sgid ≡ ok ctx
      → (ctx.needs_privilege_escalation ≡ true)
        × (ctx.original_suid ≡ suid)
        × (ctx.original_sgid ≡ sgid)
  unfolding context_of
  context_of_ok user_group_execution suid sgid ctx h = ground (arith, ok_injective h)
  context_of_ok file_validation suid sgid ctx h = ground (arith, ok_injective h)
  context_of_ok (other_operation n) suid sgid ctx h = absurd (cc)

  pub prepare_execution_ok :
      (operation : Operation) (p : Process) (ctx : ExecutionContext)
      → prepare_execution S F seteuid read_saved_ids operation p ≡ ok ctx
      → IsContext p ctx
  unfolding prepare_execution
  prepare_execution_ok operation p ctx h = elim (Result-cases (read_saved_ids p)) [
    | inl (read_failed e, failed) ↦ absurd (cc (rw (failed, prepare_execution) at h))
    | inl (saved_set_not_supported, failed) ↦
        let (needs, _, _) =
          context_of_ok operation (negsuc 0) (negsuc 0) ctx (rw (failed, prepare_execution) at h) in
        (needs, (λ suid sgid found. absurd (cc (failed, found))))
    | inr ((a, b), done) ↦
        let (needs, same, same') =
          context_of_ok operation a b ctx (rw (done, prepare_execution) at h) in
        (
          needs,
          (λ suid sgid found.
              let read : (a, b) ≡ (pos suid, sgid) = ok_injective (sym done ∙ found) in
              (same ∙ ap (λ (x : ℤ × ℤ). x.0) read, same' ∙ ap (λ (x : ℤ × ℤ). x.1) read)),
        )
  ]

  saved_ids_kept-true :
      (p p' : Process) (ctx : ExecutionContext)
      → IsContext p ctx
      → saved_ids_kept S F seteuid read_saved_ids ctx p' ≡ true
      → SavedIdsKept p p'
  unfolding saved_ids_kept is_captured
  saved_ids_kept-true p p' ctx (needs, captured) h suid sgid found =
      let (first, second) = captured suid sgid found in
      elim (Result-cases (read_saved_ids p')) [
        | inl (e, failed) ↦ absurd (cc (rw (first, failed) at h))
        | inr ((a, b), done) ↦
            let both : int_eq a ctx.original_suid && int_eq b ctx.original_sgid ≡ true =
              rw (ap is_captured first, done, saved_ids_kept) at h in
            let left : int_eq a ctx.original_suid ≡ true = ground arith in
            let right : int_eq b ctx.original_sgid ≡ true = ground arith in
            cc (
              done,
              int_eq-true a ctx.original_suid left,
              int_eq-true b ctx.original_sgid right,
              first,
              second,
            )
      ]

  verify_identity-true :
      (ctx : ExecutionContext) (p : Process)
      → verify_identity S F seteuid read_saved_ids ctx p ≡ true
      → OwnIdentity p × (saved_ids_kept S F seteuid read_saved_ids ctx p ≡ true)
  unfolding verify_identity
  verify_identity-true ctx p h = elim (Option-cases (default_identity_verifier p)) [
    | inr (e, leaked) ↦ absurd (cc (rw (leaked, verify_identity) at h))
    | inl verified ↦
        (default_identity_verifier-none p verified, (rw (verified, verify_identity) at h))
  ]

  after_restore_lem :
      (p : Process) (ctx : ExecutionContext) (duration : ℕ) (metrics : Metrics (PrivilegeError S))
      (result : Callback F) (r : Option S × Process)
      → IsContext p ctx
      → Restored p (after_restore S F seteuid read_saved_ids ctx duration metrics result r)
  unfolding after_restore
  after_restore_lem p ctx duration metrics result (some e, p') good = tt
  after_restore_lem p ctx duration metrics result (none, p') good =
      elim (Bool-cases (verify_identity S F seteuid read_saved_ids ctx p')) [
        | inr leaked ↦ rw (leaked, after_restore) tt
        | inl verified ↦
            let (own, kept) = verify_identity-true ctx p' verified in
            rw (verified, after_restore) (own, saved_ids_kept-true p p' ctx good kept)
      ]

  run_elevated_lem :
      (m : Manager) (p : Process) (ctx : ExecutionContext) (duration : ℕ)
      (fn : Process → Callback F × Process) (metrics : Metrics (PrivilegeError S))
      (r : Option (PrivilegeError S) × Process)
      → IsContext p ctx
      → ((e : PrivilegeError S) → r.0 ≡ some e → r.1 ≡ p)
      → Restored p (run_elevated S F seteuid read_saved_ids m ctx duration fn metrics r)
  unfolding run_elevated handle_cleanup
  run_elevated_lem m p ctx duration fn metrics (some e, p') good keeps = keeps e refl
  run_elevated_lem m p ctx duration fn metrics (none, p') good keeps =
      rw (good.0, run_elevated, handle_cleanup)
        (after_restore_lem p ctx duration metrics (fn p').0
          (restore_privileges S F seteuid read_saved_ids m (fn p').1) good)

  seteuid_result_lem :
      (p : Process) (r : Option S × Process)
      → ((e : S) → r.0 ≡ some e → r.1 ≡ p)
      → (e : PrivilegeError S) → (seteuid_result S F seteuid read_saved_ids r).0 ≡ some e
      → (seteuid_result S F seteuid read_saved_ids r).1 ≡ p
  unfolding seteuid_result
  seteuid_result_lem p (none, q) keeps e h = absurd (cc)
  seteuid_result_lem p (some e', q) keeps e h = keeps e' refl

  perform_elevation_lem :
      ((u : ℕ) (q : Process) (e : S) → (seteuid u q).0 ≡ some e → (seteuid u q).1 ≡ q)
      → (m : Manager) (ctx : ExecutionContext) (p : Process) (e : PrivilegeError S)
      → (perform_elevation S F seteuid read_saved_ids m ctx p).0 ≡ some e
      → (perform_elevation S F seteuid read_saved_ids m ctx p).1 ≡ p
  unfolding perform_elevation escalate_privileges
  perform_elevation_lem keeps m ctx p e h =
      let failed = seteuid_result_lem p (seteuid 0 p) (keeps 0 p) e in ground arith

  -- Whatever the callback does to the process, and whatever the kernel answers, a call either ends
  -- the process or leaves it with its effective IDs the real ones and the saved-set IDs that could
  -- be read before it. A refused call leaves the process as it was, if a failed seteuid does.
  pub with_privileges-Restored :
      ((u : ℕ) (q : Process) (e : S) → (seteuid u q).0 ≡ some e → (seteuid u q).1 ≡ q)
      → (m : Manager) (operation : Operation) (duration : ℕ) (fn : Process → Callback F × Process)
        (metrics : Metrics (PrivilegeError S)) (p : Process)
      → Restored p (with_privileges S F seteuid read_saved_ids m operation duration fn metrics p)
  unfolding with_privileges
  with_privileges-Restored keeps m operation duration fn metrics p =
      elim (Result-cases (prepare_execution S F seteuid read_saved_ids operation p)) [
        | inl (e, failed) ↦ rw (failed, with_privileges) refl
        | inr (ctx, prepared) ↦
            rw (prepared, with_privileges)
              (run_elevated_lem m p ctx duration fn metrics
                (perform_elevation S F seteuid read_saved_ids m ctx p)
                (prepare_execution_ok operation p ctx prepared)
                (perform_elevation_lem keeps m ctx p))
      ]
