-- ===== src/Groups/Policy.antt =====
-- internal/groupmembership/policy.go: the process-wide policy that names the user of a check. The
-- compare-and-swap of the code is one step here, so a call is one step.
use go_safe_cmd_runner.Base.{
  ℕ, ◌≡◌, refl, inl, inr, Bool, true, false, not, List, [], ◌∷◌, arith, Result, ok, err,
  if◌then◌else◌, Bool-cases,
}

-- A value of `PermissionCheckUIDPolicy`; an invalid cast carries its number.
pub data Policy : Type 0 where
  unset real_uid_only sudo_uid_aware : Policy
  unknown : ℕ → Policy

pub data PolicyError : Type 0 where
  invalid_policy : Policy → PolicyError
  -- current, requested
  policy_conflict : Policy → Policy → PolicyError

unfoldable pub is_settable : Policy → Bool
is_settable real_uid_only = true
is_settable sudo_uid_aware = true
is_settable unset = false
is_settable (unknown n) = false

-- Both arguments are settable where the code compares them.
unfoldable pub same_policy : Policy → Policy → Bool
same_policy real_uid_only real_uid_only = true
same_policy sudo_uid_aware sudo_uid_aware = true
same_policy _ _ = false

is_unset : Policy → Bool
is_unset unset = true
is_unset _ = false

-- The outcome, and the process-wide value behind the call.
unfoldable pub set_process_policy : Policy → Policy → Result PolicyError (Unit {0}) × Policy
unfolding is_settable same_policy is_unset
set_process_policy p current =
    if not (is_settable p)
    then (err (invalid_policy p), current)
    else if same_policy current p
    then (ok tt, current)
    else if not (is_unset current)
    then (err (policy_conflict current p), current)
    else (ok tt, p)

unfoldable pub effective_policy : (instance_policy process_policy : Policy) → Policy
unfolding is_unset
effective_policy i p = if not (is_unset i) then i else if not (is_unset p) then p else real_uid_only

-- The process-wide value after a sequence of calls.
unfoldable pub after_calls : List Policy → Policy → Policy
after_calls [] current = current
after_calls (p ∷ rest) current = after_calls rest (set_process_policy p current).1

-- The first settable value of a sequence.
abbrev pub first_settable : List Policy → Policy
first_settable [] = unset
first_settable (p ∷ rest) = if is_settable p then p else first_settable rest

set_kept :
    (p current : Policy) → is_settable current ≡ true → (set_process_policy p current).1 ≡ current
unfolding set_process_policy
set_kept p real_uid_only h = ground arith
set_kept p sudo_uid_aware h = ground arith
set_kept p unset h = absurd (ground arith)
set_kept p (unknown n) h = absurd (ground arith)

set_from_unset :
    (p : Policy) → (set_process_policy p unset).1 ≡ (if is_settable p then p else unset)
unfolding set_process_policy
set_from_unset p = ground arith

settled : (ps : List Policy) (p : Policy) → is_settable p ≡ true → after_calls ps p ≡ p
unfolding after_calls
settled [] p h = refl
settled (q ∷ ps) p h = rw (set_kept q p h) (settled ps p h)

-- Whatever calls are made, in whatever order, the process-wide policy is the first settable one
-- that was requested: no later call changes it.
pub after_calls_first : (ps : List Policy) → after_calls ps unset ≡ first_settable ps
unfolding after_calls
after_calls_first [] = refl
after_calls_first (p ∷ ps) = rw (set_from_unset p) (elim (Bool-cases (is_settable p)) [
  | inl fits ↦ rw fits (settled ps p fits)
  | inr unfit ↦ rw unfit (after_calls_first ps)
])
