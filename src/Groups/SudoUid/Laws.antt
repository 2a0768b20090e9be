-- ===== src/Groups/SudoUid/Laws.antt =====
-- Whom a permission check is for.
use go_safe_cmd_runner.Base.{
  ◌≡◌, ◌↔◌, refl, sym, ◌∙◌, ap, ◌⊎◌, inl, inr, Bool, true, false, not, ◌&&◌, Option, none, some,
  List, [], ◌∷◌, Text, All, Result, ok, err, ℤ, pos, negsuc, exceeds_uint32, int_eq, text_eq, arith,
  Result-cases, Option-cases, Bool-cases, ok_injective,
}
use go_safe_cmd_runner.Groups.Policy.{Policy}
use go_safe_cmd_runner.Groups.SudoUid.{
  LookupError, SudoUidError, unknown_user_id, other_error, is_sudo_uid_aware, is_confirmed,
  parse_sudo_uid, verify, sudo_uid_result, resolve_permission_check_uid,
}

module _ (E : Type 0) (atoi : Text → Result E ℤ) (lookup_id : ℤ → Option (LookupError E)) where
  -- The memo holds users that exist.
  abbrev pub AllExist : List ℤ → Type 0
  AllExist = All (λ uid. lookup_id uid ≡ none)

  -- The user that SUDO_UID names, and that exists.
  abbrev pub NamesUser : Text → ℤ → Type 0
  NamesUser sudo_uid uid =
      (atoi sudo_uid ≡ ok uid) × (exceeds_uint32 uid ≡ false) × (lookup_id uid ≡ none)

  int_eq-true : (a b : ℤ) → int_eq a b ≡ true → a ≡ b
  unfolding int_eq
  int_eq-true (pos m) (pos n) h = ground arith
  int_eq-true (negsuc m) (negsuc n) h = ground arith
  int_eq-true (pos m) (negsuc n) h = absurd (cc)
  int_eq-true (negsuc m) (pos n) h = absurd (cc)

  is_confirmed_exists :
      (uid : ℤ) (confirmed : List ℤ)
      → AllExist confirmed
      → is_confirmed uid confirmed ≡ true
      → lookup_id uid ≡ none
  unfolding is_confirmed
  is_confirmed_exists uid [] all h = absurd (cc)
  is_confirmed_exists uid (x ∷ xs) (exists, all) h = elim (Bool-cases (int_eq x uid)) [
    | inl same ↦ ap lookup_id (sym (int_eq-true x uid same)) ∙ exists
    | inr differ ↦ is_confirmed_exists uid xs all (rw differ at h)
  ]

  verify_lem :
      (uid : ℤ) (confirmed : List ℤ)
      → AllExist confirmed
      → ((verify E atoi lookup_id uid confirmed).0 ≡ lookup_id uid)
        × AllExist (verify E atoi lookup_id uid confirmed).1
  unfolding verify
  verify_lem uid confirmed all = elim (Bool-cases (is_confirmed uid confirmed)) [
    | inl known ↦ rw (known, verify) (sym (is_confirmed_exists uid confirmed all known), all)
    | inr new ↦
        rw (new, verify)
          (elim (Option-cases (lookup_id uid)) [
            | inl exists ↦ rw (exists, verify) (refl, (exists, all))
            | inr (e, failed) ↦ rw (failed, verify) (refl, all)
          ])
  ]

  parse_sudo_uid_iff :
      (t : Text) (uid : ℤ)
      → (parse_sudo_uid E atoi lookup_id t ≡ ok uid)
        ↔ ((atoi t ≡ ok uid) × (exceeds_uint32 uid ≡ false))
  unfolding parse_sudo_uid
  parse_sudo_uid_iff t uid = elim (Result-cases (atoi t)) [
    | inl (e, failed) ↦ ground arith
    | inr (n, done) ↦ ground arith
  ]

  sudo_uid_result_iff :
      (t : Text) (n uid : ℤ) (o : Option (LookupError E))
      → (sudo_uid_result E atoi lookup_id t n o ≡ ok uid) ↔ ((o ≡ none) × (n ≡ uid))
  unfolding sudo_uid_result
  sudo_uid_result_iff t n uid none = ground arith
  sudo_uid_result_iff t n uid (some unknown_user_id) = ground arith
  sudo_uid_result_iff t n uid (some (other_error e)) = ground arith

  -- The check asks SUDO_UID.
  abbrev pub asks_sudo_uid : Policy → ℤ → Text → Bool
  asks_sudo_uid policy real_uid sudo_uid =
      is_sudo_uid_aware policy && int_eq real_uid (pos 0) && not (text_eq sudo_uid [])

  silent_lem :
      (policy : Policy) (real_uid : ℤ) (sudo_uid : Text) (confirmed : List ℤ)
      → asks_sudo_uid policy real_uid sudo_uid ≡ false
      → resolve_permission_check_uid E atoi lookup_id policy real_uid sudo_uid confirmed
        ≡ (ok real_uid, confirmed)
  unfolding resolve_permission_check_uid
  silent_lem policy real_uid sudo_uid confirmed h = ground arith

  asks_parse_error :
      (policy : Policy) (real_uid : ℤ) (sudo_uid : Text) (confirmed : List ℤ) (e : SudoUidError E)
      → asks_sudo_uid policy real_uid sudo_uid ≡ true
      → parse_sudo_uid E atoi lookup_id sudo_uid ≡ err e
      → resolve_permission_check_uid E atoi lookup_id policy real_uid sudo_uid confirmed
        ≡ (err e, confirmed)
  unfolding resolve_permission_check_uid
  asks_parse_error policy real_uid sudo_uid confirmed e h failed = ground arith

  asks_verify :
      (policy : Policy) (real_uid n : ℤ) (sudo_uid : Text) (confirmed : List ℤ)
      → asks_sudo_uid policy real_uid sudo_uid ≡ true
      → parse_sudo_uid E atoi lookup_id sudo_uid ≡ ok n
      → resolve_permission_check_uid E atoi lookup_id policy real_uid sudo_uid confirmed ≡ (
        sudo_uid_result E atoi lookup_id sudo_uid n (verify E atoi lookup_id n confirmed).0,
        (verify E atoi lookup_id n confirmed).1,
      )
  unfolding resolve_permission_check_uid
  asks_verify policy real_uid n sudo_uid confirmed h parsed = ground arith

  asked :
      (policy : Policy) (real_uid uid : ℤ) (sudo_uid : Text) (confirmed : List ℤ)
      → AllExist confirmed
      → asks_sudo_uid policy real_uid sudo_uid ≡ true
      → AllExist
          (resolve_permission_check_uid E atoi lookup_id policy real_uid sudo_uid confirmed).1
        × (((resolve_permission_check_uid E atoi lookup_id policy real_uid sudo_uid confirmed).0
              ≡ ok uid)
            ↔ NamesUser sudo_uid uid)
  asked policy real_uid uid sudo_uid confirmed all asks =
      let parses = parse_sudo_uid_iff sudo_uid uid in
      elim (Result-cases (parse_sudo_uid E atoi lookup_id sudo_uid)) [
        | inl (e, failed) ↦
            rw (asks_parse_error policy real_uid sudo_uid confirmed e asks failed)
              (all, ((λ h. absurd (cc)), (λ h. absurd (cc (parses.1 (h.0, h.1), failed)))))
        | inr (n, parsed) ↦
            let (checked, all') = verify_lem n confirmed all in
            let result = sudo_uid_result_iff sudo_uid n uid (lookup_id n) in
            let parses' = (parse_sudo_uid_iff sudo_uid n).0 parsed in
            rw (asks_verify policy real_uid n sudo_uid confirmed asks parsed, checked)
              (
                all',
                (
                  (λ h.
                      let (exists, same) = result.0 h in
                      (
                        parses'.0 ∙ ap ok same,
                        ap exceeds_uint32 (sym same) ∙ parses'.1,
                        ap lookup_id (sym same) ∙ exists,
                      )),
                  (λ h.
                      let same : n ≡ uid = ok_injective (sym parsed ∙ parses.1 (h.0, h.1)) in
                      result.1 (ap lookup_id same ∙ h.2, same)),
                ),
              )
      ]

  -- Where the policy does not look at SUDO_UID, the real user is not root, or SUDO_UID is unset, the
  -- check is for the real user. Otherwise it is for exactly the user that SUDO_UID names, if it is a
  -- number of 32 bits and the database has the user, and fails if not: it never falls back to root.
  -- The memo of existing users stays correct.
  pub resolve_permission_check_uid_iff :
      (policy : Policy) (real_uid uid : ℤ) (sudo_uid : Text) (confirmed : List ℤ)
      → AllExist confirmed
      → AllExist
          (resolve_permission_check_uid E atoi lookup_id policy real_uid sudo_uid confirmed).1
        × (((resolve_permission_check_uid E atoi lookup_id policy real_uid sudo_uid confirmed).0
              ≡ ok uid)
            ↔ (((asks_sudo_uid policy real_uid sudo_uid ≡ false) × (real_uid ≡ uid))
                ⊎ ((asks_sudo_uid policy real_uid sudo_uid ≡ true) × NamesUser sudo_uid uid)))
  resolve_permission_check_uid_iff policy real_uid uid sudo_uid confirmed all =
      elim (Bool-cases (asks_sudo_uid policy real_uid sudo_uid)) [
        | inl asks ↦
            let (all', (there, back)) = asked policy real_uid uid sudo_uid confirmed all asks in
            (
              all',
              (
                (λ h. inr (asks, there h)),
                elim [
                  | inl (silent, same) ↦ absurd (cc (asks, silent))
                  | inr (asks', names) ↦ back names
                ],
              ),
            )
        | inr silent ↦ rw (silent_lem policy real_uid sudo_uid confirmed silent) (
          all,
          (
            (λ h. inl (silent, cc)),
            elim [
              | inl (silent', same) ↦ ap ok same
              | inr (asks, names) ↦ absurd (cc (asks, silent))
            ],
          ),
        )
      ]
