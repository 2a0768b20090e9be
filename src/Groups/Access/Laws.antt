-- ===== src/Groups/Access/Laws.antt =====
-- When a file is safe to write and safe to read.
use go_safe_cmd_runner.Base.{
  ℕ, ◌+◌, ◌*◌, ◌/◌, ◌%◌, ◌≡◌, ◌↔◌, ◌⊎◌, inl, inr, refl, sym, ◌∙◌, ap, Bool, true, false, List, [],
  ◌∷◌, Text, contains, decimal, text_eq_iff, Result, ok, err, ◌==◌, ==_iff, ℤ, pos, exceeds_uint32,
  to_uint32, arith, Result-cases, Bool-cases, ok_injective,
}
use go_safe_cmd_runner.Groups.Members.{Cache, get_group_members}
use go_safe_cmd_runner.Groups.Access.{
  User, AccessError, and_not, has_bit, check_maximum, max_allowed_read_perms, with_members,
  is_only_member, is_user_only_group_member, is_user_in_group, can_user_safely_write_file,
  after_group, can_user_safely_read_file,
}

is_only_member_iff :
    (name : Text) (members : List Text)
    → (is_only_member name members ≡ true) ↔ (members ≡ name ∷ [])
unfolding is_only_member
is_only_member_iff name [] = ((λ h. absurd (cc)), (λ h. absurd (cc)))
is_only_member_iff name (m ∷ []) =
    ((λ h. ap (λ x. x ∷ []) ((text_eq_iff m name).0 h)), (λ h. (text_eq_iff m name).1 (cc)))
is_only_member_iff name (m ∷ n ∷ rest) = ((λ h. absurd (cc)), (λ h. absurd (cc)))

with_members_iff :
    {E : Type 0} (test : List Text → Bool) (r : Result E (List Text) × Cache)
    → ((with_members test r).0 ≡ ok true)
      ↔ ((members : List Text) × (r.0 ≡ ok members) × (test members ≡ true))
unfolding with_members
with_members_iff test (ok members, c) =
    ((λ h. (members, refl, ok_injective h)), (λ h. ap ok (ap test (ok_injective h.1) ∙ h.2)))
with_members_iff test (err e, c) = ((λ h. absurd (cc)), (λ h. absurd (cc (h.1))))

-- The bits that a read does not allow are the sticky bit and the write bit of others.
read_disallowed : (p : ℕ) → and_not 12 p 3581 ≡ 512 * (p / 512 % 2) + 2 * (p / 2 % 2)
unfolding and_not
read_disallowed p = omega arith

-- A bit of the permissions, as the code tests it and as a digit.
abbrev Bit : ℕ → ℕ → Type 0
Bit p bit =
    ((has_bit (p % 512) bit ≡ true) × (p / bit % 2 ≡ 1))
    ⊎ ((has_bit (p % 512) bit ≡ false) × (p / bit % 2 ≡ 0))

others-Bit : (p : ℕ) → Bit p 2
unfolding has_bit
others-Bit p = ground arith

group-Bit : (p : ℕ) → Bit p 16
unfolding has_bit
group-Bit p = ground arith

owner-Bit : (p : ℕ) → Bit p 128
unfolding has_bit
owner-Bit p = ground arith

maximum_bits :
    {E : Type 0} (p : ℕ)
    → (check_maximum {E = E} p max_allowed_read_perms ≡ ok tt)
      ↔ ((p / 512 % 2 ≡ 0) × (p / 2 % 2 ≡ 0))
unfolding check_maximum
maximum_bits p = ground (arith, read_disallowed (p % 4096))

after_group_iff :
    (E : Type 0) (p : ℕ) (r : Result (AccessError E) Bool × Cache)
    → ((after_group p r).0 ≡ ok true)
      ↔ ((r.0 ≡ ok true) × (check_maximum {E = E} p max_allowed_read_perms ≡ ok tt))
unfolding after_group
after_group_iff E p (err e, c) = ground arith
after_group_iff E p (ok true, c) = ground arith
after_group_iff E p (ok false, c) = ground arith

module _ (E : Type 0) (enumerate_group_members : ℕ → ℕ → Result E (List Text))
    (lookup_id : ℤ → Result E User) (group_ids : User → Result E (List Text))
    (parse_uint32 : Text → Result E ℕ) where
  -- The members of the group, as the manager answers, are the user alone.
  abbrev pub IsOnlyMember : ℤ → ℕ → ℕ → Cache → Type 0
  IsOnlyMember uid gid now c =
      (user : User) × (lookup_id uid ≡ ok user)
      × ((get_group_members E enumerate_group_members gid now c).0 ≡ ok (user.username ∷ []))

  -- The group is the user's primary one, one of the user's groups, or has the user as a member.
  abbrev pub IsMember : ℕ → ℕ → ℕ → Cache → Type 0
  IsMember uid gid now c =
      (user : User) × (lookup_id (pos uid) ≡ ok user)
      × (primary : ℕ) × (parse_uint32 user.primary_gid ≡ ok primary)
      × ((primary ≡ gid)
          ⊎ ((ids : List Text) × (group_ids user ≡ ok ids)
              × ((contains ids (decimal gid) ≡ true)
                  ⊎ ((members : List Text) × ((get_group_members E enumerate_group_members gid now
                          c).0
                        ≡ ok members)
                      × (contains members user.username ≡ true)))))

  is_user_only_group_member_iff :
      (uid : ℤ) (gid now : ℕ) (c : Cache)
      → ((is_user_only_group_member E enumerate_group_members lookup_id group_ids parse_uint32 uid
            gid now c).0
          ≡ ok true)
        ↔ IsOnlyMember uid gid now c
  unfolding is_user_only_group_member
  is_user_only_group_member_iff uid gid now c = elim (Result-cases (lookup_id uid)) [
    | inl (e, failed) ↦
        rw (failed, is_user_only_group_member) ((λ h. absurd (cc)), (λ h. absurd (cc (h.1))))
    | inr (user, found) ↦
        let test =
          with_members_iff (is_only_member user.username)
            (get_group_members E enumerate_group_members gid now c) in
        rw (found, is_user_only_group_member)
          (
            (λ h.
                let (members, listed, only) = test.0 h in
                (user, refl, listed ∙ ap ok ((is_only_member_iff user.username members).0 only))),
            (λ h.
                let same : user ≡ h.0 = ok_injective h.1 in
                test.1 (
                  h.0.username ∷ [],
                  h.2,
                  (is_only_member_iff user.username _).1
                      (ap (λ (u : User). u.username ∷ []) (sym same)),
                )),
          )
  ]

  is_user_in_group_sound :
      (uid gid now : ℕ) (c : Cache)
      → (is_user_in_group E enumerate_group_members lookup_id group_ids parse_uint32 uid gid now
          c).0
        ≡ ok true
      → IsMember uid gid now c
  unfolding is_user_in_group
  is_user_in_group_sound uid gid now c h = elim (Result-cases (lookup_id (pos uid))) [
    | inl (e, failed) ↦ absurd (cc (rw (failed, is_user_in_group) at h))
    | inr (user, found) ↦ elim (Result-cases (parse_uint32 user.primary_gid)) [
      | inl (e, failed) ↦ absurd (cc (rw (found, failed, is_user_in_group) at h))
      | inr (primary, parsed) ↦ elim (Bool-cases (primary == gid)) [
        | inl same ↦ (user, found, primary, parsed, inl ((==_iff primary gid).0 same))
        | inr differ ↦ elim (Result-cases (group_ids user)) [
          | inl (e, failed) ↦
              absurd (cc (rw (found, parsed, differ, failed, is_user_in_group) at h))
          | inr (ids, listed) ↦ elim (Bool-cases (contains ids (decimal gid))) [
            | inl has ↦ (user, found, primary, parsed, inr (ids, listed, inl has))
            | inr lacks ↦ (
              user,
              found,
              primary,
              parsed,
              inr (
                ids,
                listed,
                inr (
                    (with_members_iff (λ members. contains members user.username)
                        (get_group_members E enumerate_group_members gid now c)).0
                      (rw (found, parsed, differ, listed, lacks, is_user_in_group) at h)),
              ),
            )
          ]
        ]
      ]
    ]
  ]

  is_user_in_group_complete :
      (uid gid now : ℕ) (c : Cache)
      → IsMember uid gid now c
      → (is_user_in_group E enumerate_group_members lookup_id group_ids parse_uint32 uid gid now
          c).0
        ≡ ok true
  unfolding is_user_in_group
  is_user_in_group_complete uid gid now c (user, found, primary, parsed, inl same) =
      rw (found, parsed, (==_iff primary gid).1 same, is_user_in_group) refl
  is_user_in_group_complete uid gid now c
        (user, found, primary, parsed, inr (ids, listed, inl has)) =
      elim (Bool-cases (primary == gid)) [
        | inl same ↦ rw (found, parsed, same, is_user_in_group) refl
        | inr differ ↦ rw (found, parsed, differ, listed, has, is_user_in_group) refl
      ]
  is_user_in_group_complete uid gid now c
        (user, found, primary, parsed, inr (ids, listed, inr member)) =
      elim (Bool-cases (primary == gid)) [
        | inl same ↦ rw (found, parsed, same, is_user_in_group) refl
        | inr differ ↦ elim (Bool-cases (contains ids (decimal gid))) [
          | inl has ↦ rw (found, parsed, differ, listed, has, is_user_in_group) refl
          | inr lacks ↦
              rw (found, parsed, differ, listed, lacks, is_user_in_group)
                ((with_members_iff (λ members. contains members user.username)
                    (get_group_members E enumerate_group_members gid now c)).1
                  member)
        ]
      ]

  -- A user may write a file exactly where the UID fits 32 bits, others may not write it, the user owns
  -- it, and either the group may not write it and the owner may, or the group may write it and the
  -- user is its only member.
  pub can_user_safely_write_file_iff :
      (uid : ℤ) (file_uid file_gid file_perm now : ℕ) (c : Cache)
      → ((can_user_safely_write_file E enumerate_group_members lookup_id group_ids parse_uint32 uid
            file_uid file_gid file_perm now c).0
          ≡ ok true)
        ↔ ((exceeds_uint32 uid ≡ false)
            × (file_perm / 2 % 2 ≡ 0)
            × (to_uint32 uid ≡ file_uid)
            × (((file_perm / 16 % 2 ≡ 0) × (file_perm / 128 % 2 ≡ 1))
                ⊎ ((file_perm / 16 % 2 ≡ 1) × IsOnlyMember uid file_gid now c)))
  unfolding can_user_safely_write_file
  can_user_safely_write_file_iff uid file_uid file_gid file_perm now c =
      let only = is_user_only_group_member_iff uid file_gid now c in
      let others : Bit file_perm 2 = others-Bit file_perm in
      let group : Bit file_perm 16 = group-Bit file_perm in
      let owner : Bit file_perm 128 = owner-Bit file_perm in ground arith

  -- A file of any permissions of the mode bits `os.FileInfo` reports.
  pub can_user_safely_read_file_iff :
      (uid : ℤ) (file_gid file_perm now : ℕ) (c : Cache)
      → ((can_user_safely_read_file E enumerate_group_members lookup_id group_ids parse_uint32 uid
            file_gid file_perm now c).0
          ≡ ok true)
        ↔ ((file_perm / 2 % 2 ≡ 0)
            × (file_perm / 512 % 2 ≡ 0)
            × ((file_perm / 16 % 2 ≡ 0)
                ⊎ ((file_perm / 16 % 2 ≡ 1) × IsMember (to_uint32 uid) file_gid now c)))
  unfolding can_user_safely_read_file
  can_user_safely_read_file_iff uid file_gid file_perm now c =
      let member = is_user_in_group_sound (to_uint32 uid) file_gid now c in
      let non_member = is_user_in_group_complete (to_uint32 uid) file_gid now c in
      let allowed = maximum_bits {E = E} file_perm in
      let checked = after_group_iff E file_perm in
      let others : Bit file_perm 2 = others-Bit file_perm in
      let group : Bit file_perm 16 = group-Bit file_perm in ground (arith, checked)
