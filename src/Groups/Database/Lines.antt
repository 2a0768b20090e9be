-- ===== src/Groups/Database/Lines.antt =====
-- What one line of the group databases says.
use go_safe_cmd_runner.Base.{
  ℕ, ◌≡◌, ◌↔◌, refl, sym, ◌∙◌, ap, inl, inr, List, [], ◌∷◌, some, Text, Option-cases, Bool-cases,
  subst, some_injective,
}
use go_safe_cmd_runner.Groups.Database.Numbers.{
  IsUint32, parse_uint32_iff, IsEntryText, is_skipped-IsEntryText,
}
use go_safe_cmd_runner.Groups.Database.Fields.{IsSplit, split-IsSplit, IsSplit-split}
use go_safe_cmd_runner.Groups.Database.{
  GroupEntry, split, parse_uint32, with_gid, group_fields, parse_group_line, with_user,
  passwd_fields, parse_passwd_line, is_skipped, group_at, user_at,
}

-- The text of an entry of /etc/group: the name, the password, the group id and the members, and
-- maybe more, between colons.
abbrev pub GroupText : Text → GroupEntry → Type 0
GroupText text entry =
    (password : Text) × (digits : Text) × (rest : List Text) × IsSplit b':' text
      (entry.name ∷ password ∷ digits ∷ entry.members ∷ rest)
    × IsUint32 digits entry.gid

-- The text of an entry of /etc/passwd: the name, the password, the user id and the group id, and
-- maybe more, between colons.
abbrev pub UserText : Text → Text → ℕ → Type 0
UserText text name gid =
    (password : Text) × (uid : Text) × (digits : Text) × (rest : List Text) × IsSplit b':' text
      (name ∷ password ∷ uid ∷ digits ∷ rest)
    × IsUint32 digits gid

abbrev GroupFields : List Text → GroupEntry → Type 0
GroupFields fields entry =
    (password : Text) × (digits : Text) × (rest : List Text) × (fields
      ≡ entry.name ∷ password ∷ digits ∷ entry.members ∷ rest)
    × (parse_uint32 digits ≡ some entry.gid)

abbrev UserFields : List Text → Text → ℕ → Type 0
UserFields fields name gid =
    (password : Text) × (uid : Text) × (digits : Text) × (rest : List Text) × (fields
      ≡ name ∷ password ∷ uid ∷ digits ∷ rest)
    × (parse_uint32 digits ≡ some gid)

group_fields-GroupFields :
    (fields : List Text) (entry : GroupEntry)
    → group_fields fields ≡ some entry
    → GroupFields fields entry
unfolding group_fields with_gid
group_fields-GroupFields [] entry h = absurd (cc)
group_fields-GroupFields (a ∷ []) entry h = absurd (cc)
group_fields-GroupFields (a ∷ b ∷ []) entry h = absurd (cc)
group_fields-GroupFields (a ∷ b ∷ c ∷ []) entry h = absurd (cc)
group_fields-GroupFields (name ∷ password ∷ digits ∷ members ∷ rest) entry h =
    elim (Option-cases (parse_uint32 digits)) [
      | inl bad ↦ absurd (cc (rw (bad, with_gid) at h))
      | inr (gid, read) ↦
          let same = some_injective (rw (read, with_gid) at h) in
          subst (GroupFields (name ∷ password ∷ digits ∷ members ∷ rest)) same
            (password, digits, rest, refl, read)
    ]

GroupFields-group_fields :
    (fields : List Text) (entry : GroupEntry)
    → GroupFields fields entry
    → group_fields fields ≡ some entry
unfolding group_fields with_gid
GroupFields-group_fields fields entry (password, digits, rest, shape, read) =
    ap group_fields shape ∙ rw (read, group_fields, with_gid) refl

passwd_fields-UserFields :
    (fields : List Text) (name : Text) (gid : ℕ)
    → passwd_fields fields ≡ some (name, gid)
    → UserFields fields name gid
unfolding passwd_fields with_user
passwd_fields-UserFields [] name gid h = absurd (cc)
passwd_fields-UserFields (a ∷ []) name gid h = absurd (cc)
passwd_fields-UserFields (a ∷ b ∷ []) name gid h = absurd (cc)
passwd_fields-UserFields (a ∷ b ∷ c ∷ []) name gid h = absurd (cc)
passwd_fields-UserFields (user ∷ password ∷ uid ∷ digits ∷ rest) name gid h =
    elim (Option-cases (parse_uint32 digits)) [
      | inl bad ↦ absurd (cc (rw (bad, with_user) at h))
      | inr (g, read) ↦
          let same = some_injective (rw (read, with_user) at h) in
          subst (λ (p : Text × ℕ). UserFields (user ∷ password ∷ uid ∷ digits ∷ rest) p.0 p.1) same
            (password, uid, digits, rest, refl, read)
    ]

UserFields-passwd_fields :
    (fields : List Text) (name : Text) (gid : ℕ)
    → UserFields fields name gid
    → passwd_fields fields ≡ some (name, gid)
unfolding passwd_fields with_user
UserFields-passwd_fields fields name gid (password, uid, digits, rest, shape, read) =
    ap passwd_fields shape ∙ rw (read, passwd_fields, with_user) refl

GroupFields-GroupText :
    (text : Text) (entry : GroupEntry) → GroupFields (split b':' text) entry ↔ GroupText text entry
GroupFields-GroupText text entry = (
  λ (password, digits, rest, shape, read). (
    password,
    digits,
    rest,
    subst (IsSplit b':' text) shape (split-IsSplit b':' text),
    (parse_uint32_iff digits entry.gid).0 read,
  ),
  λ (password, digits, rest, fields, number). (
    password,
    digits,
    rest,
    sym (IsSplit-split b':' text _ fields),
    (parse_uint32_iff digits entry.gid).1 number,
  ),
)

UserFields-UserText :
    (text name : Text) (gid : ℕ) → UserFields (split b':' text) name gid ↔ UserText text name gid
UserFields-UserText text name gid = (
  λ (password, uid, digits, rest, shape, read). (
    password,
    uid,
    digits,
    rest,
    subst (IsSplit b':' text) shape (split-IsSplit b':' text),
    (parse_uint32_iff digits gid).0 read,
  ),
  λ (password, uid, digits, rest, fields, number). (
    password,
    uid,
    digits,
    rest,
    sym (IsSplit-split b':' text _ fields),
    (parse_uint32_iff digits gid).1 number,
  ),
)

module _ (trim_space : Text → Text) where
  -- A line of /etc/group, trimmed, that is not empty and no comment, with this entry.
  abbrev pub GroupLine : Text → GroupEntry → Type 0
  GroupLine line entry = IsEntryText (trim_space line) × GroupText (trim_space line) entry

  -- A line of /etc/passwd, trimmed, that is not empty and no comment, with this user and primary
  -- group.
  abbrev pub UserLine : Text → ℕ → Text → Type 0
  UserLine name gid line = IsEntryText (trim_space line) × UserText (trim_space line) name gid

  module _ (gid : ℕ) where
    pub group_at_iff :
        (line : Text) (entry : GroupEntry)
        → (group_at trim_space gid line ≡ some entry) ↔ GroupLine line entry
    unfolding group_at parse_group_line
    group_at_iff line entry =
        let text = trim_space line in
        let (shown, hidden) = is_skipped-IsEntryText text in
        let (to, from) = GroupFields-GroupText text entry in
        elim (Bool-cases (is_skipped text)) [
          | inl skipped ↦ (
            λ h. absurd (cc (rw (skipped, group_at) at h)),
            λ (entry_text, _). absurd (cc (skipped, hidden entry_text)),
          )
          | inr kept ↦ (
            λ h. (shown kept, to (group_fields-GroupFields _ entry (rw (kept, group_at) at h))),
            λ (_, parts). rw (kept, group_at) (GroupFields-group_fields _ entry (from parts)),
          )
        ]

    pub user_at_iff :
        (line name : Text) (g : ℕ)
        → (user_at trim_space gid line ≡ some (name, g)) ↔ UserLine name g line
    unfolding user_at parse_passwd_line
    user_at_iff line name g =
        let text = trim_space line in
        let (shown, hidden) = is_skipped-IsEntryText text in
        let (to, from) = UserFields-UserText text name g in
        elim (Bool-cases (is_skipped text)) [
          | inl skipped ↦ (
            λ h. absurd (cc (rw (skipped, user_at) at h)),
            λ (entry_text, _). absurd (cc (skipped, hidden entry_text)),
          )
          | inr kept ↦ (
            λ h. (shown kept, to (passwd_fields-UserFields _ name g (rw (kept, user_at) at h))),
            λ (_, parts). rw (kept, user_at) (UserFields-passwd_fields _ name g (from parts)),
          )
        ]
