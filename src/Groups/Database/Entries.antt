-- ===== src/Groups/Database/Entries.antt =====
-- The entry of a group and the names that it lists.
use go_safe_cmd_runner.Base.{
  ℕ, ◌≡◌, ◌≢◌, ◌↔◌, ◌⊎◌, refl, sym, ◌∙◌, ap, inl, inr, Bool, true, false, List, [], ◌∷◌, some, Text,
  text_eq, text_eq_iff, contains, arith, ◌==◌, ==_iff, ok, Option-cases, Bool-cases, subst,
  some_injective, ok_injective,
}
use go_safe_cmd_runner.Config.Mappings.{Some}
use go_safe_cmd_runner.Groups.Database.Fields.{IsSplit, split-IsSplit, IsSplit-split}
use go_safe_cmd_runner.Groups.Database.{GroupEntry, split, group_at, find_group, listed, members_of}
use go_safe_cmd_runner.Groups.Database.Lines.{GroupLine, group_at_iff}

module _ (trim_space : Text → Text) where
  -- The members field of an entry has the name between commas, with blanks around it or not.
  abbrev pub Lists : GroupEntry → Text → Type 0
  Lists entry name =
      (entry.members ≢ [])
      × (name ≢ [])
      × (fields : List Text) × IsSplit b',' entry.members fields
      × Some (λ member. trim_space member ≡ name) fields

  module _ (gid : ℕ) where
    -- The entry of the first line for the group.
    abbrev pub FirstEntry : List Text → GroupEntry → Type 0
    FirstEntry [] entry = ⊥
    FirstEntry (line ∷ rest) entry =
        (GroupLine trim_space line entry × (entry.gid ≡ gid))
        ⊎ (((other : GroupEntry) → GroupLine trim_space line other → other.gid ≢ gid)
            × FirstEntry rest entry)

    pub find_group_iff :
        (lines : List Text) (complete : Bool) (entry : GroupEntry)
        → (find_group trim_space gid lines complete ≡ ok (some entry)) ↔ FirstEntry lines entry
    unfolding find_group
    find_group_iff [] true entry = (λ h. absurd (cc), λ missing. absurd missing)
    find_group_iff [] false entry = (λ h. absurd (cc), λ missing. absurd missing)
    find_group_iff (line ∷ rest) complete entry =
        let (to, from) = find_group_iff rest complete entry in
        elim (Option-cases (group_at trim_space gid line)) [
          | inl silent ↦ (
            λ h. inr (
              (λ other said. absurd (cc (silent, (group_at_iff trim_space gid line other).1 said))),
              to (rw (silent, find_group) at h),
            ),
            λ s. elim s [
              | inl (said, _) ↦
                  absurd (cc (silent, (group_at_iff trim_space gid line entry).1 said))
              | inr (_, later) ↦ rw (silent, find_group) (from later)
            ],
          )
          | inr (found, said) ↦ elim (Bool-cases (found.gid == gid)) [
            | inl same ↦ (
              λ h.
                  let e = some_injective (ok_injective (rw (said, find_group, same) at h)) in
                  inl (
                    (group_at_iff trim_space gid line entry).0 (said ∙ ap some e),
                    ap (λ (x : GroupEntry). x.gid) (sym e) ∙ (==_iff found.gid gid).0 same,
                  ),
              λ s. elim s [
                | inl (fields, _) ↦
                    rw (said, find_group, same)
                      (ap ok (sym said ∙ (group_at_iff trim_space gid line entry).1 fields))
                | inr (others, _) ↦ absurd (
                    others found ((group_at_iff trim_space gid line found).0 said)
                      ((==_iff found.gid gid).0 same))
              ],
            )
            | inr differ ↦ (
              λ h. inr (
                (λ other fields e. absurd (
                    cc (
                      differ,
                      (==_iff found.gid gid).1 (
                          ap (λ (x : GroupEntry). x.gid)
                            (some_injective
                              (sym said ∙ (group_at_iff trim_space gid line other).1 fields))
                          ∙ e),
                    ))),
                to (rw (said, find_group, differ) at h),
              ),
              λ s. elim s [
                | inl (fields, e) ↦ absurd (
                    cc (
                      differ,
                      (==_iff found.gid gid).1 (
                          ap (λ (x : GroupEntry). x.gid)
                            (some_injective
                              (sym said ∙ (group_at_iff trim_space gid line entry).1 fields))
                          ∙ e),
                    ))
                | inr (_, later) ↦ rw (said, find_group, differ) (from later)
              ],
            )
          ]
        ]

    contains-listed :
        (fields : List Text) (name : Text)
        → (contains (listed trim_space gid fields) name ≡ true)
          ↔ ((name ≢ []) × Some (λ member. trim_space member ≡ name) fields)
    unfolding listed contains
    contains-listed [] name = (λ h. absurd (ground arith), λ (_, missing). absurd missing)
    contains-listed (member ∷ rest) name =
        let (to, from) = contains-listed rest name in
        elim (Bool-cases (text_eq (trim_space member) [])) [
          | inl empty ↦ (
            λ h. let (full, later) = to (rw (empty, listed) at h) in (full, inr later),
            λ (full, s).
                rw (empty, listed)
                  (elim s [
                    | inl same ↦
                        absurd (full (sym same ∙ (text_eq_iff (trim_space member) []).0 empty))
                    | inr later ↦ from (full, later)
                  ]),
          )
          | inr given ↦ elim (Bool-cases (text_eq (trim_space member) name)) [
            | inl same ↦ (
              λ h. (
                (λ e. absurd (cc (given, same, e))),
                inl ((text_eq_iff (trim_space member) name).0 same),
              ),
              λ s. rw (given, listed, contains, same) refl,
            )
            | inr differ ↦ (
              λ h.
                  let (full, later) = to (rw (given, listed, contains, differ) at h) in
                  (full, inr later),
              λ (full, s).
                  rw (given, listed, contains, differ)
                    (elim s [
                      | inl same ↦
                          absurd (cc (differ, (text_eq_iff (trim_space member) name).1 same))
                      | inr later ↦ from (full, later)
                    ]),
            )
          ]
        ]

    pub contains-members_of :
        (entry : GroupEntry) (name : Text)
        → (contains (members_of trim_space gid entry) name ≡ true) ↔ Lists entry name
    unfolding members_of contains
    contains-members_of entry name =
        let (to, from) = contains-listed (split b',' entry.members) name in
        elim (Bool-cases (text_eq entry.members [])) [
          | inl empty ↦ (
            λ h. absurd (cc (rw (empty, members_of, contains) at h)),
            λ (full, _, _, _, _). absurd (full ((text_eq_iff entry.members []).0 empty)),
          )
          | inr given ↦ (
            λ h.
                let (full, lists) = to (rw (given, members_of) at h) in
                (
                  (λ e. absurd (cc (given, (text_eq_iff entry.members []).1 e))),
                  full,
                  split b',' entry.members,
                  split-IsSplit b',' entry.members,
                  lists,
                ),
            λ (_, full, fields, parts, s).
                rw (given, members_of)
                  (from (
                    full,
                    subst (Some (λ member. trim_space member ≡ name))
                        (IsSplit-split b',' entry.members fields parts) s,
                  )),
          )
        ]
