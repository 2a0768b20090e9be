-- ===== src/Groups/Database/Members.antt =====
-- Who is a member of a group by the files.
use go_safe_cmd_runner.Base.{
  ℕ, ◌≡◌, ◌↔◌, ◌⊎◌, refl, sym, ◌∙◌, ap, inl, inr, Bool, true, false, ◌||◌, List, [], ◌∷◌, Option,
  none, some, Text, text_eq, text_eq_iff, contains, Distinct, arith, ◌==◌, ==_iff, ok, Result-cases,
  Option-cases, Bool-cases, ok_injective, some_injective, subst,
}
use go_safe_cmd_runner.Config.Mappings.{Some}
use go_safe_cmd_runner.Groups.Database.{
  scanned, GroupEntry, find_group, find_group_by_gid, user_at, users_in,
  find_users_with_primary_gid, add_member, add_members, members_of, members_with, members_by_files,
}
use go_safe_cmd_runner.Groups.Database.Lines.{UserLine, user_at_iff}
use go_safe_cmd_runner.Groups.Database.Entries.{
  FirstEntry, Lists, find_group_iff, contains-members_of,
}

Some-map :
    {A : Type 0} (P Q : A → Type 0) (xs : List A) → ((x : A) → P x → Q x) → Some P xs → Some Q xs
Some-map P Q [] f s = s
Some-map P Q (x ∷ xs) f (inl p) = inl (f x p)
Some-map P Q (x ∷ xs) f (inr later) = inr (Some-map P Q xs f later)

module _ (trim_space : Text → Text) (gid : ℕ) where
  contains-add_members :
      (xs set : List Text) (name : Text)
      → contains (add_members trim_space gid xs set) name ≡ contains xs name || contains set name
  unfolding add_members add_member contains
  contains-add_members [] set name = refl
  contains-add_members (x ∷ xs) set name = elim (Bool-cases (contains set x)) [
    | inl old ↦
        rw (old) (contains-add_members xs set name ∙ ground (arith, old, text_eq_iff x name))
    | inr new ↦ rw (new) (contains-add_members xs (x ∷ set) name ∙ ground arith)
  ]

  add_members-Distinct :
      (xs set : List Text) → Distinct set → Distinct (add_members trim_space gid xs set)
  unfolding add_members add_member
  add_members-Distinct [] set distinct = distinct
  add_members-Distinct (x ∷ xs) set distinct = elim (Bool-cases (contains set x)) [
    | inl old ↦ rw (old) (add_members-Distinct xs set distinct)
    | inr new ↦ rw (new) (add_members-Distinct xs (x ∷ set) (new, distinct))
  ]

  abbrev user_entry : Text → ℕ → Option (Text × ℕ)
  user_entry name g = some (name, g)

  -- What a user in front of the others adds.
  user_in_front :
      (user name : Text) (g : ℕ) (later : List Text)
      → g == gid ≡ true
      → (contains (user ∷ later) name ≡ true)
        ↔ ((user_entry user g ≡ user_entry name gid) ⊎ (contains later name ≡ true))
  unfolding contains
  user_in_front user name g later same = (
    λ h. elim (Bool-cases (text_eq user name)) [
      | inl equal ↦ inl (cc ((text_eq_iff user name).0 equal, (==_iff g gid).0 same))
      | inr differ ↦ inr (rw differ at h)
    ],
    λ s. elim s [
      | inl e ↦ rw ((text_eq_iff user name).1 (cc)) refl
      | inr held ↦ ground (arith, held)
    ],
  )

  contains-users_in :
      (lines : List Text) (name : Text)
      → (contains (users_in trim_space gid lines) name ≡ true)
        ↔ Some (λ line. user_at trim_space gid line ≡ some (name, gid)) lines
  unfolding users_in contains
  contains-users_in [] name = (λ h. absurd (ground arith), λ none_left. absurd none_left)
  contains-users_in (line ∷ rest) name =
      let (to, from) = contains-users_in rest name in
      elim (Option-cases (user_at trim_space gid line)) [
        | inl missing ↦ (
          λ h. inr (to (rw (missing, users_in) at h)),
          λ s.
              rw (missing, users_in)
                (elim s [ inl e ↦ absurd (cc (missing, e)) | inr later ↦ from later ]),
        )
        | inr ((user, g), found) ↦ elim (Bool-cases (g == gid)) [
          | inl same ↦
              let (split_front, join_front) =
                user_in_front user name g (users_in trim_space gid rest) same in
              (
                λ h. elim (split_front (rw (found, users_in, same) at h)) [
                  | inl e ↦ inl (found ∙ e)
                  | inr held ↦ inr (to held)
                ],
                λ s.
                    rw (found, users_in, same)
                      (join_front
                        (elim s [ inl e ↦ inl (sym found ∙ e) | inr later ↦ inr (from later) ])),
              )
          | inr differ ↦ (
            λ h. inr (to (rw (found, users_in, differ) at h)),
            λ s.
                rw (found, users_in, differ)
                  (elim s [
                    | inl e ↦ absurd (cc (differ, (==_iff g gid).1 (cc (found, e))))
                    | inr later ↦ from later
                  ]),
          )
        ]
      ]

  abbrev IsMember : Option GroupEntry → List Text → Text → Type 0
  IsMember none lines name = ⊥
  IsMember (some entry) lines name =
      (contains (members_of trim_space gid entry) name ≡ true)
      ⊎ Some (λ line. user_at trim_space gid line ≡ some (name, gid)) lines

  members_lem :
      (entry : Option GroupEntry) (lines : List Text) (complete : Bool) (members : List Text)
      → members_with trim_space gid entry (scanned lines complete) ≡ ok members
      → Distinct members
        × ((name : Text) → (contains members name ≡ true) ↔ IsMember entry lines name)
  unfolding members_with find_users_with_primary_gid contains
  members_lem none lines complete members h =
      rw (← ok_injective h) (tt, λ name. (λ e. absurd (cc), λ none_left. absurd none_left))
  members_lem (some entry) lines false members h = absurd (cc)
  members_lem (some entry) lines true members h =
      let own = members_of trim_space gid entry in
      let users = users_in trim_space gid lines in
      rw (← ok_injective h) (
        add_members-Distinct users (add_members trim_space gid own [])
            (add_members-Distinct own [] tt),
        λ name.
            let (to, from) = contains-users_in lines name in
            let whole =
              contains-add_members users (add_members trim_space gid own []) name
              ∙ ap (λ (b : Bool). contains users name || b) (contains-add_members own [] name) in
            (
              λ held. elim (Bool-cases (contains users name)) [
                | inl user ↦ inr (to user)
                | inr other ↦ inl (ground (arith, whole, held, other))
              ],
              λ s. elim s [
                | inl listed ↦ ground (arith, whole, listed)
                | inr later ↦ ground (arith, whole, from later)
              ],
            ),
      )

  -- The names that the files give the group.
  abbrev pub IsFileMember : List Text → List Text → Text → Type 0
  IsFileMember group_lines lines name =
      (entry : GroupEntry) × FirstEntry trim_space gid group_lines entry
      × (Lists trim_space entry name ⊎ Some (UserLine trim_space name gid) lines)

  -- What the entry that was found makes of a name, against the lines of the files.
  IsMember-IsFileMember :
      (group_lines lines : List Text) (read_whole : Bool) (found : Option GroupEntry) (name : Text)
      → find_group trim_space gid group_lines read_whole ≡ ok found
      → IsMember found lines name ↔ IsFileMember group_lines lines name
  IsMember-IsFileMember group_lines lines read_whole none name h = (
    λ missing. absurd missing,
    λ (entry, first, _).
        absurd (cc (h, (find_group_iff trim_space gid group_lines read_whole entry).1 first)),
  )
  IsMember-IsFileMember group_lines lines read_whole (some entry) name h = (
    λ s. (
      entry,
      (find_group_iff trim_space gid group_lines read_whole entry).0 h,
      elim s [
        | inl own ↦ inl ((contains-members_of trim_space gid entry name).0 own)
        | inr users ↦ inr (
            Some-map _ (UserLine trim_space name gid) lines
              (λ line e. (user_at_iff trim_space gid line name gid).0 e) users)
      ],
    ),
    λ (other, first, s).
        let same = some_injective (
          ok_injective
            (sym h ∙ (find_group_iff trim_space gid group_lines read_whole other).1 first)) in
        elim s [
          | inl lists ↦ inl (
              (contains-members_of trim_space gid entry name).1
                (subst (λ (e : GroupEntry). Lists trim_space e name) (sym same) lists))
          | inr users ↦ inr (
              Some-map (UserLine trim_space name gid) _ lines
                (λ line e. (user_at_iff trim_space gid line name gid).1 e) users)
        ],
  )

  -- Where the lookup of the members of a group id succeeds, no name is returned twice, and a name is
  -- returned exactly if the group file has a line for this id, and the first such line lists the name
  -- or some line of the user file gives the name this id for its primary group.
  pub members_by_files_iff :
      (group_lines lines : List Text) (read_whole complete : Bool) (members : List Text)
      → members_by_files trim_space gid (scanned group_lines read_whole) (scanned lines complete)
        ≡ ok members
      → Distinct members
        × ((name : Text) → (contains members name ≡ true) ↔ IsFileMember group_lines lines name)
  unfolding members_by_files members_with find_users_with_primary_gid find_group_by_gid contains
  members_by_files_iff group_lines lines read_whole complete members h =
      elim (Result-cases (find_group trim_space gid group_lines read_whole)) [
        | inl (e, failed) ↦ absurd (cc (rw failed at h))
        | inr (entry, found) ↦
            let (distinct, members_are) =
              members_lem entry lines complete members (rw found at h) in
            (
              distinct,
              λ name.
                  let (to, from) = members_are name in
                  let (to', from') =
                    IsMember-IsFileMember group_lines lines read_whole entry name found in
                  (λ held. to' (to held), λ m. from (from' m)),
            )
      ]
