-- ===== src/Tests/Database.antt =====
-- The group databases at concrete inputs.
use go_safe_cmd_runner.Base.{
  ◌≡◌, ◌↔◌, refl, true, List, [], ◌∷◌, Text, codes, text_eq, contains, has_prefix, Distinct, ok,
}
use go_safe_cmd_runner.Groups.Database.{
  scanned, find_group_by_gid, find_users_with_primary_gid, add_members, members_of, members_with,
  members_by_files, split, parse_uint32, is_skipped, parse_group_line, parse_passwd_line,
}
use go_safe_cmd_runner.Groups.Database.Members.{IsFileMember, members_by_files_iff}

-- No line has blanks around it.
abbrev untrimmed : Text → Text
untrimmed s = s

abbrev group_lines : List Text
group_lines =
    codes "#x"
    ∷ codes "bad"
    ∷ codes "wheel:x:10:dan"
    ∷ codes "staff:x:50:ann,bob"
    ∷ codes "other:x:50:eve"
    ∷ []

abbrev passwd_lines : List Text
passwd_lines = codes "bob:x:2:50:" ∷ codes "cid:x:3:50:" ∷ codes "dan:x:4:51:" ∷ []

abbrev staff : List Text
staff = codes "cid" ∷ codes "bob" ∷ codes "ann" ∷ []

staff_found :
    members_by_files untrimmed 50 (scanned group_lines true) (scanned passwd_lines true) ≡ ok staff
unfolding members_by_files members_with find_group_by_gid find_users_with_primary_gid add_members
    members_of split parse_uint32 is_skipped parse_group_line parse_passwd_line contains has_prefix
    text_eq
staff_found = refl

members_by_files_iff_example :
    Distinct staff
    × ((name : Text)
        → (contains staff name ≡ true) ↔ IsFileMember untrimmed 50 group_lines passwd_lines name)
members_by_files_iff_example =
    members_by_files_iff untrimmed 50 group_lines passwd_lines true true staff staff_found
