-- ===== src/Groups/Database.antt =====
-- internal/groupmembership/membership_files.go and membership_nocgo.go: the members of a group by
-- /etc/group and /etc/passwd. What a scan of a file yields is given, and so is `strings.TrimSpace`.
pub mod Numbers
pub mod Fields
pub mod Lines
pub mod Entries
pub mod Members
use go_safe_cmd_runner.Base.{
  ℕ, ◌+◌, ◌*◌, ◌-◌, ◌≡◌, refl, Bool, true, false, not, ◌&&◌, ◌||◌, List, [], ◌∷◌, ◌++◌, Option,
  none, some, Text, codes, text_eq, contains, has_prefix, leb, ltb, ◌==◌, if◌then◌else◌, Result, ok,
  err, ◌>>=◌, max_uint32,
}

pub data DatabaseError : Type 0 where
  failed_to_open error_reading : DatabaseError

-- The lines of a file that can be opened, and whether the scan ends without an error.
pub data Scan : Type 0 where
  unreadable : Scan
  scanned : List Text → Bool → Scan

pub record GroupEntry : Type 0 where
  pub name : Text
  pub gid : ℕ
  pub members : Text

abbrev pub push_front : ℕ → List Text → List Text
push_front c [] = (c ∷ []) ∷ []
push_front c (s ∷ rest) = (c ∷ s) ∷ rest

-- `strings.Split` at a byte.
unfoldable pub split : ℕ → Text → List Text
split sep [] = [] ∷ []
split sep (c ∷ s) = let rest = split sep s in if c == sep then [] ∷ rest else push_front c rest

-- The loop of `strconv.ParseUint` in base 10 and 32 bits; a value that is too large stays so.
unfoldable pub parse_digits : ℕ → Text → Option ℕ
parse_digits n [] = if ltb max_uint32 n then none else some n
parse_digits n (c ∷ s) =
    let rest = parse_digits (n * 10 + (c - b'0')) s in
    if leb b'0' c && leb c b'9' then rest else none

unfoldable pub parse_uint32 : Text → Option ℕ
unfolding parse_digits
parse_uint32 [] = none
parse_uint32 (c ∷ s) = parse_digits 0 (c ∷ s)

unfoldable pub with_gid : Text → Text → Option ℕ → Option GroupEntry
with_gid name members none = none
with_gid name members (some gid) = some (record { name = name; gid = gid; members = members })

unfoldable pub group_fields : List Text → Option GroupEntry
unfolding with_gid parse_uint32
group_fields (name ∷ password ∷ gid ∷ members ∷ rest) = with_gid name members (parse_uint32 gid)
group_fields _ = none

unfoldable pub parse_group_line : Text → Option GroupEntry
unfolding group_fields split
parse_group_line line = group_fields (split b':' line)

unfoldable pub with_user : Text → Option ℕ → Option (Text × ℕ)
with_user name none = none
with_user name (some gid) = some (name, gid)

unfoldable pub passwd_fields : List Text → Option (Text × ℕ)
unfolding with_user parse_uint32
passwd_fields (name ∷ password ∷ uid ∷ gid ∷ rest) = with_user name (parse_uint32 gid)
passwd_fields _ = none

unfoldable pub parse_passwd_line : Text → Option (Text × ℕ)
unfolding passwd_fields split
parse_passwd_line line = passwd_fields (split b':' line)

-- An empty line or a comment is passed over.
unfoldable pub is_skipped : Text → Bool
unfolding has_prefix
is_skipped line = text_eq line [] || has_prefix line (b'#' ∷ [])

abbrev at_end {ℓ} : {A : Type ℓ} → Bool → A → Result DatabaseError A
at_end true a = ok a
at_end false a = err error_reading

module _ (trim_space : Text → Text) (gid : ℕ) where
  unfoldable pub group_at : Text → Option GroupEntry
  unfolding is_skipped parse_group_line
  group_at line = if is_skipped (trim_space line) then none else parse_group_line (trim_space line)

  -- The scan of the lines, and what is returned at its end.
  unfoldable pub find_group : List Text → Bool → Result DatabaseError (Option GroupEntry)
  unfolding group_at
  find_group [] complete = at_end complete none
  find_group (line ∷ rest) complete = elim (group_at line) [
    | none ↦ find_group rest complete
    | some entry ↦ if entry.gid == gid then ok (some entry) else find_group rest complete
  ]

  unfoldable pub find_group_by_gid : Scan → Result DatabaseError (Option GroupEntry)
  unfolding find_group
  find_group_by_gid unreadable = err failed_to_open
  find_group_by_gid (scanned lines complete) = find_group lines complete

  unfoldable pub user_at : Text → Option (Text × ℕ)
  unfolding is_skipped parse_passwd_line
  user_at line = if is_skipped (trim_space line) then none else parse_passwd_line (trim_space line)

  unfoldable pub users_in : List Text → List Text
  unfolding user_at
  users_in [] = []
  users_in (line ∷ rest) = elim (user_at line) [
    | none ↦ users_in rest
    | some (user, user_gid) ↦ if user_gid == gid then user ∷ users_in rest else users_in rest
  ]

  unfoldable pub find_users_with_primary_gid : Scan → Result DatabaseError (List Text)
  unfolding users_in
  find_users_with_primary_gid unreadable = err failed_to_open
  find_users_with_primary_gid (scanned lines complete) = at_end complete (users_in lines)

  -- `memberSet[member] = struct{}{}`
  unfoldable pub add_member : Text → List Text → List Text
  add_member member set = if contains set member then set else member ∷ set

  unfoldable pub add_members : List Text → List Text → List Text
  unfolding add_member
  add_members [] set = set
  add_members (member ∷ rest) set = add_members rest (add_member member set)

  -- The members that are listed: trimmed, and not empty.
  unfoldable pub listed : List Text → List Text
  listed [] = []
  listed (member ∷ rest) =
      let later = listed rest in
      if text_eq (trim_space member) [] then later else trim_space member ∷ later

  unfoldable pub members_of : GroupEntry → List Text
  unfolding listed split
  members_of entry = if text_eq entry.members [] then [] else listed (split b',' entry.members)

  unfoldable pub members_with : Option GroupEntry → Scan → Result DatabaseError (List Text)
  unfolding members_of add_members find_users_with_primary_gid
  members_with none passwd = ok []
  members_with (some entry) passwd = find_users_with_primary_gid passwd >>= λ users.
      ok (add_members users (add_members (members_of entry) []))

  unfoldable pub members_by_files : Scan → Scan → Result DatabaseError (List Text)
  unfolding find_group_by_gid members_with
  members_by_files group passwd = find_group_by_gid group >>= λ entry. members_with entry passwd
