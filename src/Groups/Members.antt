-- ===== src/Groups/Members.antt =====
-- The cache of group members of internal/groupmembership/manager.go. The enumeration of a group is
-- the manager's injected function, here of the clock as well, since it reads a changing database.
-- A call reads the clock once; the locks make it one step.
pub mod Recent
use go_safe_cmd_runner.Base.{
  ℕ, suc, ◌+◌, ◌≡◌, refl, Bool, true, false, Option, none, some, List, Text, Result, ok, err,
  if◌then◌else◌, ◌==◌, ltb, leb,
}

pub record Entry : Type 0 where
  pub members : List Text
  -- Nanoseconds.
  pub expiry : ℕ

pub record Cache : Type 0 where
  pub membership_cache : ℕ → Option Entry
  pub cleanup_counter : ℕ

abbrev pub default_cache_timeout : ℕ
default_cache_timeout = 30000000000

abbrev pub cleanup_interval : ℕ
cleanup_interval = 10

unfoldable pub clear_cache : Cache
clear_cache = record { membership_cache = λ gid. none; cleanup_counter = 0 }

unfoldable pub unexpired : ℕ → Option Entry → Option Entry
unexpired now none = none
unexpired now (some e) = if ltb e.expiry now then none else some e

unfoldable pub clear_expired_cache : ℕ → Cache → Cache
clear_expired_cache now c = record c {
  membership_cache = λ gid. unexpired now (c.membership_cache gid);
}

-- The members of an entry that the clock has not reached.
unfoldable pub cached_members : ℕ → Option Entry → Option (List Text)
cached_members now none = none
cached_members now (some e) = if ltb now e.expiry then some e.members else none

-- The counter of misses, and the periodic cleanup.
unfoldable pub count_miss : ℕ → Cache → Cache
count_miss now c =
    if leb cleanup_interval (suc c.cleanup_counter)
    then record (clear_expired_cache now c) { cleanup_counter = 0 }
    else record c { cleanup_counter = suc c.cleanup_counter }

unfoldable pub remember : ℕ → List Text → ℕ → Cache → Cache
remember gid members now c = record c {
  membership_cache = λ g.
      if g == gid
      then some (record { members = members; expiry = now + default_cache_timeout })
      else c.membership_cache g;
}

module _ (E : Type 0) (enumerate_group_members : ℕ → ℕ → Result E (List Text)) where
  unfoldable pub get_group_members : ℕ → ℕ → Cache → Result E (List Text) × Cache
  unfolding cached_members count_miss remember
  get_group_members gid now c = elim (cached_members now (c.membership_cache gid)) [
    | some members ↦ (ok members, c)
    | none ↦ elim (enumerate_group_members now gid) [
      | err e ↦ (err e, count_miss now c)
      | ok members ↦ (ok members, remember gid members now (count_miss now c))
    ]
  ]
