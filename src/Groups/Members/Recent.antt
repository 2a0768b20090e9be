-- ===== src/Groups/Members/Recent.antt =====
-- What the cache returns is recent.
use go_safe_cmd_runner.Base.{
  ℕ, suc, ◌+◌, ◌≡◌, ◌≤◌, ◌<◌, refl, ◌∙◌, ap, inl, inr, Option, none, some, List, [], ◌∷◌, Text,
  Result, ok, ◌==◌, ==_iff, leb, arith, Option-cases, Bool-cases, Result-cases,
}
use go_safe_cmd_runner.Groups.Members.{
  Entry, Cache, default_cache_timeout, clear_cache, unexpired, clear_expired_cache, cached_members,
  count_miss, remember, get_group_members,
}

module _ (E : Type 0) (enumerate_group_members : ℕ → ℕ → Result E (List Text)) where
  -- The group was enumerated, with this answer, at a time from `now - timeout` to `now`.
  abbrev pub EnumeratedBy : ℕ → ℕ → List Text → Type 0
  EnumeratedBy gid now members =
      (t : ℕ) × (t ≤ now)
      × (now < t + default_cache_timeout)
      × (enumerate_group_members t gid ≡ ok members)

  -- Every entry holds what an enumeration in the past returned, with its own expiry.
  abbrev pub IsCache : ℕ → Cache → Type 0
  IsCache now c =
      (gid : ℕ) (e : Entry)
      → c.membership_cache gid ≡ some e
      → (t : ℕ) × (t ≤ now)
        × (e.expiry ≡ t + default_cache_timeout)
        × (enumerate_group_members t gid ≡ ok e.members)

  unexpired-some : (now : ℕ) (o : Option Entry) (e : Entry) → unexpired now o ≡ some e → o ≡ some e
  unfolding unexpired
  unexpired-some now none e h = absurd (cc)
  unexpired-some now (some e') e h = ground arith

  count_miss-IsCache : (now : ℕ) (c : Cache) → IsCache now c → IsCache now (count_miss now c)
  unfolding count_miss clear_expired_cache
  count_miss-IsCache now c kept gid e h = elim (Bool-cases (leb 10 (suc c.cleanup_counter))) [
    | inl full ↦ kept gid e (unexpired-some now (c.membership_cache gid) e (rw full at h))
    | inr free ↦ kept gid e (rw free at h)
  ]

  remember-IsCache :
      (gid now : ℕ) (members : List Text) (c : Cache)
      → enumerate_group_members now gid ≡ ok members
      → IsCache now c
      → IsCache now (remember gid members now c)
  unfolding remember
  remember-IsCache gid now members c listed kept g e h = elim (Bool-cases (g == gid)) [
    | inl same ↦
        let stored : some (record { members = members; expiry = now + default_cache_timeout })
            ≡ some e =
          rw same at h in
        (
          now,
          omega arith,
          ground (arith, stored),
          ground (arith, stored, (==_iff g gid).0 same, listed),
        )
    | inr differ ↦ kept g e (rw differ at h)
  ]

  later : (now now' : ℕ) (c : Cache) → now ≤ now' → IsCache now c → IsCache now' c
  later now now' c le kept gid e h =
      let (t, past, expiry, listed) = kept gid e h in (t, omega arith, expiry, listed)

  cached_members-some :
      (now : ℕ) (o : Option Entry) (members : List Text)
      → cached_members now o ≡ some members
      → (e : Entry) × (o ≡ some e) × (now < e.expiry) × (e.members ≡ members)
  unfolding cached_members
  cached_members-some now none members h = absurd (cc)
  cached_members-some now (some e) members h = (e, refl, ground arith, ground arith)

  -- A call keeps the cache correct, and a successful call returns what an enumeration of the group
  -- returned less than the timeout ago.
  pub get_group_members_recent :
      (gid now : ℕ) (c : Cache)
      → IsCache now c
      → IsCache now (get_group_members E enumerate_group_members gid now c).1
        × ((members : List Text)
            → (get_group_members E enumerate_group_members gid now c).0 ≡ ok members
            → EnumeratedBy gid now members)
  unfolding get_group_members
  get_group_members_recent gid now c kept =
      elim (Option-cases (cached_members now (c.membership_cache gid))) [
        | inr (members, hit) ↦
            let (e, found, fresh, same) =
              cached_members-some now (c.membership_cache gid) members hit in
            let (t, past, expiry, listed) = kept gid e found in
            rw (hit, get_group_members)
              (kept, (λ ms h. (t, past, omega arith, listed ∙ ap ok same ∙ h)))
        | inl miss ↦
            rw (miss, get_group_members)
              (elim (Result-cases (enumerate_group_members now gid)) [
                | inl (e, failed) ↦
                    rw (failed, get_group_members)
                      (count_miss-IsCache now c kept, (λ ms h. absurd (cc)))
                | inr (members, listed) ↦
                    rw (listed, get_group_members)
                      (
                        remember-IsCache gid now members (count_miss now c) listed
                            (count_miss-IsCache now c kept),
                        (λ ms h. (now, omega arith, omega arith, listed ∙ h)),
                      )
              ])
      ]

  -- Calls at given times, from a given cache.
  unfoldable pub after_calls : List (ℕ × ℕ) → Cache → Cache
  after_calls [] c = c
  after_calls ((gid, now) ∷ rest) c =
      after_calls rest (get_group_members E enumerate_group_members gid now c).1

  -- The clock does not run backwards.
  abbrev pub Ascending : ℕ → List (ℕ × ℕ) → ℕ → Type 0
  Ascending from [] until = from ≤ until
  Ascending from ((gid, now) ∷ rest) until = (from ≤ now) × Ascending now rest until

  after_calls-IsCache :
      (from : ℕ) (calls : List (ℕ × ℕ)) (until : ℕ) (c : Cache)
      → Ascending from calls until
      → IsCache from c
      → IsCache until (after_calls calls c)
  unfolding after_calls
  after_calls-IsCache from [] until c order kept = later from until c order kept
  after_calls-IsCache from ((gid, now) ∷ rest) until c (past, order) kept =
      after_calls-IsCache now rest until _ order
        (get_group_members_recent gid now c (later from now c past kept)).0

  -- After any calls, at times in ascending order, that start with an empty cache, a successful call
  -- returns what an enumeration of the group returned at most 30 seconds ago.
  pub get_group_members-after_calls :
      (calls : List (ℕ × ℕ)) (gid now : ℕ) (members : List Text)
      → Ascending 0 calls now
      → (get_group_members E enumerate_group_members gid now (after_calls calls clear_cache)).0
        ≡ ok members
      → EnumeratedBy gid now members
  unfolding clear_cache
  get_group_members-after_calls calls gid now members order =
      (get_group_members_recent gid now (after_calls calls clear_cache)
          (after_calls-IsCache 0 calls now clear_cache order (λ g e h. absurd (cc)))).1
        members
