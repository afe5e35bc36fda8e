-- ===== src/Proxy/Bans.antt =====
-- internal/proxy/pool.go: the ban lists, maps from an egress IP or a region to the time until
-- which it is excluded. A lookup removes the entry when it has expired.
use opencode_multi_agents.Prelude.{
  ℕ, ◌<◌, String, ◌≡◌, Bool, true, false, not, ◌&&◌, Option, none, some, List, [], ◌∷◌, arith,
  eq_iff, ltb, str_eq, if◌then◌else◌, ◌≢◌,
}
use opencode_multi_agents.Prelude.Map.{Map, lookup, insert, delete, lookup-insert, lookup-delete}

-- The verdict on an entry, and the map after an expired entry is dropped.
ban_verdict : String → ℕ → Map ℕ → Option ℕ → Bool × Map ℕ
ban_verdict ip now bans none = (false, bans)
ban_verdict ip now bans (some until) =
    if ltb now until then (true, bans) else (false, delete ip bans)

-- ipBannedLocked
unfoldable pub ip_banned_locked : String → ℕ → Map ℕ → Bool × Map ℕ
unfolding ban_verdict
ip_banned_locked ip now bans =
    if str_eq ip "" then (false, bans) else ban_verdict ip now bans (lookup ip bans)

abbrev pub time_or_zero : Option ℕ → ℕ
time_or_zero none = 0
time_or_zero (some t) = t

-- banIPLocked: a ban is never shortened
unfoldable pub ban_ip_locked : String → ℕ → Map ℕ → Map ℕ
ban_ip_locked ip until bans =
    if str_eq ip ""
    then bans
    else if ltb (time_or_zero (lookup ip bans)) until
    then insert ip until bans
    else bans

-- The loop that drops the expired entries, over a copy of the map's entries.
unfoldable pub clear_expired : ℕ → List (String × ℕ) → Map ℕ → Map ℕ
clear_expired now [] bans = bans
clear_expired now ((ip, until) ∷ rest) bans =
    clear_expired now rest (if ltb now until then bans else delete ip bans)

-- bannedRegions: the regions still banned, and the map without the expired ones
unfoldable pub banned_regions : ℕ → List (String × ℕ) → Map ℕ → List String × Map ℕ
banned_regions now [] bans = ([], bans)
banned_regions now ((region, until) ∷ rest) bans =
    let (banned, bans') =
      banned_regions now rest (if ltb now until then bans else delete region bans) in
    (if ltb now until then region ∷ banned else banned, bans')

-- What the ban list says of an IP, with no clean-up.
abbrev pub in_force : ℕ → Option ℕ → Bool
in_force now none = false
in_force now (some until) = ltb now until

abbrev pub is_banned : ℕ → String → Map ℕ → Bool
is_banned now ip bans = not (str_eq ip "") && in_force now (lookup ip bans)

pub ip_banned_locked-verdict :
    (ip : String) (now : ℕ) (bans : Map ℕ)
    → (ip_banned_locked ip now bans).0 ≡ is_banned now ip bans
unfolding ip_banned_locked
ip_banned_locked-verdict ip now bans = ground arith

-- The clean-up is not seen by any later question at the same time.
pub ip_banned_locked-keeps :
    (ip : String) (now : ℕ) (bans : Map ℕ) (j : String)
    → is_banned now j (ip_banned_locked ip now bans).1 ≡ is_banned now j bans
unfolding ip_banned_locked
ip_banned_locked-keeps ip now bans j =
    ground (arith, lookup-delete ip j bans, eq_iff ip j, eq_iff ip "")

-- A ban is in force until the time it was set to, whatever was there before.
pub ban_ip_locked-bans :
    (ip : String) (now until : ℕ) (bans : Map ℕ)
    → ip ≢ ""
    → now < until
    → is_banned now ip (ban_ip_locked ip until bans) ≡ true
unfolding ban_ip_locked
ban_ip_locked-bans ip now until bans named h =
    ground (arith, lookup-insert ip ip until bans, eq_iff ip ip, eq_iff ip "")

-- Banning one IP lifts no ban.
pub ban_ip_locked-keeps :
    (ip : String) (now until : ℕ) (bans : Map ℕ) (j : String)
    → is_banned now j bans ≡ true
    → is_banned now j (ban_ip_locked ip until bans) ≡ true
unfolding ban_ip_locked
ban_ip_locked-keeps ip now until bans j h =
    ground (arith, lookup-insert ip j until bans, eq_iff ip j, eq_iff j "")
