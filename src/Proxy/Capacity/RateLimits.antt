-- ===== src/Proxy/Capacity/RateLimits.antt =====
-- MarkRateLimited and MarkUnhealthy: the ban, its length, and the entry's new state.
use opencode_multi_agents.Prelude.{
  ℕ, ◌+◌, ◌*◌, ◌^◌, ◌≤◌, ◌<◌, String, ◌≡◌, ◌≢◌, true, Option, none, some, max, arith, eq_iff,
  Option-cases, inl, inr,
}
use opencode_multi_agents.Prelude.Map.{lookup, insert, lookup-insert}
use opencode_multi_agents.Prelude.Text.{atoi}
use opencode_multi_agents.Prelude.Int.{ℤ, pos, negsuc}
use opencode_multi_agents.Proxy.Types.{Proxy}
use opencode_multi_agents.Proxy.Bans.{
  is_banned, ban_ip_locked, ban_ip_locked-bans, ban_ip_locked-keeps,
}
use opencode_multi_agents.Proxy.Pool.{PoolManager}
use opencode_multi_agents.Proxy.Index.{Indexed, insert-Indexed, Indexed-lookup}
use opencode_multi_agents.Proxy.Acquire.{try_acquire, release_proxy}
use opencode_multi_agents.Proxy.Acquire.Dispatch.{try_acquire-Dispatches}
use opencode_multi_agents.Proxy.Capacity.{
  second, retry_ban, ban_for, rate_limited, mark_rate_limited, marked_unhealthy, mark_unhealthy,
}

retry_ban_least : (z : Option ℤ) (least : ℕ) → least ≤ retry_ban z least
unfolding retry_ban
retry_ban_least none least = omega arith
retry_ban_least (some (negsuc n)) least = omega arith
retry_ban_least (some (pos secs)) least = ground arith

retry_ban_seconds :
    (secs least : ℕ) → secs * second < 2 ^ 63 → secs * second ≤ retry_ban (some (pos secs)) least
unfolding retry_ban
retry_ban_seconds secs least h = ground arith

-- The ban lasts at least the configured time, and at least as long as the upstream's Retry-After
-- asks for, where that is a number of seconds that a 64-bit duration can hold.
pub ban_for-le :
    (retry_after : String) (pm : PoolManager) (secs : ℕ)
    → atoi retry_after ≡ some (pos secs)
    → secs * second < 2 ^ 63
    → max pm.cfg.ip_ban_duration (secs * second) ≤ ban_for retry_after pm
unfolding ban_for
ban_for-le retry_after pm secs e h = rw e (
    omega (
      arith,
      retry_ban_least (some (pos secs)) pm.cfg.ip_ban_duration,
      retry_ban_seconds secs pm.cfg.ip_ban_duration h,
    ))

ip_bans-mark_rate_limited :
    (now now' now'' : ℕ) (p : Proxy) (retry_after : String) (pm : PoolManager)
    → (mark_rate_limited now now' now'' p retry_after pm).ip_bans
      ≡ ban_ip_locked p.egress_ip (now + ban_for retry_after pm) pm.ip_bans
unfolding mark_rate_limited
ip_bans-mark_rate_limited now now' now'' p retry_after pm = ground arith

-- From the report on, and until the ban has run out, the proxy's egress IP is banned; and a ban
-- that was in force still is.
pub mark_rate_limited-bans :
    (now now' now'' : ℕ) (p : Proxy) (retry_after : String) (pm : PoolManager) (t : ℕ) (j : String)
    → p.egress_ip ≢ ""
    → t < now + ban_for retry_after pm
    → is_banned t j pm.ip_bans ≡ true
    → let pm' = mark_rate_limited now now' now'' p retry_after pm in
      (is_banned t p.egress_ip pm'.ip_bans ≡ true) × (is_banned t j pm'.ip_bans ≡ true)
mark_rate_limited-bans now now' now'' p retry_after pm t j named h old =
    rw (ip_bans-mark_rate_limited now now' now'' p retry_after pm) (
      ban_ip_locked-bans p.egress_ip t (now + ban_for retry_after pm) pm.ip_bans named h,
      ban_ip_locked-keeps p.egress_ip t (now + ban_for retry_after pm) pm.ip_bans j old,
    )

-- The reported proxy's entry goes to cooldown, stamped and with one more error, and no other entry
-- changes.
pub mark_rate_limited-entry :
    (now now' now'' : ℕ) (p : Proxy) (retry_after : String) (pm : PoolManager) (pr : Proxy)
    (j : String)
    → lookup p.id pm.pool ≡ some pr
    → p.id ≢ j
    → let pm' = mark_rate_limited now now' now'' p retry_after pm in
      (lookup p.id pm'.pool ≡ some (rate_limited now'' pr))
      × (lookup j pm'.pool ≡ lookup j pm.pool)
      × (pm'.total_errors ≡ pm.total_errors + 1)
unfolding mark_rate_limited
mark_rate_limited-entry now now' now'' p retry_after pm pr j e ne = ground (
  arith,
  lookup-insert p.id p.id (rate_limited now'' pr) pm.pool,
  lookup-insert p.id j (rate_limited now'' pr) pm.pool,
  eq_iff p.id p.id,
  eq_iff p.id j,
)

mark_rate_limited-Indexed :
    (now now' now'' : ℕ) (p : Proxy) (retry_after : String) (pm : PoolManager)
    → Indexed pm.pool
    → Indexed (mark_rate_limited now now' now'' p retry_after pm).pool
unfolding mark_rate_limited
mark_rate_limited-Indexed now now' now'' p retry_after pm h =
    elim (Option-cases (lookup p.id pm.pool)) [
      | inl e ↦ ground arith
      | inr (pr, e) ↦ ground (
        arith,
        insert-Indexed p.id (rate_limited now'' pr) pm.pool
            (Indexed-lookup p.id {p = pr} pm.pool h e) h,
      )
    ]

-- While the ban lasts, no pass of GetProxy hands out any proxy with that egress IP.
pub mark_rate_limited-try_acquire :
    (now now' now'' : ℕ) (p : Proxy) (retry_after : String) (pm : PoolManager) (t later : ℕ)
    (c : String) (q : Proxy)
    → Indexed pm.pool
    → p.egress_ip ≢ ""
    → t < now + ban_for retry_after pm
    → (try_acquire t later c (mark_rate_limited now now' now'' p retry_after pm)).0 ≡ some q
    → q.egress_ip ≢ p.egress_ip
mark_rate_limited-try_acquire now now' now'' p retry_after pm t later c q h named soon e same =
    let pm' = mark_rate_limited now now' now'' p retry_after pm in
    let (p', d) =
      try_acquire-Dispatches t later c pm' q
        (mark_rate_limited-Indexed now now' now'' p retry_after pm h) e in
    let banned : is_banned t p.egress_ip pm'.ip_bans ≡ true =
      rw (ip_bans-mark_rate_limited now now' now'' p retry_after pm)
        (ban_ip_locked-bans p.egress_ip t (now + ban_for retry_after pm) pm.ip_bans named soon) in
    ground (arith, d.unbanned, d.handed, banned)

-- MarkUnhealthy takes the entry out of dispatch whatever its state was, counts the error, and
-- changes no other entry.
pub mark_unhealthy-entry :
    (id : String) (pm : PoolManager) (pr : Proxy) (j : String)
    → lookup id pm.pool ≡ some pr
    → id ≢ j
    → let pm' = mark_unhealthy (some id) pm in
      (lookup id pm'.pool ≡ some (marked_unhealthy pr))
      × (lookup j pm'.pool ≡ lookup j pm.pool)
      × (pm'.total_errors ≡ pm.total_errors + 1)
unfolding mark_unhealthy
mark_unhealthy-entry id pm pr j e ne = ground (
  arith,
  lookup-insert id id (marked_unhealthy pr) pm.pool,
  lookup-insert id j (marked_unhealthy pr) pm.pool,
  eq_iff id id,
  eq_iff id j,
)

-- A proxy that was reported, as rate limited or as unhealthy, stays out of dispatch when the request
-- that held it releases it: its entry is not changed by the release.
pub release_proxy_reported :
    (now now' now'' : ℕ) (p : Proxy) (retry_after : String) (pm : PoolManager) (pr : Proxy)
    → lookup p.id pm.pool ≡ some pr
    → (lookup p.id (release_proxy p.id (mark_rate_limited now now' now'' p retry_after pm)).pool
        ≡ some (rate_limited now'' pr))
      × (lookup p.id (release_proxy p.id (mark_unhealthy (some p.id) pm)).pool
          ≡ some (marked_unhealthy pr))
unfolding mark_rate_limited mark_unhealthy release_proxy
release_proxy_reported now now' now'' p retry_after pm pr e = (
  ground (
    arith,
    e,
    lookup-insert p.id p.id (rate_limited now'' pr) pm.pool,
    lookup-insert p.id p.id (rate_limited now'' pr) (insert p.id (rate_limited now'' pr) pm.pool),
    eq_iff p.id p.id,
  ),
  ground (
    arith,
    e,
    lookup-insert p.id p.id (marked_unhealthy pr) pm.pool,
    lookup-insert p.id p.id (marked_unhealthy pr) (insert p.id (marked_unhealthy pr) pm.pool),
    eq_iff p.id p.id,
  ),
)
