-- ===== src/Proxy/Health.antt =====
-- internal/proxy/pool.go: the periodic checks (checkAllProxies, restoreCooldownProxies) and the
-- counts (Stats, List). A health probe is the manager's: its outcome is an argument.
pub mod Drift
pub mod Restore
pub mod Counts
use opencode_multi_agents.Prelude.{
  ℕ, suc, ◌+◌, String, Bool, true, false, not, ◌&&◌, ◌||◌, Option, none, some, List, [], ◌∷◌, ◌++◌,
  ltb, leb, if◌then◌else◌, length, tally,
}
use opencode_multi_agents.Prelude.Map.{Map, lookup, insert, values}
use opencode_multi_agents.Proxy.Types.{
  Proxy, ProxyState, idle, active, cooldown, unhealthy, idle_state,
}
use opencode_multi_agents.Proxy.Bans.{ip_banned_locked, clear_expired}
use opencode_multi_agents.Proxy.Pool.{PoolManager, signal, duplicate_ip_locked}
use opencode_multi_agents.Proxy.Capacity.{remove_all}

-- What a HealthCheck reports of a proxy: whether it is healthy, and the egress IP it saw.
pub record Probe : Type 0 where
  pub id : String
  pub healthy : Bool
  pub egress_ip : String

-- The state after a probe, before the test for drift.
abbrev pub probed_state : Bool → ProxyState → ProxyState
probed_state false cooldown = cooldown
probed_state false _ = unhealthy
probed_state true unhealthy = idle
probed_state true s = s

abbrev pub recovers : Bool → ProxyState → Bool
recovers true unhealthy = true
recovers _ _ = false

abbrev pub probed : ℕ → Probe → Proxy → Proxy
probed now probe pr = record pr {
  egress_ip = probe.egress_ip;
  last_check = now;
  state = probed_state probe.healthy pr.state;
}

abbrev pub drifted : Proxy → Proxy
drifted pr = record pr { state = unhealthy }

-- The entry `pr`, already probed, is marked unhealthy if it is idle and its IP is a duplicate.
pub drift_check : Bool → Proxy → PoolManager → Bool × PoolManager
drift_check healthy pr pm =
    if healthy && (idle_state pr.state && duplicate_ip_locked pr (values pm.pool))
    then (true, record pm { pool = insert pr.id (drifted pr) pm.pool })
    else (false, pm)

pub check_entry : ℕ → Probe → Option Proxy → PoolManager → Bool × PoolManager
unfolding drift_check
check_entry now probe none pm = (false, pm)
check_entry now probe (some pr) pm = drift_check probe.healthy (probed now probe pr) (record pm {
  pool = insert pr.id (probed now probe pr) pm.pool;
  available = pm.available || recovers probe.healthy pr.state;
})

-- checkAllProxies, the section under the lock for one proxy: whether drift was found
unfoldable pub check_proxy : ℕ → Probe → PoolManager → Bool × PoolManager
unfolding check_entry
check_proxy now probe pm = check_entry now probe (lookup probe.id pm.pool) pm

-- checkAllProxies: the loop, with the time of each section beside its probe
unfoldable pub check_all_proxies : List (ℕ × Probe) → PoolManager → Bool × PoolManager
check_all_proxies [] pm = (false, pm)
check_all_proxies ((now, probe) ∷ rest) pm =
    let (drift, pm1) = check_proxy now probe pm in
    let (drifts, pm2) = check_all_proxies rest pm1 in (drift || drifts, pm2)

abbrev pub is_cooldown : ProxyState → Bool
is_cooldown cooldown = true
is_cooldown _ = false

-- In cooldown, and for long enough.
abbrev pub cooled : ℕ → ℕ → Proxy → Bool
cooled now duration pr = is_cooldown pr.state && leb (pr.last_used + duration) now

abbrev pub restored : Proxy → Proxy
restored pr = record pr { state = idle; error_count = 0 }

-- `len(pm.pool) > pm.cfg.ProxyPoolSize`
abbrev pub over_size : PoolManager → Bool
over_size pm = ltb pm.cfg.proxy_pool_size (length pm.pool)

-- The body of the loop of restoreCooldownProxies: the ID to remove, if any.
pub restore_one : ℕ → Proxy → PoolManager → List String × PoolManager
restore_one now pr pm =
    if cooled now pm.cfg.cooldown_duration pr
    then (if over_size pm
        then (pr.id ∷ [], pm)
        else (let (banned, bans) = ip_banned_locked pr.egress_ip now pm.ip_bans in
            (
              [],
              record pm {
                pool = insert pr.id (restored pr) pm.pool;
                ip_bans = bans;
                available = pm.available || not banned;
              },
            )))
    else ([], pm)

pub restore_loop : ℕ → List Proxy → PoolManager → List String × PoolManager
unfolding restore_one
restore_loop now [] pm = ([], pm)
restore_loop now (pr ∷ rest) pm =
    let (ids, pm1) = restore_one now pr pm in
    let (more, pm2) = restore_loop now rest pm1 in (ids ++ more, pm2)

-- The expired bans of both lists are dropped first.
abbrev pub clear_bans : ℕ → PoolManager → PoolManager
clear_bans now pm = record pm {
  ip_bans = clear_expired now pm.ip_bans pm.ip_bans;
  region_bans = clear_expired now pm.region_bans pm.region_bans;
}

-- restoreCooldownProxies, its section under the lock: the IDs to remove
unfoldable pub restore_section : ℕ → PoolManager → List String × PoolManager
unfolding restore_loop
restore_section now pm = restore_loop now (values pm.pool) (clear_bans now pm)

-- restoreCooldownProxies, with no other goroutine before the removals
unfoldable pub restore_cooldown_proxies : ℕ → PoolManager → PoolManager
unfolding restore_section remove_all
restore_cooldown_proxies now pm = let (ids, pm') = restore_section now pm in remove_all ids pm'

pub record PoolStats : Type 0 where
  pub total : ℕ
  pub idle : ℕ
  pub active : ℕ
  pub cooldown : ℕ
  pub unhealthy : ℕ
  pub total_requests : ℕ
  pub total_errors : ℕ

-- The `switch` of Stats.
pub count_state : ProxyState → PoolStats → PoolStats
count_state ProxyState.idle s = record s { idle = s.idle + 1 }
count_state ProxyState.active s = record s { active = s.active + 1 }
count_state ProxyState.cooldown s = record s { cooldown = s.cooldown + 1 }
count_state ProxyState.unhealthy s = record s { unhealthy = s.unhealthy + 1 }

pub count_states : List Proxy → PoolStats → PoolStats
unfolding count_state
count_states [] s = s
count_states (pr ∷ rest) s = count_states rest (count_state pr.state s)

-- Stats
unfoldable pub stats : PoolManager → PoolStats
unfolding count_states
stats pm = count_states (values pm.pool) (record {
  total = length pm.pool;
  idle = 0;
  active = 0;
  cooldown = 0;
  unhealthy = 0;
  total_requests = pm.total_requests;
  total_errors = pm.total_errors;
})
