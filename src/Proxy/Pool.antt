-- ===== src/Proxy/Pool.antt =====
-- internal/proxy/pool.go: the state of `PoolManager`, and the helpers that touch one entry.
-- `available` is the channel of capacity 1: whether it holds a signal. `closed` says whether
-- `done` is closed. The map `usedServers` is never read by the source and is left out.
use opencode_multi_agents.Prelude.{
  ℕ, String, Bool, true, false, Option, none, some, List, [], ◌∷◌, str_eq, if◌then◌else◌, ◌&&◌,
  ◌||◌, not,
}
use opencode_multi_agents.Prelude.Map.{Map, insert}
use opencode_multi_agents.Proxy.Types.{Proxy, healthy_state}

-- The fields of `config.Config` that the pool reads; durations in nanoseconds.
pub record PoolConfig : Type 0 where
  pub proxy_pool_size : ℕ
  pub cooldown_duration : ℕ
  pub ip_ban_duration : ℕ
  pub sticky_session_ttl : ℕ
  pub proxy_ip_rotate_attempts : ℕ

pub record PoolManager : Type 0 where
  pub cfg : PoolConfig
  pub pool : Map Proxy
  pub sticky : Map String
  pub ip_bans : Map ℕ
  pub region_bans : Map ℕ
  pub spawning : ℕ
  pub rr : ℕ
  pub available : Bool
  pub closed : Bool
  pub total_requests : ℕ
  pub total_errors : ℕ

-- NewPoolManagerWithManager
unfoldable pub new_pool_manager : PoolConfig → PoolManager
new_pool_manager cfg = record {
  cfg = cfg;
  pool = [];
  sticky = [];
  ip_bans = [];
  region_bans = [];
  spawning = 0;
  rr = 0;
  available = false;
  closed = false;
  total_requests = 0;
  total_errors = 0;
}

-- `if pr, exists := pm.pool[id]; exists { … }`, with the entry changed in place
unfoldable pub with_entry : Option Proxy → String → (Proxy → Proxy) → PoolManager → PoolManager
with_entry none id f pm = pm
with_entry (some pr) id f pm = record pm { pool = insert id (f pr) pm.pool }

-- `pm.available <- struct{}{}`, dropped when the channel is full
abbrev pub signal : PoolManager → PoolManager
signal pm = record pm { available = true }

-- usedServersAvoid
unfoldable pub used_servers_avoid : List Proxy → List String
used_servers_avoid [] = []
used_servers_avoid (p ∷ ps) =
    let rest = used_servers_avoid ps in
    if str_eq p.server_name "" then rest else p.server_name ∷ rest

-- The test of the loop in duplicateIPLocked.
abbrev pub duplicates : Proxy → Proxy → Bool
duplicates p pr =
    not (str_eq pr.id p.id || str_eq pr.egress_ip "")
    && (str_eq pr.egress_ip p.egress_ip && healthy_state pr.state)

unfoldable pub any_duplicate : Proxy → List Proxy → Bool
any_duplicate p [] = false
any_duplicate p (pr ∷ rest) = duplicates p pr || any_duplicate p rest

-- duplicateIPLocked
unfoldable pub duplicate_ip_locked : Proxy → List Proxy → Bool
unfolding any_duplicate
duplicate_ip_locked p ps = if str_eq p.egress_ip "" then false else any_duplicate p ps
