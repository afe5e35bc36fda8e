-- ===== src/Proxy/Examples.antt =====
-- The theorems on the proxy pool at concrete pools.
use opencode_multi_agents.Prelude.{◌≡◌, ◌≢◌, refl, String, false, [], ◌∷◌, arith, ◌+◌, max, eq_iff}
use opencode_multi_agents.Prelude.Map.{Map, lookup, insert}
use opencode_multi_agents.Proxy.Types.{Proxy, ProxyState, idle, cooldown}
use opencode_multi_agents.Proxy.Pool.{PoolConfig, PoolManager}
use opencode_multi_agents.Proxy.Index.{Indexed}
use opencode_multi_agents.Proxy.Acquire.{try_acquire, dispatched}
use opencode_multi_agents.Proxy.Acquire.Dispatch.{Dispatches, try_acquire-Dispatches}
use opencode_multi_agents.Prelude.Text.{atoi, str_ltb}
use opencode_multi_agents.Proxy.Bans.{ip_banned_locked, ban_ip_locked}
use opencode_multi_agents.Proxy.Capacity.{ensure_pool_capacity, ban_for, mark_rate_limited}
use opencode_multi_agents.Proxy.Capacity.Deficit.{serving, ensure_pool_capacity-exact}
use opencode_multi_agents.Proxy.Capacity.RateLimits.{mark_rate_limited-try_acquire}

abbrev pub proxy : String → ProxyState → String → Proxy
proxy id state egress_ip = record {
  id = id;
  container_id = id;
  socks5_addr = "127.0.0.1:1080";
  port = 1080;
  state = state;
  last_used = 0;
  last_check = 0;
  requests_sent = 0;
  error_count = 0;
  created_at = 0;
  egress_ip = egress_ip;
  region = "";
  server_name = "";
  server_ip = "";
  has_manager = false;
}

abbrev pub config : PoolConfig
config = record {
  proxy_pool_size = 2;
  cooldown_duration = 5;
  ip_ban_duration = 10;
  sticky_session_ttl = 0;
  proxy_ip_rotate_attempts = 3;
}

abbrev pub pool_of : Map Proxy → PoolManager
pool_of pool = record {
  cfg = config;
  pool = pool;
  sticky = [];
  ip_bans = ("10.0.0.9", 100) ∷ [];
  region_bans = [];
  spawning = 0;
  rr = 0;
  available = false;
  closed = false;
  total_requests = 0;
  total_errors = 0;
}

abbrev pub idle_a : Proxy
idle_a = proxy "a" idle "10.0.0.1"

abbrev pub idle_b : Proxy
idle_b = proxy "b" idle "10.0.0.2"

abbrev pub cool_c : Proxy
cool_c = proxy "c" cooldown "10.0.0.9"

abbrev pub two : PoolManager
two = pool_of (("a", idle_a) ∷ ("b", idle_b) ∷ [])

abbrev pub mixed : PoolManager
mixed = pool_of (("a", idle_a) ∷ ("c", cool_c) ∷ [])

abbrev pub three : PoolManager
three = pool_of (("a", idle_a) ∷ ("b", idle_b) ∷ ("c", cool_c) ∷ [])

pub two-Indexed : Indexed two.pool
unfolding lookup
two-Indexed = (refl, refl, (refl, refl, tt))

pub mixed-Indexed : Indexed mixed.pool
unfolding lookup
mixed-Indexed = (refl, refl, (refl, refl, tt))

pub three-Indexed : Indexed three.pool
unfolding lookup
three-Indexed = (refl, refl, (refl, refl, (refl, refl, tt)))

try_acquire-Dispatches_example :
    (p : Proxy) × Dispatches 3 4 two (try_acquire 3 4 "" two).1 (dispatched 4 idle_a) p
unfolding try_acquire ip_banned_locked lookup str_ltb
try_acquire-Dispatches_example =
    try_acquire-Dispatches 3 4 "" two (dispatched 4 idle_a) two-Indexed refl

ensure_pool_capacity-exact_example :
    let r = ensure_pool_capacity 3 mixed in
    (serving 3 mixed + r.1.spawning
      ≡ max mixed.cfg.proxy_pool_size (serving 3 mixed + mixed.spawning))
    × (r.1.spawning ≡ mixed.spawning + r.0)
ensure_pool_capacity-exact_example = ensure_pool_capacity-exact 3 mixed

mark_rate_limited-try_acquire_example : (dispatched 12 idle_b).egress_ip ≢ idle_a.egress_ip
unfolding ban_for atoi try_acquire mark_rate_limited lookup insert ip_banned_locked ban_ip_locked
mark_rate_limited-try_acquire_example =
    mark_rate_limited-try_acquire 3 3 3 idle_a "" two 12 12 "" (dispatched 12 idle_b) two-Indexed
      (ground (arith, eq_iff "10.0.0.1" "")) (omega arith) refl
