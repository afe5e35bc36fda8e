-- ===== src/Proxy/Types.antt =====
-- internal/proxy/types.go: a proxy, its states, and the sanitized copy for API responses.
-- Times are numbers of nanoseconds; an empty text is Go's "". `has_manager` says whether the
-- atomic pointer `manager` has been set.
use opencode_multi_agents.Prelude.{ℕ, String, Bool, true, false}

pub data ProxyState : Type 0 where
  idle active cooldown unhealthy : ProxyState

pub record Proxy : Type 0 where
  pub id : String
  pub container_id : String
  pub socks5_addr : String
  pub port : ℕ
  pub state : ProxyState
  pub last_used : ℕ
  pub last_check : ℕ
  pub requests_sent : ℕ
  pub error_count : ℕ
  pub created_at : ℕ
  pub egress_ip : String
  pub region : String
  pub server_name : String
  pub server_ip : String
  pub has_manager : Bool

pub record ProxySnapshot : Type 0 where
  pub id : String
  pub socks5_addr : String
  pub port : ℕ
  pub state : ProxyState
  pub last_used : ℕ
  pub last_check : ℕ
  pub requests_sent : ℕ
  pub error_count : ℕ
  pub created_at : ℕ
  pub egress_ip : String
  pub region : String
  pub server_name : String
  pub server_ip : String

unfoldable pub snapshot : Proxy → ProxySnapshot
snapshot p = record {
  id = p.id;
  socks5_addr = p.socks5_addr;
  port = p.port;
  state = p.state;
  last_used = p.last_used;
  last_check = p.last_check;
  requests_sent = p.requests_sent;
  error_count = p.error_count;
  created_at = p.created_at;
  egress_ip = p.egress_ip;
  region = p.region;
  server_name = p.server_name;
  server_ip = p.server_ip;
}

abbrev pub healthy_state : ProxyState → Bool
healthy_state idle = true
healthy_state active = true
healthy_state _ = false

abbrev pub idle_state : ProxyState → Bool
idle_state idle = true
idle_state _ = false

abbrev pub dead_state : ProxyState → Bool
dead_state cooldown = true
dead_state unhealthy = true
dead_state _ = false

-- IsHealthy: idle or active
abbrev pub is_healthy : Proxy → Bool
is_healthy p = healthy_state p.state

-- IsAvailable: idle
abbrev pub is_available : Proxy → Bool
is_available p = idle_state p.state

unfoldable pub set_manager : Proxy → Proxy
set_manager p = record p { has_manager = true }
