-- ===== src/Proxy/Refresh/Externals.antt =====
-- The external proxies of the pool.
use opencode_multi_agents.Prelude.{ℕ, ◌≡◌, ◌≢◌, ◌⊎◌, String, Option, none, some}
use opencode_multi_agents.Prelude.Map.{lookup}
use opencode_multi_agents.Proxy.Types.{Proxy, set_manager}
use opencode_multi_agents.Proxy.Pool.{PoolManager}
use opencode_multi_agents.Proxy.External.{ext_id, external_proxy}

-- The entries under other IDs than that of a first external proxy.
abbrev pub SameElsewhere : PoolManager → PoolManager → Type 0
SameElsewhere pm after = (id : String) → id ≢ ext_id 1 → lookup id after.pool ≡ lookup id pm.pool

abbrev with_egress : Option String → Proxy → Option Proxy
with_egress none p = none
with_egress (some ip) p = some (record p { egress_ip = ip })

-- An address that is empty or fails its check.
abbrev pub Fails : (String → Option String) → String → Type 0
Fails probe addr = (addr ≡ "") ⊎ (probe addr ≡ none)

-- What joins the pool for an address that answers with an IP.
abbrev pub joining : ℕ → String → String → Proxy
joining now addr ip = set_manager (record (external_proxy now 0 addr) { egress_ip = ip })
