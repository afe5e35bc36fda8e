-- ===== src/Proxy/External.antt =====
-- internal/proxy/socks5_manager.go: the manager of external SOCKS5 proxies. Its counter, an int64, is
-- taken not to reach 2^63. The probe of a health check is a parameter.
pub mod Names
use opencode_multi_agents.Prelude.{
  ℕ, zero, suc, ◌+◌, ◌-◌, ◌%◌, String, Bool, true, false, Option, none, some, List, [], ◌∷◌, ◌==◌,
  if◌then◌else◌, length, get_elem?,
}
use opencode_multi_agents.Prelude.Text.{text_append}
use opencode_multi_agents.Pow.Counter.{format_uint}
use opencode_multi_agents.Proxy.Types.{Proxy, idle}

pub record ExternalProxyManager : Type 0 where
  pub addrs : List String
  pub next_id : ℕ

abbrev pub new_external_proxy_manager : List String → ExternalProxyManager
new_external_proxy_manager addrs = record { addrs = addrs; next_id = 0 }

abbrev digit_texts : List String
digit_texts = "0" ∷ "1" ∷ "2" ∷ "3" ∷ "4" ∷ "5" ∷ "6" ∷ "7" ∷ "8" ∷ "9" ∷ []

-- A digit as a text.
unfoldable pub digit_text : ℕ → String
digit_text d = elim (get_elem? digit_texts d) [ none ↦ "" | some text ↦ text ]

unfoldable pub digits_text : List ℕ → String
unfolding digit_text
digits_text [] = ""
digits_text (c ∷ s) = text_append (digit_text (c - b'0')) (digits_text s)

-- "ext-%d"
unfoldable pub ext_id : ℕ → String
unfolding digits_text format_uint text_append
ext_id n = text_append "ext-" (digits_text (format_uint n))

-- The new proxy; the fields that are not set are zero.
abbrev pub external_proxy : ℕ → ℕ → String → Proxy
external_proxy now idx addr = record {
  id = ext_id (idx + 1);
  container_id = "";
  socks5_addr = addr;
  port = 0;
  state = idle;
  last_used = 0;
  last_check = 0;
  requests_sent = 0;
  error_count = 0;
  created_at = now;
  egress_ip = "";
  region = "";
  server_name = "";
  server_ip = "";
  has_manager = false;
}

abbrev pub external_at :
    ℕ → ExternalProxyManager → Option String → Option Proxy × ExternalProxyManager
external_at now m none = (none, m)
external_at now m (some addr) =
    (some (external_proxy now m.next_id addr), record m { next_id = m.next_id + 1 })

-- CreateEx: the regions and the servers to avoid are ignored
unfoldable pub create_external : ℕ → ExternalProxyManager → Option Proxy × ExternalProxyManager
create_external now m = external_at now m (get_elem? m.addrs (m.next_id % length m.addrs))

-- HealthCheck: `probe` is what the IP service says through the proxy, if it is an IP
unfoldable pub check_external : (String → Option String) → Proxy → Option Proxy
check_external probe p = elim (probe p.socks5_addr) [
  | none ↦ none
  | some ip ↦ some (record p { egress_ip = ip })
]
