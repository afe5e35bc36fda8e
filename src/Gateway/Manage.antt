-- ===== src/Gateway/Manage.antt =====
-- internal/handler/manage.go: what the management API changes. A body is `none` where it cannot be
-- read or is no JSON of its kind. What only reads the state and writes it as JSON is left out.
pub mod Refused
use opencode_multi_agents.Prelude.{
  ℕ, suc, ◌+◌, String, Bool, true, false, ◌&&◌, ◌||◌, not, Option, none, some, List, [], ◌∷◌, ◌++◌,
  ◌==◌, str_eq, if◌then◌else◌, length, leb, ltb,
}
use opencode_multi_agents.Prelude.Int.{ℤ, pos, negsuc, ltb_ℤ}
use opencode_multi_agents.Prelude.Bytes.{Bytes, is_blank, trim_space, text_trim_space}
use opencode_multi_agents.Prelude.Map.{Map, lookup, values}
use opencode_multi_agents.Prelude.Text.{atoi, bytes_of}
use opencode_multi_agents.Pow.Counter.{format_uint}
use opencode_multi_agents.Proxy.Types.{Proxy, ProxySnapshot, snapshot}
use opencode_multi_agents.Proxy.Pool.{PoolManager}
use opencode_multi_agents.Proxy.Capacity.{set_pool_size}
use opencode_multi_agents.Proxy.Health.{PoolStats, stats}
use opencode_multi_agents.Proxy.Refresh.{add_external_proxy, refresh_pool}
use opencode_multi_agents.Config.Store.{
  Account, ProxyConfig, ConfigStore, get_accounts, get_account, create_account, update_account,
  delete_account, get_proxies, create_proxy_row, delete_proxy, set_settings,
}

-- What is answered: an error with its status, or what the JSON holds.
pub data Answer : Type 0 where
  problem : ℕ → Answer
  account : ℕ → Account → Answer
  proxy : ℕ → ProxyConfig → Answer
  deleted : Answer
  settings : Map String → Answer
  refreshed : List String → PoolStats → List ProxySnapshot → Answer

pub record AccountRequest : Type 0 where
  pub username : Bytes
  pub password : Bytes
  pub session_cookies : Bytes
  pub enabled : Option Bool

-- The path of the store of a new account, with this many before it.
abbrev pub new_store_path : Bytes → ℕ → Bytes
new_store_path base n =
    if n == 0 then base else bytes_of "data/protonvpn_" ++ (format_uint (n + 1) ++ bytes_of ".db")

abbrev pub or_enabled : Bool → Option Bool → Bool
or_enabled old none = old
or_enabled old (some enabled) = enabled

abbrev pub new_account : Bytes → ℕ → AccountRequest → Account
new_account base n req = record {
  id = 0;
  username = trim_space req.username;
  password = req.password;
  store_path = new_store_path base n;
  session_cookies = req.session_cookies;
  enabled = or_enabled true req.enabled;
}

abbrev pub account_created : Option (Account × ConfigStore) → ConfigStore → Answer × ConfigStore
account_created none s = (problem 409, s)
account_created (some (a, s')) s = (account 201 a, s')

-- handleCreateAccount, for the path of the configuration; `valid` is what the account's validation
-- at ProtonVPN says
unfoldable pub handle_create_account :
    Bytes
    → (Bytes → Bytes → Bytes → Bool)
    → Option AccountRequest
    → ConfigStore
    → Answer × ConfigStore
handle_create_account base valid none s = (problem 400, s)
handle_create_account base valid (some req) s =
    let created = create_account (new_account base (length (get_accounts s)) req) s in
    if is_blank (trim_space req.username)
    then (problem 400, s)
    else if not (valid req.username req.password req.session_cookies)
    then (problem 400, s)
    else account_created created s

-- parseID
abbrev pub parse_id : String → Option ℤ
parse_id id = if str_eq id "" then none else atoi id

-- The row with an ID; no row has a negative one.
abbrev pub account_at : ℤ → ConfigStore → Option Account
account_at (pos id) s = get_account id s
account_at (negsuc id) s = none

abbrev pub or_old : Bytes → Bytes → Bytes
or_old old new = if is_blank new then old else new

-- The fields that are there replace the old ones; the username without the spaces round it.
abbrev pub changed : AccountRequest → Account → Account
changed req a = record a {
  username = if is_blank req.username then a.username else trim_space req.username;
  password = or_old a.password req.password;
  session_cookies = or_old a.session_cookies req.session_cookies;
  enabled = or_enabled a.enabled req.enabled;
}

abbrev pub account_updated : Account → Option ConfigStore → ConfigStore → Answer × ConfigStore
account_updated a none s = (problem 500, s)
account_updated a (some s') s = (account 200 a, s')

abbrev pub update_found : AccountRequest → Option Account → ConfigStore → Answer × ConfigStore
update_found req none s = (problem 404, s)
update_found req (some a) s = account_updated (changed req a) (update_account (changed req a) s) s

-- handleUpdateAccount
unfoldable pub handle_update_account :
    Option ℤ → Option AccountRequest → ConfigStore → Answer × ConfigStore
handle_update_account none body s = (problem 400, s)
handle_update_account (some id) none s = (problem 400, s)
handle_update_account (some id) (some req) s = update_found req (account_at id s) s

-- handleDeleteAccount
unfoldable pub handle_delete_account : Option ℤ → ConfigStore → Answer × ConfigStore
handle_delete_account none s = (problem 400, s)
handle_delete_account (some (pos id)) s = (deleted, delete_account id s)
handle_delete_account (some (negsuc id)) s = (deleted, s)

-- What the address joins the pool as, and the row that is taken back where it does not.
abbrev pub checked_proxy :
    ProxyConfig → ConfigStore → Option Proxy × PoolManager → Answer × ConfigStore × PoolManager
checked_proxy row s (none, pm) = (problem 400, delete_proxy row.id s, pm)
checked_proxy row s (some p, pm) = (proxy 201 row, s, pm)

abbrev pub proxy_created :
    (String → Option String)
    → ℕ
    → Option (ProxyConfig × ConfigStore)
    → ConfigStore
    → PoolManager
    → Answer × ConfigStore × PoolManager
proxy_created probe now none s pm = (problem 409, s, pm)
proxy_created probe now (some (row, s')) s pm =
    checked_proxy row s' (add_external_proxy probe now row.address pm)

-- handleCreateProxy; `probe` is what the IP service says through an address
unfoldable pub handle_create_proxy :
    (String → Option String)
    → ℕ
    → Option String
    → ConfigStore
    → PoolManager
    → Answer × ConfigStore × PoolManager
unfolding text_trim_space
handle_create_proxy probe now none s pm = (problem 400, s, pm)
handle_create_proxy probe now (some address) s pm =
    let trimmed = text_trim_space address in
    let row : ProxyConfig = record { id = 0; address = trimmed; enabled = true } in
    if str_eq trimmed ""
    then (problem 400, s, pm)
    else proxy_created probe now (create_proxy_row row s) s pm

-- handleDeleteProxy: the pool keeps the proxy
unfoldable pub handle_delete_proxy : Option ℤ → ConfigStore → Answer × ConfigStore
handle_delete_proxy none s = (problem 400, s)
handle_delete_proxy (some (pos id)) s = (deleted, delete_proxy id s)
handle_delete_proxy (some (negsuc id)) s = (deleted, s)

-- The addresses of the proxies that are enabled.
unfoldable pub enabled_addrs : List ProxyConfig → List String
enabled_addrs [] = []
enabled_addrs (p ∷ ps) = let rest = enabled_addrs ps in if p.enabled then p.address ∷ rest else rest

unfoldable pub snapshots : List Proxy → List ProxySnapshot
snapshots [] = []
snapshots (p ∷ ps) = snapshot p ∷ snapshots ps

-- handleRefreshPool: the answer, how many creations are started, and the pool
unfoldable pub handle_refresh_pool :
    (String → Option String) → Bool → ℕ → ConfigStore → PoolManager → Answer × ℕ × PoolManager
unfolding enabled_addrs refresh_pool snapshots
handle_refresh_pool probe has_mgr now s pm =
    let r = refresh_pool probe has_mgr now (enabled_addrs (get_proxies s)) pm in
    (refreshed r.0 (stats r.2) (snapshots (values r.2.pool)), r.1, r.2)
