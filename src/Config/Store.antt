-- ===== src/Config/Store.antt =====
-- internal/config/store.go: the database of accounts, external proxies and settings. A statement
-- fails only where a UNIQUE column is taken; the column `created_at` is left out. The texts of an
-- account are lists of bytes.
pub mod Seeds
use opencode_multi_agents.Prelude.{
  ℕ, suc, refl, String, Bool, true, false, Option, none, some, List, [], ◌∷◌, ◌++◌, ◌==◌,
  if◌then◌else◌,
}
use opencode_multi_agents.Prelude.Bytes.{Bytes}
use opencode_multi_agents.Prelude.Text.{bytes_of}
use opencode_multi_agents.Prelude.Map.{Map, insert}
use opencode_multi_agents.Pow.Counter.{format_uint}
use opencode_multi_agents.Config.Validate.{ProtonVpnAccount}
use opencode_multi_agents.Config.Table.{
  Columns, Table, no_rows, with_row, with_table, insert_row, find_row, update_row, delete_row,
}

pub record Account : Type 0 where
  pub id : ℕ
  pub username : Bytes
  pub password : Bytes
  pub store_path : Bytes
  pub session_cookies : Bytes
  pub enabled : Bool

pub record ProxyConfig : Type 0 where
  pub id : ℕ
  pub address : String
  pub enabled : Bool

abbrev pub account_columns : Columns Account
account_columns = record {
  key = λ a. a.id;
  label = λ a. a.username;
  keyed = λ n a. record a { id = n };
  key-keyed = λ n a. refl;
  label-keyed = λ n a. refl;
}

abbrev pub proxy_columns : Columns ProxyConfig
proxy_columns = record {
  key = λ p. p.id;
  label = λ p. bytes_of p.address;
  keyed = λ n p. record p { id = n };
  key-keyed = λ n p. refl;
  label-keyed = λ n p. refl;
}

pub record ConfigStore : Type 0 where
  pub accounts : Table Account
  pub proxies : Table ProxyConfig
  pub settings : Map String

-- migrate, on a new file
abbrev pub new_config_store : ConfigStore
new_config_store = record { accounts = no_rows; proxies = no_rows; settings = [] }

-- GetAccounts
abbrev pub get_accounts : ConfigStore → List Account
get_accounts s = s.accounts.rows

-- GetAccount
abbrev pub get_account : ℕ → ConfigStore → Option Account
get_account id s = find_row account_columns id s.accounts.rows

abbrev pub with_accounts : ConfigStore → Table Account → ConfigStore
with_accounts s t = record s { accounts = t }

abbrev pub with_proxies : ConfigStore → Table ProxyConfig → ConfigStore
with_proxies s t = record s { proxies = t }

-- CreateAccount: the account with its ID; `none` where the username is taken
unfoldable pub create_account : Account → ConfigStore → Option (Account × ConfigStore)
create_account a s = with_row (with_accounts s) (insert_row account_columns a s.accounts)

-- UpdateAccount; `none` where another account has the username
unfoldable pub update_account : Account → ConfigStore → Option ConfigStore
update_account a s = with_table (with_accounts s) (update_row account_columns a s.accounts)

-- DeleteAccount
unfoldable pub delete_account : ℕ → ConfigStore → ConfigStore
delete_account id s = with_accounts s (delete_row account_columns id s.accounts)

-- GetProxies
abbrev pub get_proxies : ConfigStore → List ProxyConfig
get_proxies s = s.proxies.rows

-- CreateProxy: the proxy with its ID; `none` where the address is taken
unfoldable pub create_proxy_row : ProxyConfig → ConfigStore → Option (ProxyConfig × ConfigStore)
create_proxy_row p s = with_row (with_proxies s) (insert_row proxy_columns p s.proxies)

-- UpdateProxy; `none` where another proxy has the address
unfoldable pub update_proxy : ProxyConfig → ConfigStore → Option ConfigStore
update_proxy p s = with_table (with_proxies s) (update_row proxy_columns p s.proxies)

-- DeleteProxy
unfoldable pub delete_proxy : ℕ → ConfigStore → ConfigStore
delete_proxy id s = with_proxies s (delete_row proxy_columns id s.proxies)

-- The loop of SetSettings: each key is replaced or added.
unfoldable pub put_settings : List (String × String) → Map String → Map String
put_settings [] m = m
put_settings ((k, v) ∷ rest) m = put_settings rest (insert k v m)

-- SetSettings
unfoldable pub set_settings : List (String × String) → ConfigStore → ConfigStore
unfolding put_settings
set_settings pairs s = record s { settings = put_settings pairs s.settings }

-- The fields of Config that SeedFromConfig reads: what ParseProtonVPNAccounts and ParseSOCKS5Addrs
-- return, and the settings as they are printed.
pub record Seed : Type 0 where
  pub accounts : List ProtonVpnAccount
  pub socks5_addrs : List String
  pub store_path : Bytes
  pub session_cookies : Bytes
  pub settings : List (String × String)

-- The path of the store of an account, by its place in the list.
abbrev pub seed_path : Bytes → ℕ → Bytes
seed_path base i = if i == 0 then base else base ++ b'_' ∷ format_uint i

unfoldable pub seed_account : Seed → ℕ → ProtonVpnAccount → Account
seed_account cfg i a = record {
  id = 0;
  username = a.username;
  password = a.password;
  store_path = seed_path cfg.store_path i;
  session_cookies = if i == 0 then cfg.session_cookies else [];
  enabled = true;
}

-- The first loop of SeedFromConfig, from the i-th account on.
unfoldable pub seed_accounts :
    Seed → ℕ → List ProtonVpnAccount → Table Account → Option (Table Account)
unfolding seed_account
seed_accounts cfg i [] t = some t
seed_accounts cfg i (a ∷ rest) t = elim (insert_row account_columns (seed_account cfg i a) t) [
  | none ↦ none
  | some r ↦ seed_accounts cfg (suc i) rest r.1
]

abbrev pub seed_proxy : String → ProxyConfig
seed_proxy addr = record { id = 0; address = addr; enabled = true }

-- The second loop.
unfoldable pub seed_proxies : List String → Table ProxyConfig → Option (Table ProxyConfig)
seed_proxies [] t = some t
seed_proxies (addr ∷ addrs) t = elim (insert_row proxy_columns (seed_proxy addr) t) [
  | none ↦ none
  | some r ↦ seed_proxies addrs r.1
]

abbrev pub seeded :
    Seed → ConfigStore → Option (Table Account) → Option (Table ProxyConfig) → Option ConfigStore
seeded cfg s (some accounts) (some proxies) = some (record {
  accounts = accounts;
  proxies = proxies;
  settings = put_settings cfg.settings s.settings;
})
seeded cfg s _ _ = none

abbrev pub no_accounts : List Account → Bool
no_accounts [] = true
no_accounts (_ ∷ _) = false

-- SeedFromConfig; `none` is an error, which rolls the transaction back
unfoldable pub seed_from_config : Seed → ConfigStore → Option ConfigStore
unfolding seed_accounts seed_proxies put_settings
seed_from_config cfg s =
    if no_accounts s.accounts.rows
    then seeded cfg s (seed_accounts cfg 0 cfg.accounts s.accounts)
        (seed_proxies cfg.socks5_addrs s.proxies)
    else some s
