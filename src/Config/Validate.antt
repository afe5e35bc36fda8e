-- ===== src/Config/Validate.antt =====
-- internal/config/config.go: Validate, ParseProtonVPNAccounts and ParseSOCKS5Addrs. Only the fields
-- that these read are there; durations are in nanoseconds.
pub mod Bounds
use opencode_multi_agents.Prelude.{
  ℕ, ◌+◌, ◌*◌, ◌^◌, String, Bool, true, false, ◌&&◌, ◌||◌, not, Option, none, some, List, [], ◌∷◌,
  ltb, str_eq, if◌then◌else◌,
}
use opencode_multi_agents.Prelude.Int.{ℤ, pos, ltb_ℤ}
use opencode_multi_agents.Prelude.Bytes.{Bytes, is_blank, trim_space, split_at, cut_at}

pub record Config : Type 0 where
  pub upstream_base_url : String
  pub proxy_pool_size : ℤ
  pub proxy_base_port : ℤ
  pub max_retries : ℤ
  pub max_concurrent : ℤ
  pub request_timeout : ℤ
  pub health_check_period : ℤ
  pub cooldown_duration : ℤ
  pub ip_ban_duration : ℤ
  pub rate_limit_fresh_ip_wait : ℤ
  pub retry_base_delay : ℤ
  pub retry_max_delay : ℤ
  pub upstream_provider : String
  pub log_level : String
  pub log_format : String

abbrev pub second : ℕ
second = 10 ^ 9

abbrev pub minute : ℕ
minute = 60 * second

-- Outside of the two bounds.
abbrev pub outside : ℕ → ℕ → ℤ → Bool
outside low high n = ltb_ℤ n (pos low) || ltb_ℤ (pos high) n

abbrev pub below : ℕ → ℤ → Bool
below low n = ltb_ℤ n (pos low)

-- The checks of numbers, up to the first that fails; its message is its variable here.
unfoldable pub check_numbers : Config → Option String
check_numbers c =
    if str_eq c.upstream_base_url ""
    then some "UPSTREAM_BASE_URL"
    else if outside 1 20 c.proxy_pool_size
    then some "PROXY_POOL_SIZE"
    else if outside 1024 65535 c.proxy_base_port
    then some "PROXY_BASE_PORT"
    else if outside 0 10 c.max_retries
    then some "MAX_RETRIES"
    else if outside 1 10000 c.max_concurrent
    then some "MAX_CONCURRENT"
    else if below second c.request_timeout
    then some "REQUEST_TIMEOUT"
    else if below (5 * second) c.health_check_period
    then some "HEALTH_CHECK_PERIOD"
    else if below minute c.cooldown_duration
    then some "RATE_LIMIT_COOLDOWN"
    else if below minute c.ip_ban_duration
    then some "IP_BAN_DURATION"
    else if below (10 * second) c.rate_limit_fresh_ip_wait
    then some "RATE_LIMIT_FRESH_IP_WAIT"
    else if ltb_ℤ c.retry_max_delay c.retry_base_delay
    then some "RETRY_BASE_DELAY"
    else none

abbrev pub one_of : List String → String → Bool
one_of [] s = false
one_of (t ∷ ts) s = str_eq s t || one_of ts s

-- A choice: itself, the default where it is empty, or an error.
unfoldable pub chosen : List String → String → String → Option String
chosen choices default s =
    if one_of choices s then some s else if str_eq s "" then some default else none

abbrev pub providers : List String
providers = "zen" ∷ "opencode" ∷ "opencode-cli" ∷ []

abbrev pub levels : List String
levels = "debug" ∷ "info" ∷ "warn" ∷ "error" ∷ []

abbrev pub formats : List String
formats = "json" ∷ "console" ∷ []

-- With the choices that were found, in their order; without one, what was set before stays set.
abbrev pub with_format : Option String → Config → Option String × Config
with_format none c = (some "LOG_FORMAT", c)
with_format (some format) c = (none, record c { log_format = format })

abbrev pub with_level : Option String → Option String → Config → Option String × Config
with_level none format c = (some "LOG_LEVEL", c)
with_level (some level) format c = with_format format (record c { log_level = level })

abbrev pub with_provider :
    Option String → Option String → Option String → Config → Option String × Config
with_provider none level format c = (some "UPSTREAM_PROVIDER", c)
with_provider (some provider) level format c =
    with_level level format (record c { upstream_provider = provider })

abbrev pub choices_after : Option String → Config → Option String × Config
choices_after (some err) c = (some err, c)
choices_after none c =
    with_provider (chosen providers "zen" c.upstream_provider) (chosen levels "info" c.log_level)
      (chosen formats "json" c.log_format) c

-- Validate: the error, and the configuration with its defaults
unfoldable pub validate : Config → Option String × Config
unfolding check_numbers chosen
validate c = choices_after (check_numbers c) c

pub record ProtonVpnAccount : Type 0 where
  pub username : Bytes
  pub password : Bytes

abbrev pub account_after : Option (Bytes × Bytes) → List ProtonVpnAccount → List ProtonVpnAccount
account_after none accounts = accounts
account_after (some (username, password)) accounts =
    record { username = trim_space username; password = trim_space password } ∷ accounts

unfoldable pub accounts_of : List Bytes → List ProtonVpnAccount
unfolding cut_at trim_space
accounts_of [] = []
accounts_of (pair ∷ pairs) = account_after (cut_at b':' (trim_space pair)) (accounts_of pairs)

abbrev pub or_single : Bytes → Bytes → List ProtonVpnAccount → List ProtonVpnAccount
or_single username password (a ∷ accounts) = a ∷ accounts
or_single username password [] =
    if is_blank username then [] else record { username = username; password = password } ∷ []

-- ParseProtonVPNAccounts, of the three variables
unfoldable pub parse_proton_vpn_accounts : Bytes → Bytes → Bytes → List ProtonVpnAccount
unfolding accounts_of split_at
parse_proton_vpn_accounts accounts username password =
    or_single username password (accounts_of (split_at b',' accounts))

unfoldable pub addrs_of : List Bytes → List Bytes
unfolding trim_space
addrs_of [] = []
addrs_of (addr ∷ addrs) =
    let rest = addrs_of addrs in
    let trimmed = trim_space addr in if is_blank trimmed then rest else trimmed ∷ rest

-- ParseSOCKS5Addrs
unfoldable pub parse_socks5_addrs : Bytes → List Bytes
unfolding addrs_of split_at
parse_socks5_addrs addrs = addrs_of (split_at b',' addrs)
