-- ===== src/Gateway/Settings.antt =====
-- internal/handler/manage.go: handleUpdateSettings. The body is a map of texts, `none` where it is no
-- such JSON. `time.ParseDuration` is a parameter, in nanoseconds. The pool works with the same
-- configuration; of what it reads, its model here changes only the size.
pub mod Ranges
use opencode_multi_agents.Prelude.{
  ℕ, String, Bool, true, false, ◌&&◌, not, Option, none, some, List, [], ◌∷◌, str_eq, leb,
  if◌then◌else◌,
}
use opencode_multi_agents.Prelude.Int.{ℤ, pos, negsuc}
use opencode_multi_agents.Prelude.Map.{Map, lookup}
use opencode_multi_agents.Prelude.Text.{atoi}
use opencode_multi_agents.Proxy.Pool.{PoolManager}
use opencode_multi_agents.Proxy.Capacity.{set_pool_size, top_up}
use opencode_multi_agents.Config.Validate.{Config}
use opencode_multi_agents.Config.Store.{ConfigStore, set_settings}
use opencode_multi_agents.Gateway.Manage.{Answer, problem, settings}

-- The configuration that the handlers read: what Validate checks, and the rest that can be set.
pub record LiveConfig : Type 0 where
  pub base : Config
  pub model_filter : String
  pub rate_limit_retry_after : String
  pub sticky_session_ttl : ℤ
  pub proton_vpn_regions : String
  pub proton_vpn_ip_check_url : String
  pub pow_enabled : Bool
  pub web_search_enabled : Bool
  pub web_search_max_results : ℤ
  pub web_search_max_rounds : ℤ

-- A text that is there and not empty, or the old one.
abbrev pub text_set : Option String → String → String
text_set none old = old
text_set (some v) old = if str_eq v "" then old else v

-- A text that is there, or the old one.
abbrev pub any_set : Option String → String → String
any_set none old = old
any_set (some v) old = v

abbrev pub bool_set : Option String → Bool → Bool
bool_set none old = old
bool_set (some v) old = str_eq v "true"

-- A number from `low` on.
abbrev pub at_least : ℕ → Option ℤ → ℤ → ℤ
at_least low (some (pos n)) old = if leb low n then pos n else old
at_least low _ old = old

abbrev pub at_least_set : ℕ → Option String → ℤ → ℤ
at_least_set low none old = old
at_least_set low (some v) old = at_least low (atoi v) old

-- A number up to `high`.
abbrev pub at_most : ℕ → Option ℤ → ℤ → ℤ
at_most high (some (pos n)) old = if leb n high then pos n else old
at_most high _ old = old

abbrev pub at_most_set : ℕ → Option String → ℤ → ℤ
at_most_set high none old = old
at_most_set high (some v) old = at_most high (atoi v) old

-- A size of the pool.
abbrev pub size_in : Option ℤ → Option ℕ
size_in (some (pos n)) = if leb 1 n && leb n 20 then some n else none
size_in _ = none

abbrev pub new_size : Option String → Option ℕ
new_size none = none
new_size (some v) = size_in (atoi v)

abbrev pub size_set : Option ℕ → ℤ → ℤ
size_set none old = old
size_set (some n) old = pos n

-- SetPoolSize, by whether there is a manager: how many creations are started
abbrev pub resized : Bool → ℕ → Option ℕ → PoolManager → ℕ × PoolManager
resized has_mgr now none pm = (0, pm)
resized has_mgr now (some n) pm = top_up has_mgr now (set_pool_size n pm)

module _ (parse_duration : String → Option ℤ) where
  abbrev pub or_duration : Option ℤ → ℤ → ℤ
  or_duration none old = old
  or_duration (some d) old = d

  abbrev pub duration_set : Option String → ℤ → ℤ
  duration_set none old = old
  duration_set (some v) old = if str_eq v "" then old else or_duration (parse_duration v) old

  -- What the settings do to the fields that Validate checks.
  unfoldable pub base_set : Map String → Config → Config
  base_set req c = record c {
    proxy_pool_size = size_set (new_size (lookup "pool_size" req)) c.proxy_pool_size;
    upstream_base_url = text_set (lookup "upstream_base_url" req) c.upstream_base_url;
    upstream_provider = text_set (lookup "upstream_provider" req) c.upstream_provider;
    log_level = text_set (lookup "log_level" req) c.log_level;
    log_format = text_set (lookup "log_format" req) c.log_format;
    request_timeout = duration_set (lookup "request_timeout" req) c.request_timeout;
    max_retries = at_most_set 10 (lookup "max_retries" req) c.max_retries;
    max_concurrent = at_least_set 1 (lookup "max_concurrent" req) c.max_concurrent;
    cooldown_duration = duration_set (lookup "cooldown_duration" req) c.cooldown_duration;
    ip_ban_duration = duration_set (lookup "ip_ban_duration" req) c.ip_ban_duration;
    rate_limit_fresh_ip_wait =
        duration_set (lookup "rate_limit_fresh_ip_wait" req) c.rate_limit_fresh_ip_wait;
    health_check_period = duration_set (lookup "health_check_period" req) c.health_check_period;
  }

  unfoldable pub live_set : Map String → LiveConfig → LiveConfig
  unfolding base_set
  live_set req c = record c {
    base = base_set req c.base;
    model_filter = any_set (lookup "model_filter" req) c.model_filter;
    rate_limit_retry_after =
        text_set (lookup "rate_limit_retry_after" req) c.rate_limit_retry_after;
    sticky_session_ttl = duration_set (lookup "sticky_session_ttl" req) c.sticky_session_ttl;
    proton_vpn_regions = any_set (lookup "regions" req) c.proton_vpn_regions;
    proton_vpn_ip_check_url = any_set (lookup "ip_check_url" req) c.proton_vpn_ip_check_url;
    pow_enabled = bool_set (lookup "pow_enabled" req) c.pow_enabled;
    web_search_enabled = bool_set (lookup "web_search_enabled" req) c.web_search_enabled;
    web_search_max_results =
        at_least_set 0 (lookup "web_search_max_results" req) c.web_search_max_results;
    web_search_max_rounds =
        at_least_set 0 (lookup "web_search_max_rounds" req) c.web_search_max_rounds;
  }

  pub record Updated : Type 0 where
    pub answer : Answer
    pub live_config : LiveConfig
    pub store : ConfigStore
    pub started : ℕ
    pub pool : PoolManager

  -- handleUpdateSettings
  unfoldable pub handle_update_settings :
      Bool → ℕ → Option (Map String) → LiveConfig → ConfigStore → PoolManager → Updated
  unfolding live_set
  handle_update_settings has_mgr now none c s pm = record {
    answer = problem 400;
    live_config = c;
    store = s;
    started = 0;
    pool = pm;
  }
  handle_update_settings has_mgr now (some req) c s pm =
      let s' = set_settings req s in
      let r = resized has_mgr now (new_size (lookup "pool_size" req)) pm in
      record {
        answer = settings s'.settings;
        live_config = live_set req c;
        store = s';
        started = r.0;
        pool = r.1;
      }
