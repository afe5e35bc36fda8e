-- ===== src/Config/Examples.antt =====
-- The theorems on the configuration at the default one, and at one without accounts.
use opencode_multi_agents.Prelude.{refl, ◌*◌, ◌≡◌, none, true, [], ◌∷◌}
use opencode_multi_agents.Prelude.Bytes.{same_bytes}
use opencode_multi_agents.Prelude.Map.{insert}
use opencode_multi_agents.Config.Table.{insert_row}
use opencode_multi_agents.Config.Store.{ConfigStore, Seed, new_config_store, seed_from_config}
use opencode_multi_agents.Config.Store.Seeds.{seed_from_config_again}
use opencode_multi_agents.Prelude.Int.{pos}
use opencode_multi_agents.Config.Validate.{Config, second, minute}

abbrev pub defaults : Config
defaults = record {
  upstream_base_url = "https://opencode.ai/zen/v1";
  proxy_pool_size = pos 3;
  proxy_base_port = pos 10800;
  max_retries = pos 3;
  max_concurrent = pos 100;
  request_timeout = pos (120 * second);
  health_check_period = pos (30 * second);
  cooldown_duration = pos (5 * minute);
  ip_ban_duration = pos (5 * minute);
  rate_limit_fresh_ip_wait = pos (60 * second);
  retry_base_delay = pos second;
  retry_max_delay = pos (30 * second);
  upstream_provider = "";
  log_level = "info";
  log_format = "";
}

abbrev only_proxies : Seed
only_proxies = record {
  accounts = [];
  socks5_addrs = "socks5://a:1" ∷ "socks5://b:1" ∷ [];
  store_path = [];
  session_cookies = [];
  settings = ("pool_size", "3") ∷ [];
}

abbrev after_start : ConfigStore
after_start = record {
  accounts = record { rows = []; last = 0 };
  proxies = record {
    rows =
        record { id = 1; address = "socks5://a:1"; enabled = true }
        ∷ record { id = 2; address = "socks5://b:1"; enabled = true }
        ∷ [];
    last = 2;
  };
  settings = ("pool_size", "3") ∷ [];
}

seed_from_config_again_example : seed_from_config only_proxies after_start ≡ none
unfolding seed_from_config insert_row same_bytes insert
seed_from_config_again_example =
    seed_from_config_again only_proxies new_config_store after_start "socks5://a:1"
      ("socks5://b:1" ∷ []) refl refl refl
