-- ===== src/Gateway/ManageExamples.antt =====
-- The theorems on the management API at concrete calls.
use opencode_multi_agents.Prelude.{String, true, false, none, some, [], ◌∷◌, arith}
use opencode_multi_agents.Prelude.Int.{pos}
use opencode_multi_agents.Prelude.Map.{Map}
use opencode_multi_agents.Proxy.Examples.{two}
use opencode_multi_agents.Config.Store.{new_config_store}
use opencode_multi_agents.Config.Examples.{defaults}
use opencode_multi_agents.Gateway.Manage.{handle_create_proxy}
use opencode_multi_agents.Gateway.Manage.Refused.{Leaves, handle_create_proxy-Leaves}
use opencode_multi_agents.Gateway.Settings.{LiveConfig, handle_update_settings}
use opencode_multi_agents.Gateway.Settings.Ranges.{InRange, handle_update_settings-InRange}

handle_create_proxy-Leaves_example :
    Leaves new_config_store two
      (handle_create_proxy (λ a. none) 5 (some "socks5://a:1") new_config_store two)
handle_create_proxy-Leaves_example =
    handle_create_proxy-Leaves (λ a. none) 5 (some "socks5://a:1") new_config_store two tt

abbrev in_use : LiveConfig
in_use = record {
  base = defaults;
  model_filter = "";
  rate_limit_retry_after = "30";
  sticky_session_ttl = pos 0;
  proton_vpn_regions = "";
  proton_vpn_ip_check_url = "";
  pow_enabled = false;
  web_search_enabled = true;
  web_search_max_results = pos 5;
  web_search_max_rounds = pos 3;
}

-- One number that is taken, and two that are not.
abbrev numbers : Map String
numbers = ("pool_size", "7") ∷ ("max_retries", "11") ∷ ("max_concurrent", "0") ∷ []

handle_update_settings-InRange_example :
    InRange
      (handle_update_settings
        (λ v. none)
        true
        5
        (some numbers)
        in_use
        new_config_store
        two).live_config.base
handle_update_settings-InRange_example =
    handle_update_settings-InRange (λ v. none) true 5 (some numbers) in_use new_config_store two
      (omega arith)
