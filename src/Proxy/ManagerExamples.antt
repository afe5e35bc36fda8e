-- ===== src/Proxy/ManagerExamples.antt =====
-- The theorems on the managers of proxies and on SOCKS5 at concrete values.
use opencode_multi_agents.Prelude.{
  ℕ, zero, suc, ◌+◌, ◌<◌, ◌≡◌, refl, true, false, Option, none, some, [], arith, eq_iff,
}
use opencode_multi_agents.Prelude.Text.{bytes_of}
use opencode_multi_agents.Prelude.Map.{lookup}
use opencode_multi_agents.Proxy.Types.{Proxy, idle}
use opencode_multi_agents.Proxy.Composite.{
  Accounts, CompositeManager, new_composite_manager, create_ex, create_from, remove, exec,
}
use opencode_multi_agents.Proxy.Composite.Owners.{create_ex-remove_unknown}
use opencode_multi_agents.Proxy.Composite.Turns.{creations, create_ex_in_turn}
use opencode_multi_agents.Proxy.Pool.{PoolManager, new_pool_manager}
use opencode_multi_agents.Proxy.Socks5.{Credentials}

abbrev container : ℕ → Proxy
container n = record {
  id = "0123456789ab";
  container_id = "0123456789abcdef";
  socks5_addr = "socks5://127.0.0.1:10000";
  port = 10000 + n;
  state = idle;
  last_used = 0;
  last_check = 1;
  requests_sent = 0;
  error_count = 0;
  created_at = 1;
  egress_ip = "";
  region = "CH";
  server_name = "CH#1";
  server_ip = "185.0.0.1";
  has_manager = false;
}

-- Two accounts; the first one fails.
abbrev two_accounts : Accounts
two_accounts = record {
  World = ℕ;
  count = 2;
  create_ex = λ i regions servers w. (elim i [ zero ↦ none | suc n ↦ some (container n) ], w + 1);
  remove = λ i id w. (true, w);
  health_check = λ i p w. ((some true, p), w);
  exec = λ i id env args w. (some "", w);
}

abbrev fresh : CompositeManager two_accounts
fresh = new_composite_manager two_accounts none 0

create_ex_in_turn_example :
    (n : ℕ) × ((n < 2)
      × (let before = creations two_accounts 5 [] [] n fresh in
          (create_ex two_accounts 5 [] [] before).0
          ≡ (two_accounts.create_ex 1 [] [] before.world).0))
create_ex_in_turn_example = create_ex_in_turn two_accounts 5 [] [] fresh 1 refl (omega arith)

abbrev second : CompositeManager two_accounts
second = record fresh { vpn_idx = 1 }

create_ex-remove_unknown_example :
    let after = (create_ex two_accounts 5 [] [] second).1 in
    (remove two_accounts "0123456789abcdef" after ≡ (false, after))
    × (exec two_accounts "0123456789abcdef" [] [] after ≡ (none, after))
unfolding create_ex create_from lookup
create_ex-remove_unknown_example =
    create_ex-remove_unknown two_accounts 5 [] [] [] [] second (container 0) refl
      (ground (arith, eq_iff "0123456789abcdef" "0123456789ab")) refl

abbrev secret : Option Credentials
secret = some (record { user = bytes_of "u"; password = bytes_of "p" })

abbrev empty_pool : PoolManager
empty_pool = new_pool_manager (record {
  proxy_pool_size = 3;
  cooldown_duration = 300;
  ip_ban_duration = 300;
  sticky_session_ttl = 300;
  proxy_ip_rotate_attempts = 3;
})
