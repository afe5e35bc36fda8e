-- ===== src/Proxy/HealthExamples.antt =====
-- The theorems on health checks and creation at concrete pools.
use opencode_multi_agents.Prelude.{ℕ, suc, ◌≡◌, refl, true, none, some, if◌then◌else◌, ◌⊎◌, inl}
use opencode_multi_agents.Prelude.Map.{lookup, insert}
use opencode_multi_agents.Proxy.Types.{idle, unhealthy}
use opencode_multi_agents.Proxy.Health.{
  Probe, check_proxy, restore_cooldown_proxies, probed, cooled,
}
use opencode_multi_agents.Proxy.Health.Drift.{IsShared, check_proxy_unique}
use opencode_multi_agents.Proxy.Health.Restore.{restore_cooldown_proxies-over}
use opencode_multi_agents.Proxy.Manager.{Manager, Counted}
use opencode_multi_agents.Proxy.Create.{rotate_until_unique_ip}
use opencode_multi_agents.Proxy.Create.Rotation.{Rotated, rotate_until_unique_ip-Rotated}
use opencode_multi_agents.Proxy.Examples.{
  proxy, idle_a, cool_c, two, three, two-Indexed, three-Indexed,
}

restore_cooldown_proxies-over_example :
    lookup "c" (restore_cooldown_proxies 9 three).pool
    ≡ (if cooled 9 three.cfg.cooldown_duration cool_c then none else some cool_c)
unfolding lookup
restore_cooldown_proxies-over_example =
    restore_cooldown_proxies-over 9 three "c" cool_c three-Indexed refl refl

abbrev probe_a : Probe
probe_a = record { id = "a"; healthy = true; egress_ip = "10.0.0.3" }

check_proxy_unique_example :
    let q = probed 3 probe_a idle_a in
    let others = insert "a" q two.pool in
    let after = lookup "a" (check_proxy 3 probe_a two).1.pool in
    ((after ≡ some q) × (q.state ≡ idle) × (¬ IsShared q others))
    ⊎ ((after ≡ some (record q { state = unhealthy })) × IsShared q others)
unfolding lookup
check_proxy_unique_example =
    check_proxy_unique 3 probe_a two idle_a two-Indexed refl refl (inl refl)

abbrev counter : Manager
counter = record {
  World = ℕ;
  create_ex = λ regions servers n. (some (proxy "n" idle "10.0.0.1"), suc n);
  remove = λ id n. n;
}

abbrev counter_counts : Counted counter
counter_counts = record {
  calls = λ n. n;
  create_counts = λ regions servers n. refl;
  remove_counts = λ id n. refl;
}

rotate_until_unique_ip-Rotated_example :
    Rotated counter counter_counts 2 0 (rotate_until_unique_ip counter (λ n. n) idle_a two 0)
rotate_until_unique_ip-Rotated_example =
    rotate_until_unique_ip-Rotated counter counter_counts (λ n. n) idle_a two 0
