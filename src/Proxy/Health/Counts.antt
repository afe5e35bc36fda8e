-- ===== src/Proxy/Health/Counts.antt =====
-- Stats: the counts by state.
use opencode_multi_agents.Prelude.{
  ◌+◌, ◌≡◌, ◌∙◌, refl, Bool, true, false, List, [], ◌∷◌, arith, length, tally,
}
use opencode_multi_agents.Prelude.Map.{Map, values}
use opencode_multi_agents.Proxy.Types.{Proxy, ProxyState, is_available}
use opencode_multi_agents.Proxy.Pool.{PoolManager}
use opencode_multi_agents.Proxy.Health.{PoolStats, count_state, count_states, stats, is_cooldown}

length-values {ℓ} : {V : Type ℓ} (m : Map V) → length (values m) ≡ length m
length-values [] = refl
length-values ((k, v) ∷ m) = ground (arith, length-values m)

abbrev active_state : ProxyState → Bool
active_state ProxyState.active = true
active_state _ = false

abbrev unhealthy_state : ProxyState → Bool
unhealthy_state ProxyState.unhealthy = true
unhealthy_state _ = false

abbrev pub in_active : Proxy → Bool
in_active p = active_state p.state

abbrev pub in_unhealthy : Proxy → Bool
in_unhealthy p = unhealthy_state p.state

abbrev pub in_cooldown : Proxy → Bool
in_cooldown p = is_cooldown p.state

-- The counts of a list of proxies, added to counts that are there.
abbrev plus_counts : List Proxy → PoolStats → PoolStats
plus_counts ps s = record s {
  idle = s.idle + tally is_available ps;
  active = s.active + tally in_active ps;
  cooldown = s.cooldown + tally in_cooldown ps;
  unhealthy = s.unhealthy + tally in_unhealthy ps;
}

plus_counts-nil : (s : PoolStats) → s ≡ plus_counts [] s
plus_counts-nil s = ground arith

plus_counts-cons :
    (p : Proxy) (ps : List Proxy) (s : PoolStats)
    → plus_counts ps (count_state p.state s) ≡ plus_counts (p ∷ ps) s
unfolding count_state
plus_counts-cons p ps s = ground arith

count_states-eq : (ps : List Proxy) (s : PoolStats) → count_states ps s ≡ plus_counts ps s
unfolding count_states
count_states-eq [] s = plus_counts-nil s
count_states-eq (p ∷ ps) s = count_states-eq ps (count_state p.state s) ∙ plus_counts-cons p ps s

tally-length :
    (ps : List Proxy)
    → tally is_available ps + tally in_active ps + tally in_cooldown ps + tally in_unhealthy ps
      ≡ length ps
tally-length [] = refl
tally-length (p ∷ ps) = ground (arith, tally-length ps)

-- Stats counts each proxy of the pool under its state, once: the four counts are those of the
-- proxies in that state, and add up to the pool's size.
pub stats_counts :
    (pm : PoolManager)
    → ((stats pm).idle ≡ tally is_available (values pm.pool))
      × ((stats pm).active ≡ tally in_active (values pm.pool))
      × ((stats pm).cooldown ≡ tally in_cooldown (values pm.pool))
      × ((stats pm).unhealthy ≡ tally in_unhealthy (values pm.pool))
      × ((stats pm).total ≡ length pm.pool)
      × ((stats pm).idle + (stats pm).active + (stats pm).cooldown + (stats pm).unhealthy
          ≡ length pm.pool)
unfolding stats
stats_counts pm =
    rw (count_states-eq (values pm.pool) _)
      (omega (arith, tally-length (values pm.pool), length-values pm.pool))
