-- ===== src/Gateway/Settings/Ranges.antt =====
-- What settings can and cannot do to the configuration in use.
use opencode_multi_agents.Prelude.{ℕ, String, Option, none, some, arith, Bool}
use opencode_multi_agents.Prelude.Int.{ℤ, pos, negsuc, ◌≤ℤ◌}
use opencode_multi_agents.Prelude.Map.{Map, lookup}
use opencode_multi_agents.Prelude.Text.{atoi}
use opencode_multi_agents.Proxy.Pool.{PoolManager}
use opencode_multi_agents.Config.Validate.{Config}
use opencode_multi_agents.Config.Store.{ConfigStore}
use opencode_multi_agents.Gateway.Settings.{
  LiveConfig, at_least, at_least_set, at_most, at_most_set, size_in, new_size, size_set, base_set,
  handle_update_settings,
}

-- The numbers that the settings' own checks look after.
abbrev pub InRange : Config → Type 0
InRange c =
    ((pos 1 ≤ℤ c.proxy_pool_size) × (c.proxy_pool_size ≤ℤ pos 20))
    × ((pos 0 ≤ℤ c.max_retries) × (c.max_retries ≤ℤ pos 10))
    × (pos 1 ≤ℤ c.max_concurrent)

at_least-le : (low : ℕ) (o : Option ℤ) (old : ℤ) → pos low ≤ℤ old → pos low ≤ℤ at_least low o old
at_least-le low none old h = h
at_least-le low (some (pos n)) old h = ground (arith, h)
at_least-le low (some (negsuc n)) old h = h

at_most-le :
    (high : ℕ) (o : Option ℤ) (old : ℤ)
    → (pos 0 ≤ℤ old) × (old ≤ℤ pos high)
    → (pos 0 ≤ℤ at_most high o old) × (at_most high o old ≤ℤ pos high)
at_most-le high none old h = h
at_most-le high (some (pos n)) old h = ground (arith, h)
at_most-le high (some (negsuc n)) old h = h

size-le :
    (o : Option ℤ) (old : ℤ)
    → (pos 1 ≤ℤ old) × (old ≤ℤ pos 20)
    → (pos 1 ≤ℤ size_set (size_in o) old) × (size_set (size_in o) old ≤ℤ pos 20)
size-le none old h = h
size-le (some (pos n)) old h = ground (arith, h)
size-le (some (negsuc n)) old h = h

base_set-InRange :
    (parse_duration : String → Option ℤ) (req : Map String) (c : Config)
    → InRange c
    → InRange (base_set parse_duration req c)
unfolding base_set
base_set-InRange parse_duration req c h = (
  elim (lookup "pool_size" req)
      as (λ o.
        (pos 1 ≤ℤ size_set (new_size o) c.proxy_pool_size)
        × (size_set (new_size o) c.proxy_pool_size ≤ℤ pos 20)) [
          | none ↦ h.0
          | some v ↦ size-le (atoi v) c.proxy_pool_size h.0
        ],
  elim (lookup "max_retries" req)
      as (λ o.
        (pos 0 ≤ℤ at_most_set 10 o c.max_retries) × (at_most_set 10 o c.max_retries ≤ℤ pos 10)) [
          | none ↦ h.1
          | some v ↦ at_most-le 10 (atoi v) c.max_retries h.1
        ],
  elim (lookup "max_concurrent" req) as (λ o. pos 1 ≤ℤ at_least_set 1 o c.max_concurrent) [
    | none ↦ h.2
    | some v ↦ at_least-le 1 (atoi v) c.max_concurrent h.2
  ],
)

-- Whatever is asked for, the size of the pool stays within 1 and 20, the number of retries within 0
-- and 10, and the number of requests at a time at 1 or more, if they were so before.
pub handle_update_settings-InRange :
    (parse_duration : String → Option ℤ) (has_mgr : Bool) (now : ℕ) (body : Option (Map String))
    (c : LiveConfig) (s : ConfigStore) (pm : PoolManager)
    → InRange c.base
    → InRange (handle_update_settings parse_duration has_mgr now body c s pm).live_config.base
unfolding handle_update_settings
handle_update_settings-InRange parse_duration has_mgr now none c s pm h = h
handle_update_settings-InRange parse_duration has_mgr now (some req) c s pm h =
    base_set-InRange parse_duration req c.base h
