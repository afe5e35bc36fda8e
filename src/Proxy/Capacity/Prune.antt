-- ===== src/Proxy/Capacity/Prune.antt =====
-- pruneDeadProxies: what it removes, and what it keeps.
use opencode_multi_agents.Prelude.{
  ℕ, zero, suc, ◌+◌, ◌-◌, ◌≤◌, ◌<◌, String, ◌≡◌, refl, Bool, true, false, ◌||◌, List, [], ◌∷◌, none,
  some, arith, Option-cases, Bool-cases, ◌⊎◌, inl, inr, eq_iff, str_eq, if◌then◌else◌, length, take,
  length-take,
}
use opencode_multi_agents.Prelude.Map.{Map, values, lookup, delete, lookup-delete}
use opencode_multi_agents.Proxy.Types.{Proxy, dead_state}
use opencode_multi_agents.Proxy.Pool.{PoolManager}
use opencode_multi_agents.Proxy.Index.{Indexed, delete-Indexed}
use opencode_multi_agents.Proxy.Capacity.{
  dead_ids, prune_list, remove_proxy, remove_all, prune_dead_proxies,
}

abbrev pub member : String → List String → Bool
member j [] = false
member j (id ∷ ids) = str_eq id j || member j ids

-- RemoveProxy on the map alone.
pool-remove_proxy :
    (id : String) (pm : PoolManager) → Indexed pm.pool → Indexed (remove_proxy id pm).1.pool
unfolding remove_proxy
pool-remove_proxy id pm h = ground (arith, delete-Indexed id pm.pool h)

lookup-remove_proxy :
    (id j : String) (pm : PoolManager)
    → lookup j (remove_proxy id pm).1.pool ≡ (if str_eq id j then none else lookup j pm.pool)
unfolding remove_proxy
lookup-remove_proxy id j pm = ground (arith, lookup-delete id j pm.pool, eq_iff id j)

pub lookup-remove_all :
    (ids : List String) (j : String) (pm : PoolManager)
    → lookup j (remove_all ids pm).pool ≡ (if member j ids then none else lookup j pm.pool)
unfolding remove_all
lookup-remove_all [] j pm = refl
lookup-remove_all (id ∷ ids) j pm =
    ground (arith, lookup-remove_all ids j (remove_proxy id pm).1, lookup-remove_proxy id j pm)

absent_id :
    (j : String) (m : Map Proxy)
    → Indexed m
    → lookup j m ≡ none
    → member j (dead_ids (values m)) ≡ false
unfolding lookup dead_ids
absent_id j [] h e = refl
absent_id j ((k, q) ∷ m) h e = ground (arith, absent_id j m h.2, eq_iff k j, eq_iff q.id j)

member-dead_ids :
    (j : String) (m : Map Proxy) (p : Proxy)
    → Indexed m
    → lookup j m ≡ some p
    → member j (dead_ids (values m)) ≡ dead_state p.state
unfolding lookup dead_ids
member-dead_ids j [] p h e = cc
member-dead_ids j ((k, q) ∷ m) p h e = ground (
  arith,
  member-dead_ids j m p h.2,
  absent_id k m h.2 h.1,
  absent_id j m h.2,
  eq_iff k j,
  eq_iff q.id j,
)

member-take :
    (j : String) (n : ℕ) (ids : List String) → member j ids ≡ false → member j (take n ids) ≡ false
member-take j zero ids h = refl
member-take j (suc n) [] h = refl
member-take j (suc n) (id ∷ ids) h = ground (arith, member-take j n ids)

prune_list-live :
    (j : String) (pm : PoolManager) (p : Proxy)
    → Indexed pm.pool
    → lookup j pm.pool ≡ some p
    → dead_state p.state ≡ false
    → member j (prune_list pm) ≡ false
unfolding prune_list
prune_list-live j pm p h e live = ground (
  arith,
  member-dead_ids j pm.pool p h e,
  member-take j (length pm.pool - pm.cfg.proxy_pool_size) (dead_ids (values pm.pool)),
)

-- Pruning never removes an idle or active proxy, nor changes it.
pub prune_dead_proxies-keeps :
    (j : String) (pm : PoolManager) (p : Proxy)
    → Indexed pm.pool
    → lookup j pm.pool ≡ some p
    → dead_state p.state ≡ false
    → lookup j (prune_dead_proxies pm).pool ≡ some p
unfolding prune_dead_proxies
prune_dead_proxies-keeps j pm p h e live =
    ground (arith, lookup-remove_all (prune_list pm) j pm, prune_list-live j pm p h e live)

-- An entry is as it was, or it was in cooldown or unhealthy and is gone.
abbrev pub Pruned : String → PoolManager → PoolManager → Type 0
Pruned id pm after =
    (lookup id after.pool ≡ lookup id pm.pool)
    ⊎ ((lookup id after.pool ≡ none)
        × ((p : Proxy) × (lookup id pm.pool ≡ some p) × (dead_state p.state ≡ true)))

-- Pruning only ends entries that are in cooldown or unhealthy.
pub prune_dead_proxies-Pruned :
    (id : String) (pm : PoolManager) → Indexed pm.pool → Pruned id pm (prune_dead_proxies pm)
unfolding prune_dead_proxies
prune_dead_proxies-Pruned id pm h =
    let after = lookup-remove_all (prune_list pm) id pm in
    elim (Option-cases (lookup id pm.pool)) [
      | inl e ↦ inl (ground (arith, after, e))
      | inr (p, e) ↦ elim (Bool-cases (dead_state p.state)) [
        | inr live ↦ inl (ground (arith, after, prune_list-live id pm p h e live))
        | inl dead ↦ elim (Bool-cases (member id (prune_list pm))) [
          | inl m ↦ inr (ground (arith, after, m), (p, e, dead))
          | inr m ↦ inl (ground (arith, after, m))
        ]
      ]
    ]

length-delete-none :
    (k : String) (m : Map Proxy) → lookup k m ≡ none → length (delete k m) ≡ length m
unfolding lookup delete
length-delete-none k [] h = refl
length-delete-none k ((j, q) ∷ m) h = ground (arith, length-delete-none k m)

length-delete : (k : String) (m : Map Proxy) → Indexed m → length m ≤ length (delete k m) + 1
unfolding delete
length-delete k [] h = omega arith
length-delete k ((j, q) ∷ m) h =
    ground (arith, length-delete k m h.2, length-delete-none j m h.1, eq_iff j k)

length-remove_proxy :
    (id : String) (pm : PoolManager)
    → Indexed pm.pool
    → length pm.pool ≤ length (remove_proxy id pm).1.pool + 1
unfolding remove_proxy
length-remove_proxy id pm h = ground (arith, length-delete id pm.pool h)

length-remove_all :
    (ids : List String) (pm : PoolManager)
    → Indexed pm.pool
    → length pm.pool ≤ length (remove_all ids pm).pool + length ids
unfolding remove_all
length-remove_all [] pm h = omega arith
length-remove_all (id ∷ ids) pm h = omega (
  arith,
  length-remove_proxy id pm h,
  length-remove_all ids (remove_proxy id pm).1 (pool-remove_proxy id pm h),
)

length-prune_list :
    (pm : PoolManager)
    → pm.cfg.proxy_pool_size < length pm.pool
    → length (prune_list pm) ≤ length pm.pool - pm.cfg.proxy_pool_size
unfolding prune_list
length-prune_list pm h =
    ground
      (arith, length-take (length pm.pool - pm.cfg.proxy_pool_size) (dead_ids (values pm.pool)))

-- A pool that is larger than its configured size is not pruned below that size.
pub prune_dead_proxies-size :
    (pm : PoolManager)
    → Indexed pm.pool
    → pm.cfg.proxy_pool_size < length pm.pool
    → pm.cfg.proxy_pool_size ≤ length (prune_dead_proxies pm).pool
unfolding prune_dead_proxies
prune_dead_proxies-size pm h larger =
    omega (arith, length-prune_list pm larger, length-remove_all (prune_list pm) pm h)

-- A pool that is at its configured size or below loses every dead proxy: the bound by the pool
-- size does not apply there, and the pool shrinks further below it.
pub prune_dead_proxies-shrinks :
    (j : String) (pm : PoolManager) (p : Proxy)
    → Indexed pm.pool
    → length pm.pool ≤ pm.cfg.proxy_pool_size
    → lookup j pm.pool ≡ some p
    → dead_state p.state ≡ true
    → lookup j (prune_dead_proxies pm).pool ≡ none
unfolding prune_dead_proxies prune_list
prune_dead_proxies-shrinks j pm p h small e dead =
    ground
      (arith, lookup-remove_all (dead_ids (values pm.pool)) j pm, member-dead_ids j pm.pool p h e)
