-- ===== src/Proxy/Create.antt =====
-- internal/proxy/pool.go: rotateUntilUniqueIP, createProxy and the choices of ForceRotate, with
-- no other goroutine in between. The clock is a function of the attempts that are left.
pub mod Rotation
use opencode_multi_agents.Prelude.{
  ℕ, zero, suc, ◌+◌, ◌-◌, String, Bool, true, false, Option, none, some, List, [], ◌∷◌, ltb, leb,
  if◌then◌else◌, length,
}
use opencode_multi_agents.Prelude.Map.{Map, lookup, insert, delete, values}
use opencode_multi_agents.Proxy.Types.{Proxy, idle_state, set_manager}
use opencode_multi_agents.Proxy.Bans.{banned_regions}
use opencode_multi_agents.Proxy.Pool.{PoolManager, signal, duplicate_ip_locked, used_servers_avoid}
use opencode_multi_agents.Proxy.Manager.{Manager}

-- `pm.pool[proxy.ID] = proxy`
abbrev pub put_proxy : Proxy → PoolManager → PoolManager
put_proxy p pm = record pm { pool = insert p.id p pm.pool }

abbrev pub drop_proxy : Proxy → PoolManager → PoolManager
drop_proxy p pm = record pm { pool = delete p.id pm.pool }

-- `attempts`, at least 1, less the one that is made first
abbrev pub rotations : PoolManager → ℕ
rotations pm = pm.cfg.proxy_ip_rotate_attempts - 1

module _ (m : Manager) where
  open m use {World, create_ex, remove}

  -- bannedRegions and usedServersAvoid, and the creation that is told of them.
  pub create_avoiding : ℕ → PoolManager → World → Option Proxy × PoolManager × World
  create_avoiding now pm w =
      let (banned, bans) = banned_regions now pm.region_bans pm.region_bans in
      let (p, w') = create_ex banned (used_servers_avoid (values pm.pool)) w in
      (p, record pm { region_bans = bans }, w')

  -- What the loop does on a duplicate, when it may still rotate.
  pub rotate_next :
      (Proxy → PoolManager → World → Option Proxy × PoolManager × World)
      → Option Proxy × PoolManager × World
      → Option Proxy × PoolManager × World
  rotate_next again (none, pm, w) = (none, pm, w)
  rotate_next again (some np, pm, w) = again np pm w

  -- rotateUntilUniqueIP with `n` rotations left
  pub rotate : (ℕ → ℕ) → ℕ → Proxy → PoolManager → World → Option Proxy × PoolManager × World
  unfolding rotate_next
  rotate clock zero p pm w = (some p, put_proxy p pm, w)
  rotate clock (suc n) p pm w =
      let next =
        rotate_next (rotate clock n)
          (create_avoiding (clock n) (drop_proxy p (put_proxy p pm)) (remove p.container_id w)) in
      if duplicate_ip_locked p (values (insert p.id p pm.pool))
      then next
      else (some p, put_proxy p pm, w)

  unfoldable pub rotate_until_unique_ip :
      (ℕ → ℕ) → Proxy → PoolManager → World → Option Proxy × PoolManager × World
  unfolding rotate
  rotate_until_unique_ip clock p pm w = rotate clock (rotations pm) p pm w

  pub data Creation : Type 0 where
    created : Proxy → Creation
    ctx_err : Creation
    creation_failed : Creation

  -- The end of an attempt that has a proxy: the manager is wired, and waiters are signalled.
  finish : Proxy → PoolManager → World → Creation × PoolManager × World
  finish p pm w = (created (set_manager p), signal (put_proxy (set_manager p) pm), w)

  attempt_finish :
      (PoolManager → World → Creation × PoolManager × World)
      → Option Proxy × PoolManager × World
      → Creation × PoolManager × World
  unfolding finish
  attempt_finish retry (none, pm, w) = retry pm w
  attempt_finish retry (some p, pm, w) = finish p pm w

  attempt_rotate :
      (ℕ → ℕ)
      → (PoolManager → World → Creation × PoolManager × World)
      → Option Proxy × PoolManager × World
      → Creation × PoolManager × World
  unfolding attempt_finish
  attempt_rotate clock retry (none, pm, w) = retry pm w
  attempt_rotate clock retry (some p, pm, w) =
      attempt_finish retry (rotate_until_unique_ip clock p pm w)

  -- createProxy with `n` attempts left: `first` is the clock of an attempt, `cancelled` says
  -- whether the context ends in the delay before the last `n` attempts.
  pub create_attempts :
      (ℕ → ℕ) → (ℕ → Bool) → ℕ → PoolManager → World → Creation × PoolManager × World
  unfolding create_avoiding attempt_rotate
  create_attempts clock cancelled zero pm w = (creation_failed, pm, w)
  create_attempts clock cancelled (suc n) pm w =
      let attempt =
        attempt_rotate clock (create_attempts clock cancelled n) (create_avoiding (clock n) pm w) in
      if cancelled (suc n) then (ctx_err, pm, w) else attempt

  -- createProxy: three attempts, with no delay before the first
  unfoldable pub create_proxy :
      (ℕ → ℕ) → (ℕ → Bool) → PoolManager → World → Creation × PoolManager × World
  unfolding create_attempts
  create_proxy clock cancelled pm w =
      attempt_rotate clock (create_attempts clock cancelled 2) (create_avoiding (clock 2) pm w)

-- ForceRotate's victim: the first idle proxy in the order of iteration.
unfoldable pub first_idle : List Proxy → Option Proxy
first_idle [] = none
first_idle (p ∷ ps) = if idle_state p.state then some p else first_idle ps

-- ForceRotate's answer: the proxy created last.
unfoldable pub newest : Option Proxy → List Proxy → Option Proxy
newest best [] = best
newest none (p ∷ ps) = newest (some p) ps
newest (some b) (p ∷ ps) = newest (if ltb b.created_at p.created_at then some p else some b) ps

-- ForceRotate, its first section: at capacity one idle proxy is taken out.
unfoldable pub make_room : PoolManager → Option Proxy × PoolManager
make_room pm =
    if leb pm.cfg.proxy_pool_size (length pm.pool)
    then (elim (first_idle (values pm.pool)) [
      | none ↦ (none, pm)
      | some p ↦ (some p, drop_proxy p pm)
    ])
    else (none, pm)
