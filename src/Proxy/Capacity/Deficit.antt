-- ===== src/Proxy/Capacity/Deficit.antt =====
-- ensurePoolCapacity: the number of containers that it starts.
use opencode_multi_agents.Prelude.{
  ℕ, zero, suc, ◌+◌, ◌-◌, String, ◌≡◌, refl, ◌∙◌, Bool, not, ◌&&◌, List, [], ◌∷◌, arith, tally, max,
}
use opencode_multi_agents.Prelude.Map.{Map, values}
use opencode_multi_agents.Proxy.Types.{Proxy, is_healthy}
use opencode_multi_agents.Proxy.Bans.{is_banned, ip_banned_locked-verdict, ip_banned_locked-keeps}
use opencode_multi_agents.Proxy.Pool.{PoolManager}
use opencode_multi_agents.Proxy.Capacity.{
  usable, usable_count_locked, ensure_pool_capacity, spawn_done,
}

-- A proxy that serves: healthy, and its egress IP not banned.
abbrev pub serves : ℕ → Map ℕ → Proxy → Bool
serves now bans pr = is_healthy pr && not (is_banned now pr.egress_ip bans)

usable-serves : (now : ℕ) (pr : Proxy) (bans : Map ℕ) → (usable now pr bans).0 ≡ serves now bans pr
unfolding usable
usable-serves now pr bans = ground (arith, ip_banned_locked-verdict pr.egress_ip now bans)

usable-keeps :
    (now : ℕ) (pr : Proxy) (bans : Map ℕ) (j : String)
    → is_banned now j (usable now pr bans).1 ≡ is_banned now j bans
unfolding usable
usable-keeps now pr bans j = ground (arith, ip_banned_locked-keeps pr.egress_ip now bans j)

tally-same :
    (now : ℕ) (b c : Map ℕ) (ps : List Proxy)
    → ((j : String) → is_banned now j b ≡ is_banned now j c)
    → tally (serves now b) ps ≡ tally (serves now c) ps
tally-same now b c [] same = refl
tally-same now b c (p ∷ ps) same = rw (same p.egress_ip, tally-same now b c ps same)

usable_count_locked-keeps :
    (now : ℕ) (ps : List Proxy) (bans : Map ℕ) (j : String)
    → is_banned now j (usable_count_locked now ps bans).1 ≡ is_banned now j bans
unfolding usable_count_locked
usable_count_locked-keeps now [] bans j = refl
usable_count_locked-keeps now (p ∷ ps) bans j =
    usable_count_locked-keeps now ps (usable now p bans).1 j ∙ usable-keeps now p bans j

usable_count_locked-tally :
    (now : ℕ) (ps : List Proxy) (bans : Map ℕ)
    → (usable_count_locked now ps bans).0 ≡ tally (serves now bans) ps
unfolding usable_count_locked
usable_count_locked-tally now [] bans = refl
usable_count_locked-tally now (p ∷ ps) bans = rw (
  usable-serves now p bans,
  usable_count_locked-tally now ps (usable now p bans).1,
  tally-same now (usable now p bans).1 bans ps (usable-keeps now p bans),
)

-- How many proxies of the pool serve.
abbrev pub serving : ℕ → PoolManager → ℕ
serving now pm = tally (serves now pm.ip_bans) (values pm.pool)

-- After ensurePoolCapacity the serving proxies and the containers on their way make up exactly
-- the pool size, or stay what they were if that was more; the counter grows by what is started.
pub ensure_pool_capacity-exact :
    (now : ℕ) (pm : PoolManager)
    → let r = ensure_pool_capacity now pm in
      (serving now pm + r.1.spawning ≡ max pm.cfg.proxy_pool_size (serving now pm + pm.spawning))
      × (r.1.spawning ≡ pm.spawning + r.0)
unfolding ensure_pool_capacity
ensure_pool_capacity-exact now pm =
    (omega (arith, usable_count_locked-tally now (values pm.pool) pm.ip_bans), refl)

serving-ensure :
    (now : ℕ) (pm : PoolManager) → serving now (ensure_pool_capacity now pm).1 ≡ serving now pm
unfolding ensure_pool_capacity
serving-ensure now pm =
    tally-same now _ pm.ip_bans (values pm.pool)
      (usable_count_locked-keeps now (values pm.pool) pm.ip_bans)

size-ensure :
    (now : ℕ) (pm : PoolManager)
    → (ensure_pool_capacity now pm).1.cfg.proxy_pool_size ≡ pm.cfg.proxy_pool_size
unfolding ensure_pool_capacity
size-ensure now pm = refl

-- A second trigger at the same time, before any container has come up, starts nothing.
pub ensure_pool_capacity_twice :
    (now : ℕ) (pm : PoolManager) → (ensure_pool_capacity now (ensure_pool_capacity now pm).1).0 ≡ 0
ensure_pool_capacity_twice now pm =
    let once = ensure_pool_capacity-exact now pm in
    let twice = ensure_pool_capacity-exact now (ensure_pool_capacity now pm).1 in
    omega (arith, once.0, twice.0, twice.1, serving-ensure now pm, size-ensure now pm)

spawn_done-spawning : (pm : PoolManager) → (spawn_done pm).spawning ≡ pm.spawning - 1
unfolding spawn_done
spawn_done-spawning pm = ground arith

-- k goroutines that end.
abbrev pub spawn_dones : ℕ → PoolManager → PoolManager
spawn_dones zero pm = pm
spawn_dones (suc k) pm = spawn_dones k (spawn_done pm)

spawn_dones-spawning : (k : ℕ) (pm : PoolManager) → (spawn_dones k pm).spawning ≡ pm.spawning - k
spawn_dones-spawning zero pm = omega arith
spawn_dones-spawning (suc k) pm =
    omega (arith, spawn_dones-spawning k (spawn_done pm), spawn_done-spawning pm)

-- Once every creation that a trigger started has ended, well or badly, the counter is back where
-- it was.
pub spawn_done-ensure :
    (now : ℕ) (pm : PoolManager)
    → let r = ensure_pool_capacity now pm in (spawn_dones r.0 r.1).spawning ≡ pm.spawning
spawn_done-ensure now pm = omega (
  arith,
  spawn_dones-spawning (ensure_pool_capacity now pm).0 (ensure_pool_capacity now pm).1,
  (ensure_pool_capacity-exact now pm).1,
)
