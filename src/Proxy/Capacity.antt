-- ===== src/Proxy/Capacity.antt =====
-- internal/proxy/pool.go: keeping the pool at its size (ensurePoolCapacity, spawnDone,
-- pruneDeadProxies, RemoveProxy, SetPoolSize), and the reports that lower it (MarkRateLimited,
-- MarkUnhealthy). Removing a container is the manager's; here a removal is the entry's end, and
-- the containers to remove are the result.
pub mod Deficit
pub mod Prune
pub mod RateLimits
use opencode_multi_agents.Prelude.{
  ℕ, suc, ◌+◌, ◌-◌, ◌*◌, ◌%◌, ◌^◌, String, Bool, true, false, not, ◌&&◌, ◌||◌, Option, none, some,
  List, [], ◌∷◌, ltb, leb, ◌==◌, str_eq, if◌then◌else◌, length, take, map,
}
use opencode_multi_agents.Prelude.Map.{Map, lookup, insert, delete, values}
use opencode_multi_agents.Prelude.Text.{atoi}
use opencode_multi_agents.Prelude.Int.{ℤ, pos, negsuc}
use opencode_multi_agents.Proxy.Types.{Proxy, cooldown, unhealthy, idle, is_healthy, dead_state}
use opencode_multi_agents.Proxy.Bans.{ip_banned_locked, ban_ip_locked}
use opencode_multi_agents.Proxy.Pool.{PoolManager, with_entry, signal}

-- `pr.IsHealthy() && !pm.ipBannedLocked(pr.EgressIP, now)`, with the map it leaves
pub usable : ℕ → Proxy → Map ℕ → Bool × Map ℕ
usable now pr bans =
    if is_healthy pr
    then (let (banned, bans') = ip_banned_locked pr.egress_ip now bans in (not banned, bans'))
    else (false, bans)

-- usableCountLocked
pub usable_count_locked : ℕ → List Proxy → Map ℕ → ℕ × Map ℕ
unfolding usable
usable_count_locked now [] bans = (0, bans)
usable_count_locked now (pr ∷ rest) bans =
    let (counts, bans1) = usable now pr bans in
    let (n, bans2) = usable_count_locked now rest bans1 in (if counts then suc n else n, bans2)

-- The containers still to be started: the deficit, less those on their way.
unfoldable pub to_spawn : ℕ → ℕ → ℕ → ℕ
to_spawn size usable spawning = size - usable - spawning

-- ensurePoolCapacity, its section under the lock: how many creations it starts
unfoldable pub ensure_pool_capacity : ℕ → PoolManager → ℕ × PoolManager
unfolding usable_count_locked to_spawn
ensure_pool_capacity now pm =
    let (n, bans) = usable_count_locked now (values pm.pool) pm.ip_bans in
    let k = to_spawn pm.cfg.proxy_pool_size n pm.spawning in
    (k, record pm { ip_bans = bans; spawning = pm.spawning + k })

-- spawnDone
unfoldable pub spawn_done : PoolManager → PoolManager
spawn_done pm = if ltb 0 pm.spawning then record pm { spawning = pm.spawning - 1 } else pm

-- The IDs of the cooldown and unhealthy proxies, in the order of iteration.
pub dead_ids : List Proxy → List String
dead_ids [] = []
dead_ids (pr ∷ rest) = let ids = dead_ids rest in if dead_state pr.state then pr.id ∷ ids else ids

-- pruneDeadProxies, its section under the lock: the IDs to remove
unfoldable pub prune_list : PoolManager → List String
unfolding dead_ids
prune_list pm =
    let ids = dead_ids (values pm.pool) in
    let excess = length pm.pool - pm.cfg.proxy_pool_size in
    if ltb 0 excess && ltb excess (length ids) then take excess ids else ids

-- RemoveProxy, its section under the lock: the container to remove
unfoldable pub remove_proxy : String → PoolManager → Option String × PoolManager
remove_proxy id pm = elim (lookup id pm.pool) [
  | none ↦ (none, pm)
  | some pr ↦ (some pr.container_id, record pm { pool = delete id pm.pool })
]

-- The loop of removals.
unfoldable pub remove_all : List String → PoolManager → PoolManager
unfolding remove_proxy
remove_all [] pm = pm
remove_all (id ∷ ids) pm = remove_all ids (remove_proxy id pm).1

-- pruneDeadProxies, run with no other goroutine in between
unfoldable pub prune_dead_proxies : PoolManager → PoolManager
unfolding prune_list remove_all
prune_dead_proxies pm = remove_all (prune_list pm) pm

-- ensurePoolCapacity as a whole, by whether there is a manager: how many creations it starts. They run
-- in the background, and end with a pruning of their own.
unfoldable pub top_up : Bool → ℕ → PoolManager → ℕ × PoolManager
unfolding ensure_pool_capacity prune_dead_proxies
top_up has_mgr now pm =
    let r = ensure_pool_capacity now pm in
    if r.0 == 0 || not has_mgr then (0, prune_dead_proxies r.1) else r

-- SetPoolSize, up to its call of ensurePoolCapacity
unfoldable pub set_pool_size : ℕ → PoolManager → PoolManager
set_pool_size n pm = record pm { cfg = record pm.cfg { proxy_pool_size = n } }

abbrev pub second : ℕ
second = 1_000_000_000

-- `time.Duration(secs) * time.Second` in 64 bits, if it is longer than `ban_for`
pub longer_ban : ℕ → ℕ → ℕ
longer_ban secs ban_for =
    let d = secs * second % 2 ^ 64 in if ltb d (2 ^ 63) && ltb ban_for d then d else ban_for

-- The ban's length: the configured one, or the Retry-After if that is a longer number of seconds.
pub retry_ban : Option ℤ → ℕ → ℕ
unfolding longer_ban
retry_ban (some (pos secs)) ban_for = if ltb 0 secs then longer_ban secs ban_for else ban_for
retry_ban _ ban_for = ban_for

unfoldable pub ban_for : String → PoolManager → ℕ
unfolding retry_ban
ban_for retry_after pm = retry_ban (atoi retry_after) pm.cfg.ip_ban_duration

abbrev pub rate_limited : ℕ → Proxy → Proxy
rate_limited now pr = record pr {
  state = cooldown;
  last_used = now;
  error_count = pr.error_count + 1;
}

-- `pm.totalErrors.Add(1)` where the entry is there
abbrev count_error : Option Proxy → PoolManager → PoolManager
count_error none pm = pm
count_error (some pr) pm = record pm { total_errors = pm.total_errors + 1 }

-- MarkRateLimited, its section under the lock, for the proxy as the caller holds it. The three
-- readings of the clock are arguments.
unfoldable pub mark_rate_limited : ℕ → ℕ → ℕ → Proxy → String → PoolManager → PoolManager
unfolding ban_for with_entry
mark_rate_limited now now' now'' p retry_after pm =
    let b = ban_for retry_after pm in
    let entry = lookup p.id pm.pool in
    signal (
      count_error entry (
        with_entry entry p.id (rate_limited now'') (record pm {
          ip_bans = ban_ip_locked p.egress_ip (now + b) pm.ip_bans;
          region_bans =
              if str_eq p.region ""
              then pm.region_bans
              else insert p.region (now' + b) pm.region_bans;
        })))

abbrev pub marked_unhealthy : Proxy → Proxy
marked_unhealthy pr = record pr { state = unhealthy; error_count = pr.error_count + 1 }

-- MarkUnhealthy, its section under the lock; a nil proxy is a no-op
unfoldable pub mark_unhealthy : Option String → PoolManager → PoolManager
unfolding with_entry
mark_unhealthy none pm = pm
mark_unhealthy (some id) pm =
    let entry = lookup id pm.pool in count_error entry (with_entry entry id marked_unhealthy pm)
