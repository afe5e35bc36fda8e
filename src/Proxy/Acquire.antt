-- ===== src/Proxy/Acquire.antt =====
-- internal/proxy/pool.go, GetProxy and ReleaseProxy. Every function is one section under the
-- lock. Where the source reads the clock twice the two times are arguments.
pub mod Candidates
pub mod Dispatch
use opencode_multi_agents.Prelude.{
  ℕ, suc, ◌+◌, ◌%◌, ◌<◌, String, Bool, true, false, not, ◌&&◌, ◌||◌, Option, none, some, List, [],
  ◌∷◌, ltb, ◌==◌, str_eq, if◌then◌else◌, length, get_elem?,
}
use opencode_multi_agents.Prelude.Map.{Map, lookup, insert, values}
use opencode_multi_agents.Prelude.Text.{str_ltb}
use opencode_multi_agents.Proxy.Types.{Proxy, active, idle, ProxyState, is_available, is_healthy}
use opencode_multi_agents.Proxy.Bans.{ip_banned_locked}
use opencode_multi_agents.Proxy.Pool.{PoolManager, with_entry, signal}

-- `proxy.IsAvailable() && !pm.ipBannedLocked(proxy.EgressIP, now)`, with the map it leaves
pub admissible : ℕ → Proxy → Map ℕ → Bool × Map ℕ
admissible now p bans =
    if is_available p
    then (let (banned, bans') = ip_banned_locked p.egress_ip now bans in (not banned, bans'))
    else (false, bans)

-- The loop that collects the candidates.
pub candidates : ℕ → List Proxy → Map ℕ → List Proxy × Map ℕ
unfolding admissible
candidates now [] bans = ([], bans)
candidates now (p ∷ ps) bans =
    let (fit, bans1) = admissible now p bans in
    let (rest, bans2) = candidates now ps bans1 in (if fit then p ∷ rest else rest, bans2)

-- The order of `sort.Slice`: by creation time, then by ID.
earlier : Proxy → Proxy → Bool
earlier p q =
    if p.created_at == q.created_at then str_ltb p.id q.id else ltb p.created_at q.created_at

pub insert_sorted : Proxy → List Proxy → List Proxy
unfolding earlier
insert_sorted p [] = p ∷ []
insert_sorted p (q ∷ qs) = if earlier q p then q ∷ insert_sorted p qs else p ∷ q ∷ qs

pub sort_candidates : List Proxy → List Proxy
unfolding insert_sorted
sort_candidates [] = []
sort_candidates (p ∷ ps) = insert_sorted p (sort_candidates ps)

-- `candidates[pm.rr%len(candidates)]`, if there is any
pub pick_candidate : ℕ → List Proxy → Option Proxy
unfolding sort_candidates
pick_candidate rr cs = get_elem? (sort_candidates cs) (rr % length cs)

abbrev pub dispatched : ℕ → Proxy → Proxy
dispatched later p = record p {
  state = active;
  last_used = later;
  requests_sent = p.requests_sent + 1;
}

abbrev stick : String → String → Map String → Map String
stick conversation_id id sticky =
    if str_eq conversation_id "" then sticky else insert conversation_id id sticky

pub dispatch : ℕ → String → Option Proxy → PoolManager → Option Proxy × PoolManager
dispatch later conversation_id none pm = (none, pm)
dispatch later conversation_id (some p) pm = (
  some (dispatched later p),
  record pm {
    pool = insert p.id (dispatched later p) pm.pool;
    rr = pm.rr + 1;
    total_requests = pm.total_requests + 1;
    sticky = stick conversation_id p.id pm.sticky;
  },
)

-- One pass of the waiting loop: pick a proxy and mark it active, or find none.
unfoldable pub try_acquire : ℕ → ℕ → String → PoolManager → Option Proxy × PoolManager
unfolding candidates pick_candidate dispatch
try_acquire now later conversation_id pm =
    let (cs, bans) = candidates now (values pm.pool) pm.ip_bans in
    dispatch later conversation_id (pick_candidate pm.rr cs) (record pm { ip_bans = bans })

-- The proxy that the conversation stuck to, if the pool still has it and it is healthy and
-- unbanned. It is returned without being marked active.
sticky_found : ℕ → Option Proxy → PoolManager → Option Proxy × PoolManager
sticky_found now none pm = (none, pm)
sticky_found now (some p) pm =
    if is_healthy p
    then (let (banned, bans) = ip_banned_locked p.egress_ip now pm.ip_bans in
        (if banned then none else some p, record pm { ip_bans = bans }))
    else (none, pm)

sticky_entry : ℕ → Option String → PoolManager → Option Proxy × PoolManager
unfolding sticky_found
sticky_entry now none pm = (none, pm)
sticky_entry now (some id) pm = sticky_found now (lookup id pm.pool) pm

unfoldable pub sticky_proxy : ℕ → String → PoolManager → Option Proxy × PoolManager
unfolding sticky_entry
sticky_proxy now conversation_id pm =
    if not (str_eq conversation_id "") && ltb 0 pm.cfg.sticky_session_ttl
    then sticky_entry now (lookup conversation_id pm.sticky) pm
    else (none, pm)

-- What ends one wait of the `select`: a signal, received in the state that other goroutines have
-- left and followed by a pass at two times; the context's end; or the pool's.
pub data Wait : Type 0 where
  available : PoolManager → ℕ → ℕ → Wait
  ctx_done pool_done : Wait

pub data Acquired : Type 0 where
  got : Proxy → Acquired
  ctx_err err_pool_closed : Acquired
  blocked : Acquired

-- The loop of GetProxy over the waits that end; `blocked` when no further wait has ended yet.
wait_loop : String → List Wait → Option Proxy × PoolManager → Acquired × PoolManager
wait_loop conversation_id waits (some p, pm) = (got p, pm)
wait_loop conversation_id [] (none, pm) = (blocked, pm)
wait_loop conversation_id (ctx_done ∷ rest) (none, pm) = (ctx_err, pm)
wait_loop conversation_id (pool_done ∷ rest) (none, pm) = (err_pool_closed, pm)
wait_loop conversation_id (available pm' now later ∷ rest) (none, pm) =
    wait_loop conversation_id rest
      (try_acquire now later conversation_id (record pm' { available = false }))

after_sticky : ℕ → ℕ → String → List Wait → Option Proxy × PoolManager → Acquired × PoolManager
after_sticky next later conversation_id waits (some p, pm) = (got p, pm)
after_sticky next later conversation_id waits (none, pm) =
    wait_loop conversation_id waits (try_acquire next later conversation_id pm)

-- GetProxy: the sticky proxy at time `now`, else the loop from a first pass at `next` and `later`
unfoldable pub get_proxy : ℕ → ℕ → ℕ → String → List Wait → PoolManager → Acquired × PoolManager
unfolding after_sticky wait_loop
get_proxy now next later conversation_id waits pm =
    after_sticky next later conversation_id waits (sticky_proxy now conversation_id pm)

abbrev pub release_state : ProxyState → ProxyState
release_state active = idle
release_state s = s

-- ReleaseProxy: an active entry becomes idle, any other stays; waiters are signalled.
abbrev released : Proxy → Proxy
released pr = record pr { state = release_state pr.state }

unfoldable pub release_proxy : String → PoolManager → PoolManager
unfolding with_entry
release_proxy id pm = signal (with_entry (lookup id pm.pool) id released pm)
