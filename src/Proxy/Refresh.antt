-- ===== src/Proxy/Refresh.antt =====
-- internal/proxy/pool.go: AddExternalProxy and RefreshPool, and ForceRotate as a whole. `probe` is
-- what the IP service says through an address, if it can be reached.
pub mod Externals
use opencode_multi_agents.Prelude.{
  ℕ, String, Bool, true, false, Option, none, some, List, [], ◌∷◌, str_eq, if◌then◌else◌,
}
use opencode_multi_agents.Prelude.Map.{values}
use opencode_multi_agents.Proxy.Types.{Proxy, set_manager}
use opencode_multi_agents.Proxy.Pool.{PoolManager, signal}
use opencode_multi_agents.Proxy.Capacity.{top_up}
use opencode_multi_agents.Proxy.Manager.{Manager}
use opencode_multi_agents.Proxy.Create.{
  put_proxy, make_room, newest, Creation, created, ctx_err, creation_failed, create_proxy,
}
use opencode_multi_agents.Proxy.External.{
  new_external_proxy_manager, create_external, check_external,
}

-- A proxy that has passed its check joins the pool, and waiters are signalled.
abbrev pub joined : Option Proxy → PoolManager → Option Proxy × PoolManager
joined none pm = (none, pm)
joined (some p) pm = (some (set_manager p), signal (put_proxy (set_manager p) pm))

abbrev pub probed_first : (String → Option String) → Option Proxy → Option Proxy
probed_first probe none = none
probed_first probe (some p) = check_external probe p

-- AddExternalProxy: a manager of its own for each address
unfoldable pub add_external_proxy :
    (String → Option String) → ℕ → String → PoolManager → Option Proxy × PoolManager
unfolding create_external check_external
add_external_proxy probe now addr pm =
    let made = (create_external now (new_external_proxy_manager (addr ∷ []))).0 in
    joined (probed_first probe made) pm

abbrev pub failed_as : String → Option Proxy → List String → List String
failed_as addr none failed = addr ∷ failed
failed_as addr (some p) failed = failed

-- The loop of RefreshPool: the addresses that failed
unfoldable pub add_all :
    (String → Option String) → ℕ → List String → PoolManager → List String × PoolManager
unfolding add_external_proxy
add_all probe now [] pm = ([], pm)
add_all probe now (addr ∷ addrs) pm =
    let skipped = add_all probe now addrs pm in
    let r = add_external_proxy probe now addr pm in
    let rest = add_all probe now addrs r.1 in
    if str_eq addr "" then skipped else (failed_as addr r.0 rest.0, rest.1)

-- RefreshPool, by whether there is a manager: the addresses that failed, how many creations are started, and the pool
unfoldable pub refresh_pool :
    (String → Option String) → Bool → ℕ → List String → PoolManager → List String × ℕ × PoolManager
unfolding add_all top_up
refresh_pool probe has_mgr now addrs pm =
    let r = add_all probe now addrs pm in
    let grown = top_up has_mgr now r.1 in (r.0, grown.0, grown.1)

module _ (m : Manager) where
  open m use {World, remove}

  -- The container of the proxy that made room is removed; the removal, which runs in the background,
  -- is over before the creation here.
  abbrev pub without : Option Proxy → World → World
  without none w = w
  without (some p) w = if str_eq p.container_id "" then w else remove p.container_id w

  abbrev pub rotated : Creation m × PoolManager × World → Option Proxy × PoolManager × World
  rotated (created p, pm, w) = (newest none (values pm.pool), pm, w)
  rotated (ctx_err, pm, w) = (none, pm, w)
  rotated (creation_failed, pm, w) = (none, pm, w)

  -- ForceRotate
  unfoldable pub force_rotate :
      (ℕ → ℕ) → (ℕ → Bool) → PoolManager → World → Option Proxy × PoolManager × World
  unfolding make_room newest create_proxy
  force_rotate clock cancelled pm w =
      let room = make_room pm in rotated (create_proxy m clock cancelled room.1 (without room.0 w))
