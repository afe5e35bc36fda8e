-- ===== src/Proxy/Composite.antt =====
-- internal/proxy/composite_manager.go: external proxies and several VPN accounts as one manager. The
-- managers of the accounts are a parameter; Close, which only closes them, is left out.
pub mod Owners
pub mod Turns
use opencode_multi_agents.Prelude.{
  ℕ, zero, suc, ◌+◌, ◌%◌, String, Bool, true, false, ◌||◌, Option, none, some, List, [], ◌∷◌, ◌++◌,
  ◌==◌, if◌then◌else◌,
}
use opencode_multi_agents.Prelude.Map.{Map, lookup, insert, delete}
use opencode_multi_agents.Proxy.Types.{Proxy}
use opencode_multi_agents.Proxy.Manager.{Manager}
use opencode_multi_agents.Proxy.External.{ExternalProxyManager, create_external, check_external}

-- The managers of the accounts, by their place in `vpnMgrs`; what they act on is one `World`. An
-- error is `none`, or `false` for a removal. A health check may change the proxy.
pub record Accounts : Type 1 where
  pub World : Type 0
  pub count : ℕ
  pub create_ex : ℕ → List String → List String → World → Option Proxy × World
  pub remove : ℕ → String → World → Bool × World
  pub health_check : ℕ → Proxy → World → (Option Bool × Proxy) × World
  pub exec : ℕ → String → List String → List String → World → Option String × World

-- A sub-manager.
pub data Owner : Type 0 where
  external : Owner
  account : ℕ → Owner

module _ (vpn : Accounts) where
  open vpn use {World}

  pub record CompositeManager : Type 0 where
    pub ext : Option ExternalProxyManager
    pub vpn_idx : ℕ
    pub proxy_owner : Map Owner
    pub world : World

  -- NewCompositeManager
  abbrev pub new_composite_manager : Option ExternalProxyManager → World → CompositeManager
  new_composite_manager ext w = record { ext = ext; vpn_idx = 0; proxy_owner = []; world = w }

  abbrev pub track_owner : String → Owner → CompositeManager → CompositeManager
  track_owner id mgr cm = record cm { proxy_owner = insert id mgr cm.proxy_owner }

  abbrev pub get_owner : String → CompositeManager → Option Owner
  get_owner id cm = lookup id cm.proxy_owner

  abbrev pub clear_owner : String → CompositeManager → CompositeManager
  clear_owner id cm = record cm { proxy_owner = delete id cm.proxy_owner }

  abbrev pub set_ext : Option ExternalProxyManager → CompositeManager → CompositeManager
  set_ext ext cm = record cm { ext = ext }

  -- A new proxy gets the owner that made it.
  abbrev pub tracked : Owner → Option Proxy → CompositeManager → Option Proxy × CompositeManager
  tracked mgr none cm = (none, cm)
  tracked mgr (some p) cm = (some p, track_owner p.id mgr cm)

  -- The accounts' part of CreateEx
  unfoldable pub create_vpn :
      List String → List String → CompositeManager → Option Proxy × CompositeManager
  create_vpn regions servers cm =
      let mgr = cm.vpn_idx % vpn.count in
      let r = vpn.create_ex mgr regions servers cm.world in
      if vpn.count == 0
      then (none, cm)
      else tracked (account mgr) r.0 (record cm { vpn_idx = cm.vpn_idx + 1; world = r.1 })

  -- After the external manager has answered.
  unfoldable pub or_vpn :
      List String → List String → Option Proxy → CompositeManager → Option Proxy × CompositeManager
  unfolding create_vpn
  or_vpn regions servers none cm = create_vpn regions servers cm
  or_vpn regions servers (some p) cm = tracked external (some p) cm

  unfoldable pub create_from :
      ℕ
      → List String
      → List String
      → Option ExternalProxyManager
      → CompositeManager
      → Option Proxy × CompositeManager
  unfolding or_vpn
  create_from now regions servers none cm = create_vpn regions servers cm
  create_from now regions servers (some ext) cm =
      let r = create_external now ext in or_vpn regions servers r.0 (set_ext (some r.1) cm)

  -- CreateEx
  unfoldable pub create_ex :
      ℕ → List String → List String → CompositeManager → Option Proxy × CompositeManager
  unfolding create_from
  create_ex now regions servers cm = create_from now regions servers cm.ext cm

  unfoldable pub remove_from : String → Option Owner → CompositeManager → Bool × CompositeManager
  remove_from id none cm = (false, cm)
  remove_from id (some external) cm = (true, clear_owner id cm)
  remove_from id (some (account mgr)) cm =
      let r = vpn.remove mgr id cm.world in
      let after = record cm { world = r.1 } in
      if r.0 then (true, clear_owner id after) else (false, after)

  -- Remove: whether it succeeded
  unfoldable pub remove : String → CompositeManager → Bool × CompositeManager
  unfolding remove_from
  remove id cm = remove_from id (get_owner id cm) cm

  unfoldable pub exec_from :
      String
      → List String
      → List String
      → Option Owner
      → CompositeManager
      → Option String × CompositeManager
  exec_from container env args none cm = (none, cm)
  exec_from container env args (some external) cm = (none, cm)
  exec_from container env args (some (account mgr)) cm =
      let r = vpn.exec mgr container env args cm.world in (r.0, record cm { world = r.1 })

  -- Exec
  unfoldable pub exec :
      String → List String → List String → CompositeManager → Option String × CompositeManager
  unfolding exec_from
  exec container env args cm = exec_from container env args (get_owner container cm) cm

  abbrev pub is_some {ℓ} : {A : Type ℓ} → Option A → Bool
  is_some none = false
  is_some (some a) = true

  -- The loop of HealthCheck over the accounts, for a proxy without an owner: the first that answers
  unfoldable pub check_accounts :
      ℕ → ℕ → Proxy → CompositeManager → (Option Bool × Proxy) × CompositeManager
  check_accounts zero mgr p cm = ((none, p), cm)
  check_accounts (suc left) mgr p cm =
      let r = vpn.health_check mgr p cm.world in
      let after = record cm { world = r.1 } in
      let rest = check_accounts left (mgr + 1) r.0.1 after in
      if is_some r.0.0 then (r.0, after) else rest

  -- What the external manager says of a proxy.
  unfoldable pub check_ext :
      (String → Option String) → Option ExternalProxyManager → Proxy → Option Bool × Proxy
  check_ext probe none p = (none, p)
  check_ext probe (some ext) p = elim (check_external probe p) [
    | none ↦ (none, p)
    | some checked ↦ (some true, checked)
  ]

  unfoldable pub check_from :
      (String → Option String)
      → Option Owner
      → Proxy
      → CompositeManager
      → (Option Bool × Proxy) × CompositeManager
  unfolding check_accounts check_ext
  check_from probe none p cm =
      let r = check_ext probe cm.ext p in
      let rest = check_accounts vpn.count 0 p cm in if is_some r.0 then (r, cm) else rest
  check_from probe (some external) p cm = (check_ext probe cm.ext p, cm)
  check_from probe (some (account mgr)) p cm =
      let r = vpn.health_check mgr p cm.world in (r.0, record cm { world = r.1 })

  -- HealthCheck
  unfoldable pub health_check :
      (String → Option String) → Proxy → CompositeManager → (Option Bool × Proxy) × CompositeManager
  unfolding check_from
  health_check probe p cm = check_from probe (get_owner p.id cm) p cm
