-- ===== src/Proxy/Composite/Turns.antt =====
-- CompositeManager and ExternalProxyManager: whose turn it is.
use opencode_multi_agents.Prelude.{
  ℕ, zero, suc, ◌+◌, ◌%◌, ◌<◌, ◌≡◌, refl, ap, ◌∙◌, String, Option, none, some, List, arith,
}
use opencode_multi_agents.Prelude.Cyclic.{comes_up}
use opencode_multi_agents.Proxy.Types.{Proxy}
use opencode_multi_agents.Proxy.Composite.{Accounts, account, CompositeManager, tracked, create_ex}
use opencode_multi_agents.Proxy.Composite.Owners.{next_vpn, create_ex-account}

module _ (vpn : Accounts) (now : ℕ) (regions servers : List String) where
  -- The manager after some creations.
  unfoldable pub creations : ℕ → CompositeManager vpn → CompositeManager vpn
  creations zero cm = cm
  creations (suc n) cm = creations n (create_ex vpn now regions servers cm).1

  tracked-counters :
      (i : ℕ) (o : Option Proxy) (cm : CompositeManager vpn)
      → let after = (tracked vpn (account i) o cm).1 in
        (after.ext ≡ cm.ext) × (after.vpn_idx ≡ cm.vpn_idx)
  tracked-counters i none cm = (refl, refl)
  tracked-counters i (some p) cm = (refl, refl)

  tracked-made :
      (i : ℕ) (o : Option Proxy) (cm : CompositeManager vpn) → (tracked vpn (account i) o cm).0 ≡ o
  tracked-made i none cm = refl
  tracked-made i (some p) cm = refl

  create_ex-counters :
      (cm : CompositeManager vpn)
      → cm.ext ≡ none
      → 0 < vpn.count
      → let after = (create_ex vpn now regions servers cm).1 in
        (after.ext ≡ none) × (after.vpn_idx ≡ cm.vpn_idx + 1)
  create_ex-counters cm no_ext some_vpn =
      let e = create_ex-account vpn now regions servers cm no_ext some_vpn in
      let i = cm.vpn_idx % vpn.count in
      let made = (vpn.create_ex i regions servers cm.world).0 in
      let c = tracked-counters i made (next_vpn vpn regions servers cm) in
      let after_eq = ap (λ (r : Option Proxy × CompositeManager vpn). r.1) e in
      (
        ap (λ (s : CompositeManager vpn). s.ext) after_eq ∙ c.0 ∙ no_ext,
        ap (λ (s : CompositeManager vpn). s.vpn_idx) after_eq ∙ c.1,
      )

  creations-counters :
      (n : ℕ) (cm : CompositeManager vpn)
      → cm.ext ≡ none
      → 0 < vpn.count
      → ((creations n cm).ext ≡ none) × ((creations n cm).vpn_idx ≡ cm.vpn_idx + n)
  unfolding creations
  creations-counters zero cm no_ext some_vpn = (no_ext, omega arith)
  creations-counters (suc n) cm no_ext some_vpn =
      let one = create_ex-counters cm no_ext some_vpn in
      let rest = creations-counters n (create_ex vpn now regions servers cm).1 one.0 some_vpn in
      (rest.0, omega (arith, rest.1, one.1))

  -- Without external proxies every account gets its turn: before as many creations as there are
  -- accounts are over, there is one that asks it for the proxy. Whether the creations before it
  -- succeed makes no difference.
  pub create_ex_in_turn :
      (cm : CompositeManager vpn) (i : ℕ)
      → cm.ext ≡ none
      → i < vpn.count
      → (n : ℕ) × ((n < vpn.count)
          × (let before = creations n cm in
              (create_ex vpn now regions servers before).0
              ≡ (vpn.create_ex i regions servers before.world).0))
  create_ex_in_turn cm i no_ext h =
      let (n, (soon, turn)) = comes_up vpn.count cm.vpn_idx i h in
      let c = creations-counters n cm no_ext (omega (arith, h)) in
      let e = create_ex-account vpn now regions servers (creations n cm) c.0 (omega (arith, h)) in
      let before = creations n cm in
      let asked = before.vpn_idx % vpn.count in
      let made = (vpn.create_ex asked regions servers before.world).0 in
      let whose : asked ≡ i = ap (λ t. t % vpn.count) c.1 ∙ turn in
      (
        n,
        (
          soon,
          ap (λ (r : Option Proxy × CompositeManager vpn). r.0) e
              ∙ tracked-made asked made (next_vpn vpn regions servers before)
              ∙ ap (λ t. (vpn.create_ex t regions servers before.world).0) whose,
        ),
      )
