-- ===== src/Proxy/Composite/Owners.antt =====
-- CompositeManager: which sub-manager a call reaches.
use opencode_multi_agents.Prelude.{
  ℕ, ◌+◌, ◌%◌, ◌≡◌, ◌≢◌, refl, ◌∙◌, String, false, Option, none, some, List, ◌==◌, ap, ◌<◌, if_both,
  arith, eq_iff, if◌then◌else◌,
}
use opencode_multi_agents.Prelude.Map.{insert, lookup-insert, lookup-insert_self}
use opencode_multi_agents.Proxy.Types.{Proxy}
use opencode_multi_agents.Proxy.External.{ExternalProxyManager, create_external}
use opencode_multi_agents.Proxy.Composite.{
  Accounts, Owner, external, account, CompositeManager, track_owner, get_owner, set_ext, tracked,
  create_vpn, or_vpn, create_from, create_ex, remove_from, remove, exec_from, exec,
}

module _ (vpn : Accounts) where
  open vpn use {World}

  -- What a creation does to the owners: nothing, or the new proxy's ID gets one.
  abbrev Tracks : CompositeManager vpn → Option Proxy × CompositeManager vpn → Type 0
  Tracks cm (none, after) = after.proxy_owner ≡ cm.proxy_owner
  Tracks cm (some p, after) = (mgr : Owner) × (after.proxy_owner ≡ insert p.id mgr cm.proxy_owner)

  tracked-Tracks :
      (mgr : Owner) (o : Option Proxy) (cm : CompositeManager vpn)
      → Tracks cm (tracked vpn mgr o cm)
  tracked-Tracks mgr none cm = refl
  tracked-Tracks mgr (some p) cm = (mgr, refl)

  create_vpn-Tracks :
      (regions servers : List String) (cm : CompositeManager vpn)
      → Tracks cm (create_vpn vpn regions servers cm)
  unfolding create_vpn
  create_vpn-Tracks regions servers cm =
      let mgr = cm.vpn_idx % vpn.count in
      let r = vpn.create_ex mgr regions servers cm.world in
      if_both (Tracks cm) (vpn.count == 0) refl
        (tracked-Tracks (account mgr) r.0 (record cm { vpn_idx = cm.vpn_idx + 1; world = r.1 }))

  or_vpn-Tracks :
      (regions servers : List String) (o : Option Proxy) (cm : CompositeManager vpn)
      → Tracks cm (or_vpn vpn regions servers o cm)
  unfolding or_vpn
  or_vpn-Tracks regions servers none cm = create_vpn-Tracks regions servers cm
  or_vpn-Tracks regions servers (some p) cm = tracked-Tracks external (some p) cm

  create_from-Tracks :
      (now : ℕ) (regions servers : List String) (o : Option ExternalProxyManager)
      (cm : CompositeManager vpn)
      → Tracks cm (create_from vpn now regions servers o cm)
  unfolding create_from
  create_from-Tracks now regions servers none cm = create_vpn-Tracks regions servers cm
  create_from-Tracks now regions servers (some ext) cm =
      let r = create_external now ext in
      or_vpn-Tracks regions servers r.0 (set_ext vpn (some r.1) cm)

  unknown :
      (p : Proxy) (r : Option Proxy × CompositeManager vpn) (cm : CompositeManager vpn)
      → Tracks cm r
      → r.0 ≡ some p
      → p.container_id ≢ p.id
      → get_owner vpn p.container_id cm ≡ none
      → get_owner vpn p.container_id r.1 ≡ none
  unknown p (none, after) cm h e differs fresh = cc
  unknown p (some q, after) cm (mgr, h) e differs fresh =
      let there = lookup-insert q.id p.container_id mgr cm.proxy_owner in
      ground (arith, e, h, there, fresh, differs, eq_iff q.id p.container_id)

  -- A proxy whose container ID is not its ID, as that of every container, cannot be removed, and
  -- nothing can be run in it, under its container ID, which is what the pool and the proxies pass:
  -- the owners are kept under the proxies' IDs. Nothing is changed.
  pub create_ex-remove_unknown :
      (now : ℕ) (regions servers env args : List String) (cm : CompositeManager vpn) (p : Proxy)
      → (create_ex vpn now regions servers cm).0 ≡ some p
      → p.container_id ≢ p.id
      → get_owner vpn p.container_id cm ≡ none
      → let after = (create_ex vpn now regions servers cm).1 in
        (remove vpn p.container_id after ≡ (false, after))
        × (exec vpn p.container_id env args after ≡ (none, after))
  unfolding create_ex remove exec
  create_ex-remove_unknown now regions servers env args cm p made differs fresh =
      let r = create_from vpn now regions servers cm.ext cm in
      let e =
        unknown p r cm (create_from-Tracks now regions servers cm.ext cm) made differs fresh in
      (
        ap (λ o. remove_from vpn p.container_id o r.1) e,
        ap (λ o. exec_from vpn p.container_id env args o r.1) e,
      )

  -- The state in which the account whose turn it is has answered.
  abbrev pub next_vpn : List String → List String → CompositeManager vpn → CompositeManager vpn
  next_vpn regions servers cm = record cm {
    vpn_idx = cm.vpn_idx + 1;
    world = (vpn.create_ex (cm.vpn_idx % vpn.count) regions servers cm.world).1;
  }

  pub create_ex-account :
      (now : ℕ) (regions servers : List String) (cm : CompositeManager vpn)
      → cm.ext ≡ none
      → 0 < vpn.count
      → create_ex vpn now regions servers cm
        ≡ tracked vpn
            (account (cm.vpn_idx % vpn.count))
            (vpn.create_ex (cm.vpn_idx % vpn.count) regions servers cm.world).0
            (next_vpn regions servers cm)
  unfolding create_ex create_from create_vpn
  create_ex-account now regions servers cm no_ext some_vpn =
      let there : (vpn.count == 0) ≡ false = ground (arith, some_vpn) in
      ap (λ o. create_from vpn now regions servers o cm) no_ext
      ∙ ap
          (λ b.
            if b
            then (none, cm)
            else tracked vpn (account (cm.vpn_idx % vpn.count))
                (vpn.create_ex (cm.vpn_idx % vpn.count) regions servers cm.world).0
                (next_vpn regions servers cm))
          there

  owned :
      (id : String) (mgr : ℕ) (env args : List String) (cm : CompositeManager vpn)
      → let after = track_owner vpn id (account mgr) cm in
        ((remove vpn id after).0 ≡ (vpn.remove mgr id cm.world).0)
        × ((remove vpn id after).1.world ≡ (vpn.remove mgr id cm.world).1)
        × ((exec vpn id env args after).0 ≡ (vpn.exec mgr id env args cm.world).0)
  unfolding remove exec remove_from exec_from
  owned id mgr env args cm =
      let there = lookup-insert_self id (account mgr) cm.proxy_owner in rw there ground arith

  -- Without external proxies, the account whose turn it is makes the next proxy; a removal and a
  -- command under the proxy's own ID then reach that account.
  pub create_ex-remove_own :
      (now : ℕ) (regions servers env args : List String) (cm : CompositeManager vpn) (p : Proxy)
      → let mgr = cm.vpn_idx % vpn.count in
        let made = vpn.create_ex mgr regions servers cm.world in
        cm.ext ≡ none
        → 0 < vpn.count
        → made.0 ≡ some p
        → let after = (create_ex vpn now regions servers cm).1 in
          ((remove vpn p.id after).0 ≡ (vpn.remove mgr p.id made.1).0)
          × ((remove vpn p.id after).1.world ≡ (vpn.remove mgr p.id made.1).1)
          × ((exec vpn p.id env args after).0 ≡ (vpn.exec mgr p.id env args made.1).0)
  create_ex-remove_own now regions servers env args cm p no_ext some_vpn made =
      let mgr = cm.vpn_idx % vpn.count in
      let e = create_ex-account now regions servers cm no_ext some_vpn in
      let step = ap (λ o. (tracked vpn (account mgr) o (next_vpn regions servers cm)).1) made in
      let after_eq = ap (λ (r : Option Proxy × CompositeManager vpn). r.1) e ∙ step in
      let own = owned p.id mgr env args (next_vpn regions servers cm) in rw after_eq own
