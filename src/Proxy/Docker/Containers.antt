-- ===== src/Proxy/Docker/Containers.antt =====
-- Which containers CreateEx leaves.
use opencode_multi_agents.Prelude.{
  ℕ, ◌+◌, ◌≡◌, ◌∙◌, refl, sym, ap, subst, ◌⊎◌, inl, inr, String, Bool, true, false, Option, none,
  some, List, [], ◌∷◌, str_eq, arith, Bool-cases, if_both,
}
use opencode_multi_agents.Prelude.Bytes.{Bytes, text_trim_space}
use opencode_multi_agents.Prelude.Text.{text_take}
use mathlib.Core.List.{Mem, mem-cons_self, mem-cons_of_mem}
use opencode_multi_agents.Proxy.Types.{Proxy, idle}
use opencode_multi_agents.Vpn.Servers.{Scores, Server, LogicalServer, mentions}
use opencode_multi_agents.Vpn.Sessions.{Client, Proton, Peer, Certificate, get_certificate}
use opencode_multi_agents.Proxy.Docker.{
  Spec, Inspection, present, not_found, broken, Wake, ticked, cancelled, Engine, DockerManager,
  inspected, ensure_image, checked_ip, ready_or, wait_for_ready, new_proxy, container_spec,
  remove_container, awaited, started, launched, launch, keyed, certified, peer_of, selected, among,
  create_container, wireguard_key,
}
use opencode_multi_agents.Proxy.Docker.Tracked.{Tracked, dropped, dropped_new}

module _ (scores : Scores) (api : Proton) (engine : Engine) (derive : Bytes → Option String)
    (valid_ip : String → Bool) (now : ℕ) (t : Tracked engine) where
  open engine use {World, create, start, remove, wakes}
  open t use {containers}

  -- The last that happened is that the removal of a container failed.
  abbrev pub Stuck : String → World → Type 0
  Stuck id w = (before : World) × (remove id before ≡ (false, w))

  -- While the proxy was waited for, the IP service said its egress IP through it, up to the space
  -- around it.
  abbrev pub Seen : Proxy → World → Type 0
  Seen p w =
      (body : String) × Mem (ticked (some body)) (wakes p.container_id w)
      × (p.egress_ip ≡ text_trim_space body)

  -- A proxy that is returned has the one new container, with the engine's ID, is idle, and has an IP
  -- that was seen; without one, the containers are those before, or there is one more whose removal
  -- has just failed.
  abbrev pub Accounted : List String → Option Proxy × World → Type 0
  Accounted before (some p, w) =
      (containers w ≡ p.container_id ∷ before)
      × (p.id ≡ text_take 12 p.container_id)
      × (p.state ≡ idle)
      × (valid_ip p.egress_ip ≡ true)
      × Seen p w
  Accounted before (none, w) =
      (containers w ≡ before) ⊎ ((id : String) × (containers w ≡ id ∷ before) × Stuck id w)

  -- A removal of the newest container undoes its creation, or fails.
  removed-Accounted :
      (id : String) (before : List String) (w : World)
      → containers w ≡ id ∷ before
      → mentions before id ≡ false
      → Accounted before (none, (remove id w).1)
  removed-Accounted id before w e fresh = elim (Bool-cases (remove id w).0) [
    | inl gone ↦ inl (t.removed id w gone ∙ ap (dropped id) e ∙ dropped_new id before fresh)
    | inr stuck ↦
        inr (id, t.not_removed id w stuck ∙ e, (w, ap (λ (b : Bool). (b, (remove id w).1)) stuck))
  ]

  -- A proxy that is ready has an IP that one of these said, and is otherwise as it was.
  abbrev IsReady : Proxy → List Wake → Option Proxy → Type 0
  IsReady p ws none = Unit {0}
  IsReady p ws (some p') =
      (p'.id ≡ p.id)
      × (p'.container_id ≡ p.container_id)
      × (p'.state ≡ p.state)
      × (valid_ip p'.egress_ip ≡ true)
      × ((body : String) × Mem (ticked (some body)) ws × (p'.egress_ip ≡ text_trim_space body))

  checked_ip-said :
      (o : Option String) (ip : String)
      → checked_ip scores api engine derive valid_ip now o ≡ some ip
      → (valid_ip ip ≡ true) × ((body : String) × (o ≡ some body) × (ip ≡ text_trim_space body))
  checked_ip-said none ip e = cc
  checked_ip-said (some body) ip e = (ground (arith, e), (body, refl, ground (arith, e)))

  later-IsReady :
      (p : Proxy) (w : Wake) (ws : List Wake) (o : Option Proxy)
      → IsReady p ws o
      → IsReady p (w ∷ ws) o
  later-IsReady p w ws none h = tt
  later-IsReady p w ws (some p') (a, b, c, d, (body, m, e)) =
      (a, b, c, d, (body, mem-cons_of_mem w m, e))

  ready_or-IsReady :
      (p : Proxy) (later : Option Proxy) (body o : Option String) (ws : List Wake)
      → IsReady p ws later
      → checked_ip scores api engine derive valid_ip now body ≡ o
      → IsReady p (ticked body ∷ ws) (ready_or scores api engine derive valid_ip now later p o)
  ready_or-IsReady p later body none ws l e = later-IsReady p (ticked body) ws later l
  ready_or-IsReady p later body (some ip) ws l e =
      let (v, (text, said, is)) = checked_ip-said body ip e in
      (
        refl,
        refl,
        refl,
        v,
        (
          text,
          subst (λ (b : Option String). Mem (ticked (some text)) (ticked b ∷ ws)) (sym said)
              mem-cons_self,
          is,
        ),
      )

  wait_for_ready-IsReady :
      (p : Proxy) (ws : List Wake)
      → IsReady p ws (wait_for_ready scores api engine derive valid_ip now p ws)
  unfolding wait_for_ready
  wait_for_ready-IsReady p [] = tt
  wait_for_ready-IsReady p (cancelled ∷ ws) = tt
  wait_for_ready-IsReady p (ticked body ∷ ws) =
      ready_or-IsReady p (wait_for_ready scores api engine derive valid_ip now p ws) body
        (checked_ip scores api engine derive valid_ip now body) ws (wait_for_ready-IsReady p ws)
        refl

  awaited-Accounted :
      (id : String) (before : List String) (p : Proxy) (o : Option Proxy) (w : World)
      → containers w ≡ id ∷ before
      → mentions before id ≡ false
      → str_eq id "" ≡ false
      → (p.id ≡ text_take 12 id) × (p.container_id ≡ id) × (p.state ≡ idle)
      → IsReady p (wakes id w) o
      → Accounted before (awaited scores api engine derive valid_ip now id o w)
  unfolding remove_container
  awaited-Accounted id before p none w e fresh real is_new ready =
      rw real (removed-Accounted id before w e fresh)
  awaited-Accounted id before p (some p') w e fresh real is_new ready =
      let same : p'.container_id ≡ id = ready.1 ∙ is_new.1 in
      (
        e ∙ ap (λ (x : String). x ∷ before) (sym same),
        ready.0 ∙ is_new.0 ∙ ap (text_take 12) (sym same),
        ready.2 ∙ is_new.2,
        ready.3,
        (
          ready.4.0,
          subst (λ (x : String). Mem (ticked (some ready.4.0)) (wakes x w)) (sym same) ready.4.1,
          ready.4.2,
        ),
      )

  started-Accounted :
      (id : String) (before : List String) (p : Proxy) (r : Bool × World)
      → containers r.1 ≡ id ∷ before
      → mentions before id ≡ false
      → str_eq id "" ≡ false
      → (p.id ≡ text_take 12 id) × (p.container_id ≡ id) × (p.state ≡ idle)
      → Accounted before (started scores api engine derive valid_ip now id p r)
  started-Accounted id before p (false, w) e fresh real is_new =
      removed-Accounted id before w e fresh
  started-Accounted id before p (true, w) e fresh real is_new =
      awaited-Accounted id before p
        (wait_for_ready scores api engine derive valid_ip now p (wakes id w)) w e fresh real is_new
        (wait_for_ready-IsReady p (wakes id w))

  launched-Accounted :
      (port : ℕ) (logical : LogicalServer scores) (server : Server) (spec : Spec) (w : World)
      (r : Option String × World)
      → create spec w ≡ r
      → Accounted
          (containers w)
          (launched scores api engine derive valid_ip now port logical server r)
  launched-Accounted port logical server spec w (none, w') e = inl (t.created_none spec w w' e)
  launched-Accounted port logical server spec w (some id, w') e =
      let new = t.created_new spec w w' id e in
      started-Accounted id (containers w)
        (new_proxy scores api engine derive valid_ip now id port logical server) (start id w')
        (t.started_same id w' ∙ new.0) new.1 new.2 (refl, refl, refl)

  abbrev DockerState : Type 0
  DockerState = DockerManager scores api engine derive valid_ip now

  abbrev Kept : List String → Option Proxy × DockerState → Type 0
  Kept before (o, dm) = Accounted before (o, dm.world)

  keyed-Accounted :
      (logical : LogicalServer scores) (server : Server) (cert : Certificate) (key : Option String)
      (dm : DockerState)
      → Kept
          (containers dm.world)
          (keyed scores api engine derive valid_ip now logical server cert key dm)
  unfolding launch
  keyed-Accounted logical server cert none dm = inl refl
  keyed-Accounted logical server cert (some key) dm =
      let spec =
        container_spec scores api engine derive valid_ip now key cert (dm.next_port + 1) logical in
      launched-Accounted (dm.next_port + 1) logical server spec dm.world (create spec dm.world) refl

  certified-Accounted :
      (logical : LogicalServer scores) (server : Server)
      (r : Option Certificate × List (Bytes × Peer) × Client) (dm : DockerState)
      → Kept
          (containers dm.world)
          (certified scores api engine derive valid_ip now logical server r dm)
  certified-Accounted logical server (none, keys, c) dm = inl refl
  certified-Accounted logical server (some cert, keys, c) dm =
      keyed-Accounted logical server cert (wireguard_key derive c.store.ed25519_key)
        (record dm { protonvpn = c })

  selected-Accounted :
      (o : Option (LogicalServer scores × Server)) (dm : DockerState)
      → Kept (containers dm.world) (selected scores api engine derive valid_ip now o dm)
  selected-Accounted none dm = inl refl
  selected-Accounted (some (logical, server)) dm =
      certified-Accounted logical server
        (get_certificate api now (peer_of scores api engine derive valid_ip now logical server)
          dm.protonvpn)
        dm

  inspected-same :
      (i : Inspection) (dm : DockerState)
      → containers (inspected scores api engine derive valid_ip now i dm).1.world
        ≡ containers dm.world
  inspected-same present dm = refl
  inspected-same broken dm = refl
  inspected-same not_found dm = t.pulled_same dm.world

  ensure_image-same :
      (dm : DockerState)
      → containers (ensure_image scores api engine derive valid_ip now dm).1.world
        ≡ containers dm.world
  unfolding ensure_image
  ensure_image-same dm =
      if_both (λ (r : Bool × DockerState). containers r.1.world ≡ containers dm.world) dm.image_done
        refl (inspected-same (engine.inspect dm.world) dm)

  -- CreateEx leaves no container behind that it does not hand out, unless its removal fails: a proxy
  -- that it returns has the one container that is new, with the start of the engine's ID as its own, is
  -- idle, and has a valid egress IP that the IP service said through it while it was waited for; where
  -- it returns an error, the containers are those before, or there is one more whose removal, the last
  -- call of the engine, failed.
  pub create_container-Accounted :
      (banned_regions avoid_servers : List String) (dm : DockerState)
      → Kept
          (containers dm.world)
          (create_container scores api engine derive valid_ip now banned_regions avoid_servers dm)
  unfolding create_container
  create_container-Accounted banned_regions avoid_servers dm =
      let r = ensure_image scores api engine derive valid_ip now dm in
      let same = ensure_image-same dm in
      elim (Bool-cases r.0) [
        | inr e ↦ rw e (inl same)
        | inl e ↦ rw e (
            subst
              (λ (before : List String). Kept before (
                selected scores api engine derive valid_ip now
                  (among scores api engine derive valid_ip now banned_regions avoid_servers
                    r.1.server_list)
                  r.1))
              same
              (selected-Accounted
                (among scores api engine derive valid_ip now banned_regions avoid_servers
                  r.1.server_list)
                r.1))
      ]
