-- ===== src/Proxy/Docker.antt =====
-- internal/proxy/docker.go: the manager of VPN containers. What the Docker engine does is the record
-- Engine; a server and a certificate come from SelectServer and GetCertificate (Vpn). The clock does
-- not move during a call. An engine's ID has at least 12 characters.
pub mod Containers
pub mod Tracked
use opencode_multi_agents.Prelude.{
  ℕ, ◌+◌, String, Bool, true, false, Option, none, some, List, [], ◌∷◌, str_eq, if◌then◌else◌,
  length, ◌==◌,
}
use opencode_multi_agents.Prelude.Text.{text_append, text_concat, text_take}
use opencode_multi_agents.Prelude.Bytes.{Bytes, text_trim_space}
use opencode_multi_agents.Pow.Counter.{format_uint}
use opencode_multi_agents.Proxy.Types.{Proxy, idle}
use opencode_multi_agents.Proxy.Manager.{Manager}
use opencode_multi_agents.Proxy.External.{digits_text}
use opencode_multi_agents.Vpn.Servers.{Scores, Server, LogicalServer, select_server}
use opencode_multi_agents.Vpn.Sessions.{Client, Proton, Peer, Certificate, get_certificate}
use opencode_multi_agents.Proxy.Wireguard.{
  client_address, container_env, first_dns, number_text, server_endpoint, wg_config,
}

-- What a container is made of, where two can differ.
pub record Spec : Type 0 where
  pub name : String
  pub env : List String
  pub region : String
  pub server : String
  pub port : ℕ

-- What an inspection of the image says.
pub data Inspection : Type 0 where
  present not_found broken : Inspection

-- What the select of waitForReady gets: a tick, at which the IP service says something through the
-- proxy or nothing, or the end of the context.
pub data Wake : Type 0 where
  ticked : Option String → Wake
  cancelled : Wake

-- The calls of the Docker engine that are made, and what comes while a container is waited for, up to
-- the timeout.
pub record Engine : Type 1 where
  pub World : Type 0
  pub inspect : World → Inspection
  pub pull : World → Bool × World
  pub create : Spec → World → Option String × World
  pub start : String → World → Bool × World
  pub remove : String → World → Bool × World
  pub list : World → Option (List String)
  pub wakes : String → World → List Wake

-- GetOrCreateKeyPair, up to its derivation of the X25519 key, which is a parameter
abbrev pub wireguard_key : (Bytes → Option String) → Option Bytes → Option String
wireguard_key derive none = none
wireguard_key derive (some key) = if length key == 64 then derive key else none

module _ (scores : Scores) (api : Proton) (engine : Engine) (derive : Bytes → Option String)
    (valid_ip : String → Bool) (now : ℕ) where
  open engine use {World, inspect, pull, create, start, remove, list, wakes}

  pub record DockerManager : Type 0 where
    pub world : World
    pub protonvpn : Client
    pub server_list : Option (List (LogicalServer scores))
    pub next_port : ℕ
    pub image_done : Bool

  abbrev pub inspected : Inspection → DockerManager → Bool × DockerManager
  inspected present dm = (true, record dm { image_done = true })
  inspected broken dm = (false, dm)
  inspected not_found dm =
      let r = pull dm.world in (r.0, record dm { world = r.1; image_done = r.0 })

  -- ensureImage: whether it succeeded
  unfoldable pub ensure_image : DockerManager → Bool × DockerManager
  ensure_image dm = if dm.image_done then (true, dm) else inspected (inspect dm.world) dm

  -- HealthCheck, of what the IP service says
  abbrev pub checked_ip : Option String → Option String
  checked_ip none = none
  checked_ip (some body) = let ip = text_trim_space body in if valid_ip ip then some ip else none

  abbrev pub with_ip : Proxy → String → Proxy
  with_ip p ip = record p { egress_ip = ip }

  abbrev pub ready_or : Option Proxy → Proxy → Option String → Option Proxy
  ready_or later p none = later
  ready_or later p (some ip) = some (with_ip p ip)

  -- waitForReady: the proxy with its egress IP, or an error; after the last of these the timeout comes
  unfoldable pub wait_for_ready : Proxy → List Wake → Option Proxy
  wait_for_ready p [] = none
  wait_for_ready p (cancelled ∷ ws) = none
  wait_for_ready p (ticked body ∷ ws) = ready_or (wait_for_ready p ws) p (checked_ip body)

  abbrev pub new_proxy : String → ℕ → LogicalServer scores → Server → Proxy
  new_proxy id port logical server = record {
    id = text_take 12 id;
    container_id = id;
    socks5_addr = text_append "socks5://127.0.0.1:" (number_text port);
    port = port;
    state = idle;
    last_used = 0;
    last_check = now;
    requests_sent = 0;
    error_count = 0;
    created_at = now;
    egress_ip = "";
    region = logical.exit_country;
    server_name = logical.name;
    server_ip = server.exit_ip;
    has_manager = false;
  }

  abbrev pub container_spec : String → Certificate → ℕ → LogicalServer scores → Spec
  container_spec private_key cert port logical = record {
    name = text_append "protonvpn-gateway-" (number_text port);
    env = container_env private_key cert;
    region = logical.exit_country;
    server = logical.name;
    port = port;
  }

  -- Remove; an ID that is empty is no container's
  unfoldable pub remove_container : String → World → Bool × World
  remove_container id w = if str_eq id "" then (true, w) else remove id w

  abbrev pub awaited : String → Option Proxy → World → Option Proxy × World
  awaited id none w = (none, (remove_container id w).1)
  awaited id (some p) w = (some p, w)

  abbrev pub started : String → Proxy → Bool × World → Option Proxy × World
  started id p (false, w) = (none, (remove id w).1)
  started id p (true, w) = awaited id (wait_for_ready p (wakes id w)) w

  abbrev pub launched :
      ℕ → LogicalServer scores → Server → Option String × World → Option Proxy × World
  launched port logical server (none, w) = (none, w)
  launched port logical server (some id, w) =
      started id (new_proxy id port logical server) (start id w)

  -- The container of a server, once all that it needs is there.
  unfoldable pub launch :
      ℕ → LogicalServer scores → Server → Certificate → String → World → Option Proxy × World
  unfolding wait_for_ready remove_container
  launch port logical server cert private_key w =
      launched port logical server (create (container_spec private_key cert port logical) w)

  abbrev pub keyed :
      LogicalServer scores
      → Server
      → Certificate
      → Option String
      → DockerManager
      → Option Proxy × DockerManager
  keyed logical server cert none dm = (none, dm)
  keyed logical server cert (some private_key) dm =
      let r = launch (dm.next_port + 1) logical server cert private_key dm.world in
      (r.0, record dm { world = r.1; next_port = dm.next_port + 1 })

  abbrev pub certified :
      LogicalServer scores
      → Server
      → Option Certificate × List (Bytes × Peer) × Client
      → DockerManager
      → Option Proxy × DockerManager
  certified logical server (none, keys, c) dm = (none, record dm { protonvpn = c })
  certified logical server (some cert, keys, c) dm =
      keyed logical server cert (wireguard_key derive c.store.ed25519_key)
        (record dm { protonvpn = c })

  abbrev pub peer_of : LogicalServer scores → Server → Peer
  peer_of logical server = record {
    server_name = logical.name;
    server_ip = server.entry_ip;
    server_pub_key = server.x25519_public_key;
  }

  abbrev pub selected :
      Option (LogicalServer scores × Server) → DockerManager → Option Proxy × DockerManager
  selected none dm = (none, dm)
  selected (some (logical, server)) dm =
      certified logical server (get_certificate api now (peer_of logical server) dm.protonvpn) dm

  abbrev pub among :
      List String
      → List String
      → Option (List (LogicalServer scores))
      → Option (LogicalServer scores × Server)
  among banned_regions avoid_servers none = none
  among banned_regions avoid_servers (some servers) =
      select_server scores "" banned_regions avoid_servers servers

  -- CreateEx
  unfoldable pub create_container :
      List String → List String → DockerManager → Option Proxy × DockerManager
  unfolding ensure_image launch select_server get_certificate
  create_container banned_regions avoid_servers dm =
      let r = ensure_image dm in
      if r.0 then selected (among banned_regions avoid_servers r.1.server_list) r.1 else (none, r.1)

  -- The manager as the pool sees it.
  abbrev pub docker_manager : Manager
  docker_manager = record {
    World = DockerManager;
    create_ex = create_container;
    remove = λ id dm. record dm { world = (remove_container id dm.world).1 };
  }

  -- The loop of cleanupOrphans.
  unfoldable pub remove_each : List String → World → World
  remove_each [] w = w
  remove_each (id ∷ ids) w = remove_each ids (remove id w).1

  abbrev pub orphans : Option (List String) → World → World
  orphans none w = w
  orphans (some ids) w = remove_each ids w

  -- cleanupOrphans
  unfoldable pub cleanup_orphans : World → World
  unfolding remove_each
  cleanup_orphans w = orphans (list w) w
