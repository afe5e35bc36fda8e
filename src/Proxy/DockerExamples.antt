-- ===== src/Proxy/DockerExamples.antt =====
-- The theorems on the Docker manager, with an engine whose containers all get one ID.
use opencode_multi_agents.Prelude.{
  ◌≡◌, refl, String, Bool, true, false, not, Option, none, some, List, [], ◌∷◌, str_eq,
  if◌then◌else◌, subst, sym, replicate,
}
use opencode_multi_agents.Prelude.Bytes.{Bytes}
use opencode_multi_agents.Vpn.Servers.{mentions}
use opencode_multi_agents.Vpn.Sessions.{Client}
use opencode_multi_agents.Vpn.Examples.{whole, two_servers, certificate, api, client}
use opencode_multi_agents.Proxy.Docker.{present, ticked, Engine, DockerManager, create_container}
use opencode_multi_agents.Proxy.Docker.Containers.{Accounted, create_container-Accounted}
use opencode_multi_agents.Proxy.Docker.Tracked.{dropped, Tracked}

abbrev the_id : String
the_id = "0123456789abcdef"

abbrev one_name : Engine
one_name = record {
  World = List String;
  inspect = λ w. present;
  pull = λ w. (true, w);
  create = λ spec w. if mentions w the_id then (none, w) else (some the_id, the_id ∷ w);
  start = λ id w. (true, w);
  remove = λ id w. (true, dropped id w);
  list = λ w. some w;
  wakes = λ id w. ticked none ∷ ticked (some "185.0.0.2\n") ∷ [];
}

-- What a creation returns, by whether the ID is taken.
abbrev made : Bool → List String → Option String × List String
made taken w = if taken then (none, w) else (some the_id, the_id ∷ w)

made_new :
    (w w' : List String) (id : String) (taken : Bool)
    → mentions w the_id ≡ taken
    → made taken w ≡ (some id, w')
    → (w' ≡ id ∷ w) × (mentions w id ≡ false) × (str_eq id "" ≡ false)
made_new w w' id true m e = cc
made_new w w' id false m e =
    let same : id ≡ the_id = cc in
    let world : w' ≡ the_id ∷ w = cc in
    subst (λ (x : String). (w' ≡ x ∷ w) × (mentions w x ≡ false) × (str_eq x "" ≡ false)) (sym same)
      (world, m, refl)

made-none : (w w' : List String) (taken : Bool) → made taken w ≡ (none, w') → w' ≡ w
made-none w w' true e = cc
made-none w w' false e = cc

removes : (w : List String) (id : String) → true ≡ false → dropped id w ≡ w
removes w id e = cc

abbrev one_tracked : Tracked one_name
one_tracked = record {
  containers = λ w. w;
  created_new = λ spec w w' id e. made_new w w' id (mentions w the_id) refl e;
  created_none = λ spec w w' e. made-none w w' (mentions w the_id) e;
  started_same = λ id w. refl;
  pulled_same = λ w. refl;
  removed = λ id w e. refl;
  not_removed = λ id w e. removes w id e;
}

abbrev derive : Bytes → Option String
derive key = some "x25519"

abbrev any_ip : String → Bool
any_ip ip = not (str_eq ip "")

abbrev account : Client
account = record client {
  store = record {
    credentials = none;
    session = none;
    certificates = certificate ∷ [];
    ed25519_key = some (replicate 64 7);
  };
}

abbrev docker : DockerManager whole api one_name derive any_ip 1
docker = record {
  world = "old" ∷ [];
  protonvpn = account;
  server_list = some two_servers;
  next_port = 10000;
  image_done = true;
}

create_container-Accounted_example :
    let r = create_container whole api one_name derive any_ip 1 [] [] docker in
    Accounted whole api one_name derive any_ip 1 one_tracked ("old" ∷ []) (r.0, r.1.world)
create_container-Accounted_example =
    create_container-Accounted whole api one_name derive any_ip 1 one_tracked [] [] docker
