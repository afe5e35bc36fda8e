-- ===== src/Proxy/Docker/Tracked.antt =====
-- What is relied on of the Docker engine.
use opencode_multi_agents.Prelude.{
  ◌≡◌, refl, String, true, false, not, none, some, List, [], ◌∷◌, str_eq, arith, select, eq_iff,
}
use opencode_multi_agents.Vpn.Servers.{mentions}
use opencode_multi_agents.Proxy.Docker.{Spec, Engine}

-- The list without an ID.
abbrev pub dropped : String → List String → List String
dropped id ids = select (λ x. not (str_eq x id)) ids

-- What the Docker engine documents: a created container has an ID of its own, starting and pulling
-- make none and remove none, and a removal that succeeds removes that container only.
pub record Tracked (engine : Engine) : Type 0 where
  pub containers : engine.World → List String
  pub created_new :
      (spec : Spec) (w w' : engine.World) (id : String)
      → engine.create spec w ≡ (some id, w')
      → (containers w' ≡ id ∷ containers w)
        × (mentions (containers w) id ≡ false)
        × (str_eq id "" ≡ false)
  pub created_none :
      (spec : Spec) (w w' : engine.World)
      → engine.create spec w ≡ (none, w')
      → containers w' ≡ containers w
  pub started_same :
      (id : String) (w : engine.World) → containers (engine.start id w).1 ≡ containers w
  pub pulled_same : (w : engine.World) → containers (engine.pull w).1 ≡ containers w
  pub removed :
      (id : String) (w : engine.World)
      → (engine.remove id w).0 ≡ true
      → containers (engine.remove id w).1 ≡ dropped id (containers w)
  pub not_removed :
      (id : String) (w : engine.World)
      → (engine.remove id w).0 ≡ false
      → containers (engine.remove id w).1 ≡ containers w

dropped_fresh : (id : String) (ids : List String) → mentions ids id ≡ false → dropped id ids ≡ ids
dropped_fresh id [] h = refl
dropped_fresh id (x ∷ ids) h = ground (arith, dropped_fresh id ids, h, eq_iff x id)

pub dropped_new :
    (id : String) (ids : List String) → mentions ids id ≡ false → dropped id (id ∷ ids) ≡ ids
dropped_new id ids h = ground (arith, dropped_fresh id ids h, eq_iff id id)
