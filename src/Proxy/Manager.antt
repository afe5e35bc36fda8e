-- ===== src/Proxy/Manager.antt =====
-- internal/proxy/types.go: the interface `Manager` of what creates and removes containers. `World`
-- is whatever the manager acts on; an error of a creation is `none`, one of a removal is only
-- logged. A creation is given the regions and the servers to avoid.
use opencode_multi_agents.Prelude.{ℕ, suc, String, ◌≡◌, Option, List}
use opencode_multi_agents.Proxy.Types.{Proxy}

pub record Manager : Type 1 where
  pub World : Type 0
  pub create_ex : List String → List String → World → Option Proxy × World
  pub remove : String → World → World

-- A count of the creations that were asked for.
pub record Counted (m : Manager) : Type 0 where
  pub calls : m.World → ℕ
  pub create_counts :
      (regions servers : List String) (w : m.World)
      → calls (m.create_ex regions servers w).1 ≡ suc (calls w)
  pub remove_counts : (id : String) (w : m.World) → calls (m.remove id w) ≡ calls w
