-- ===== src/Proxy/Create/Rotation.antt =====
-- rotateUntilUniqueIP: what it leaves in the pool, and how many containers it asks for.
use opencode_multi_agents.Prelude.{
  ℕ, zero, suc, ◌+◌, ◌-◌, ◌≤◌, ◌≡◌, ◌⊎◌, ◌∙◌, ap, false, Option, none, some, arith, Bool-cases, inl,
  inr,
}
use opencode_multi_agents.Prelude.Map.{lookup, insert, values, lookup-insert_self}
use opencode_multi_agents.Proxy.Types.{Proxy}
use opencode_multi_agents.Proxy.Pool.{PoolManager, duplicate_ip_locked}
use opencode_multi_agents.Proxy.Manager.{Manager, Counted}
use opencode_multi_agents.Proxy.Create.{
  rotations, create_avoiding, rotate_next, rotate, rotate_until_unique_ip,
}

module _ (m : Manager) (c : Counted m) where
  -- The result of a loop that started with `n` rotations left and `k` creations made: at most `n`
  -- more creations, and a proxy that is in the pool and whose egress IP is no duplicate there,
  -- unless all `n` were used.
  abbrev pub Rotated : ℕ → ℕ → Option Proxy × PoolManager × m.World → Type 0
  Rotated n k (none, pm, w) = c.calls w ≤ k + n
  Rotated n k (some p, pm, w) =
      (lookup p.id pm.pool ≡ some p)
      × (c.calls w ≤ k + n)
      × ((duplicate_ip_locked p (values pm.pool) ≡ false) ⊎ (c.calls w ≡ k + n))

  Rotated-suc :
      (n k k' : ℕ) (r : Option Proxy × PoolManager × m.World)
      → k' ≡ suc k
      → Rotated n k' r
      → Rotated (suc n) k r
  Rotated-suc n k k' (none, pm, w) e h = omega arith
  Rotated-suc n k k' (some p, pm, w) e h = ground arith

  calls-create_avoiding :
      (now : ℕ) (pm : PoolManager) (w : m.World)
      → c.calls (create_avoiding m now pm w).2 ≡ suc (c.calls w)
  unfolding create_avoiding
  calls-create_avoiding now pm w = c.create_counts _ _ w

  rotate_next-Rotated :
      (again : Proxy → PoolManager → m.World → Option Proxy × PoolManager × m.World) (n k : ℕ)
      (r : Option Proxy × PoolManager × m.World)
      → ((p : Proxy) (pm : PoolManager) (w : m.World) → Rotated n (c.calls w) (again p pm w))
      → c.calls r.2 ≡ suc k
      → Rotated (suc n) k (rotate_next m again r)
  unfolding rotate_next
  rotate_next-Rotated again n k (none, pm, w) ih e = omega arith
  rotate_next-Rotated again n k (some p, pm, w) ih e =
      Rotated-suc n k (c.calls w) (again p pm w) e (ih p pm w)

  rotate-Rotated :
      (clock : ℕ → ℕ) (n : ℕ) (p : Proxy) (pm : PoolManager) (w : m.World)
      → Rotated n (c.calls w) (rotate m clock n p pm w)
  unfolding rotate
  rotate-Rotated clock zero p pm w =
      (lookup-insert_self p.id p pm.pool, omega arith, inr (omega arith))
  rotate-Rotated clock (suc n) p pm w =
      elim (Bool-cases (duplicate_ip_locked p (values (insert p.id p pm.pool)))) [
        | inl dup ↦ rw dup (
            rotate_next-Rotated (rotate m clock n) n (c.calls w) _ (rotate-Rotated clock n)
              (calls-create_avoiding (clock n) _ _ ∙ ap suc (c.remove_counts p.container_id w)))
        | inr fine ↦ rw fine (lookup-insert_self p.id p pm.pool, omega arith, inl fine)
      ]

  -- rotateUntilUniqueIP asks for at most one container less than its attempts. What it returns is
  -- in the pool, and shares its egress IP with no other live proxy unless all attempts were used.
  pub rotate_until_unique_ip-Rotated :
      (clock : ℕ → ℕ) (p : Proxy) (pm : PoolManager) (w : m.World)
      → Rotated
          (pm.cfg.proxy_ip_rotate_attempts - 1)
          (c.calls w)
          (rotate_until_unique_ip m clock p pm w)
  unfolding rotate_until_unique_ip
  rotate_until_unique_ip-Rotated clock p pm w = rotate-Rotated clock (rotations pm) p pm w
