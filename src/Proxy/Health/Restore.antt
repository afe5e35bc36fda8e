-- ===== src/Proxy/Health/Restore.antt =====
-- restoreCooldownProxies: what comes back, and what is dropped.
use opencode_multi_agents.Prelude.{
  ℕ, String, ◌≡◌, refl, true, false, Option, none, some, List, [], ◌∷◌, arith, eq_iff, str_eq,
  if◌then◌else◌, length,
}
use opencode_multi_agents.Prelude.Map.{Map, lookup, insert, values, lookup-insert}
use opencode_multi_agents.Proxy.Types.{Proxy}
use opencode_multi_agents.Proxy.Pool.{PoolManager}
use opencode_multi_agents.Proxy.Index.{Indexed}
use opencode_multi_agents.Proxy.Capacity.Prune.{member, lookup-remove_all}
use opencode_multi_agents.Proxy.Health.{
  cooled, restored, over_size, restore_one, restore_loop, clear_bans, restore_section,
  restore_cooldown_proxies,
}

-- The IDs of the proxies whose cooldown has run out.
abbrev cooled_ids : ℕ → ℕ → List Proxy → List String
cooled_ids now duration [] = []
cooled_ids now duration (p ∷ ps) =
    let rest = cooled_ids now duration ps in if cooled now duration p then p.id ∷ rest else rest

-- What becomes of an entry in a pool that is not too large.
abbrev back : ℕ → ℕ → Proxy → Proxy
back now duration pr = if cooled now duration pr then restored pr else pr

abbrev pub back? : ℕ → ℕ → Option Proxy → Option Proxy
back? now duration none = none
back? now duration (some pr) = some (back now duration pr)

length-insert :
    (k : String) (p q : Proxy) (m : Map Proxy)
    → lookup k m ≡ some q
    → length (insert k p m) ≡ length m
unfolding lookup insert
length-insert k p q [] e = cc
length-insert k p q ((j, r) ∷ m) e = ground (arith, length-insert k p q m)

-- One round of the loop in a pool that is not too large.
restore_one-fits :
    (now : ℕ) (pr : Proxy) (pm : PoolManager) (j : String)
    → over_size pm ≡ false
    → lookup pr.id pm.pool ≡ some pr
    → let r = restore_one now pr pm in
      (r.0 ≡ [])
      × (r.1.cfg ≡ pm.cfg)
      × (over_size r.1 ≡ false)
      × (lookup j r.1.pool ≡ (
          if str_eq pr.id j then some (back now pm.cfg.cooldown_duration pr) else lookup j pm.pool))
unfolding restore_one
restore_one-fits now pr pm j fits e = ground (
  arith,
  lookup-insert pr.id j (restored pr) pm.pool,
  length-insert pr.id (restored pr) pr pm.pool e,
  eq_iff pr.id j,
)

abbrev Holds : Map Proxy → PoolManager → Type 0
Holds m pm = (j : String) (p : Proxy) → lookup j m ≡ some p → lookup j pm.pool ≡ some p

tail-Holds :
    (k : String) (q : Proxy) (m : Map Proxy) (pm : PoolManager)
    → lookup k m ≡ none
    → Holds ((k, q) ∷ m) pm
    → Holds m pm
unfolding lookup
tail-Holds k q m pm fresh h j p e = h j p (ground (arith, eq_iff k j))

chosen : ℕ → ℕ → Option Proxy → Option Proxy → Option Proxy
chosen now duration none old = old
chosen now duration (some pr) old = some (back now duration pr)

restore_one-Holds :
    (now : ℕ) (k : String) (q : Proxy) (m : Map Proxy) (pm : PoolManager)
    → Indexed ((k, q) ∷ m)
    → Holds ((k, q) ∷ m) pm
    → over_size pm ≡ false
    → Holds m (restore_one now q pm).1
restore_one-Holds now k q m pm h holds fits j p e = ground (
  arith,
  tail-Holds k q m pm h.1 holds j p e,
  restore_one-fits now q pm j fits (holds q.id q (unfold lookup in ground (arith, eq_iff k q.id))),
  eq_iff q.id j,
)

restore_loop-fits :
    (now : ℕ) (m : Map Proxy) (pm : PoolManager) (j : String)
    → Indexed m
    → Holds m pm
    → over_size pm ≡ false
    → let r = restore_loop now (values m) pm in
      (r.0 ≡ [])
      × (lookup j r.1.pool ≡ chosen now pm.cfg.cooldown_duration (lookup j m) (lookup j pm.pool))
unfolding restore_loop chosen lookup
restore_loop-fits now [] pm j h holds fits = (refl, refl)
restore_loop-fits now ((k, q) ∷ m) pm j h holds fits =
    let here : lookup q.id pm.pool ≡ some q = holds q.id q (ground (arith, eq_iff k q.id)) in
    let one = restore_one-fits now q pm j fits here in
    let rest =
      restore_loop-fits now m (restore_one now q pm).1 j h.2
        (restore_one-Holds now k q m pm h holds fits) one.2 in
    ground (arith, rest.0, rest.1, one.0, one.1, one.3, eq_iff k j, eq_iff q.id j)

chosen_self : (now duration : ℕ) (o : Option Proxy) → chosen now duration o o ≡ back? now duration o
unfolding chosen
chosen_self now duration none = refl
chosen_self now duration (some pr) = refl

-- In a pool that is not larger than its size, every proxy whose cooldown has run out is idle again
-- with no errors, and nothing else of the pool changes.
pub restore_cooldown_proxies-fits :
    (now : ℕ) (pm : PoolManager) (j : String)
    → Indexed pm.pool
    → over_size pm ≡ false
    → lookup j (restore_cooldown_proxies now pm).pool
      ≡ back? now pm.cfg.cooldown_duration (lookup j pm.pool)
unfolding restore_cooldown_proxies
restore_cooldown_proxies-fits now pm j h fits =
    let r = restore_loop-fits now pm.pool (clear_bans now pm) j h (λ j' p e. e) fits in
    let ids = lookup-remove_all (restore_section now pm).0 j (restore_section now pm).1 in
    ground (arith, r.0, r.1, ids, chosen_self now pm.cfg.cooldown_duration (lookup j pm.pool))

-- In a larger pool the loop changes no entry: it only collects.
restore_loop-over :
    (now : ℕ) (ps : List Proxy) (pm : PoolManager)
    → over_size pm ≡ true
    → restore_loop now ps pm ≡ (cooled_ids now pm.cfg.cooldown_duration ps, pm)
unfolding restore_loop
restore_loop-over now [] pm over = refl
restore_loop-over now (p ∷ ps) pm over = ground (arith, restore_loop-over now ps pm over)

absent_cooled :
    (now duration : ℕ) (j : String) (m : Map Proxy)
    → Indexed m
    → lookup j m ≡ none
    → member j (cooled_ids now duration (values m)) ≡ false
unfolding lookup
absent_cooled now duration j [] h e = refl
absent_cooled now duration j ((k, q) ∷ m) h e =
    ground (arith, absent_cooled now duration j m h.2, eq_iff k j, eq_iff q.id j)

member-cooled_ids :
    (now duration : ℕ) (j : String) (m : Map Proxy) (p : Proxy)
    → Indexed m
    → lookup j m ≡ some p
    → member j (cooled_ids now duration (values m)) ≡ cooled now duration p
unfolding lookup
member-cooled_ids now duration j [] p h e = cc
member-cooled_ids now duration j ((k, q) ∷ m) p h e = ground (
  arith,
  member-cooled_ids now duration j m p h.2,
  absent_cooled now duration k m h.2 h.1,
  eq_iff k j,
  eq_iff q.id j,
)

-- In a pool that is larger than its size, every proxy whose cooldown has run out is removed, however
-- far below the size that takes the pool; no proxy is restored, and the others stay as they were.
pub restore_cooldown_proxies-over :
    (now : ℕ) (pm : PoolManager) (j : String) (p : Proxy)
    → Indexed pm.pool
    → over_size pm ≡ true
    → lookup j pm.pool ≡ some p
    → lookup j (restore_cooldown_proxies now pm).pool
      ≡ (if cooled now pm.cfg.cooldown_duration p then none else some p)
unfolding restore_cooldown_proxies
restore_cooldown_proxies-over now pm j p h over e =
    let r = restore_loop-over now (values pm.pool) (clear_bans now pm) over in
    let ids = lookup-remove_all (restore_section now pm).0 j (restore_section now pm).1 in
    ground (arith, r, ids, member-cooled_ids now pm.cfg.cooldown_duration j pm.pool p h e)
