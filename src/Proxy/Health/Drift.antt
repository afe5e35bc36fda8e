-- ===== src/Proxy/Health/Drift.antt =====
-- checkAllProxies: what a probe does to an entry.
use opencode_multi_agents.Prelude.{
  ℕ, String, ◌≡◌, ◌≢◌, ◌⊎◌, ◌∙◌, ap, sym, refl, subst, str_eq, [], ◌∷◌, Bool, true, false, ◌&&◌,
  ◌||◌, some, arith, eq_iff, Bool-cases, inl, inr, ◌↔◌,
}
use mathlib.Core.Option.{some-injective}
use opencode_multi_agents.Prelude.Map.{Map, lookup, insert, values, lookup-insert}
use opencode_multi_agents.Proxy.Types.{Proxy, idle, active, cooldown, unhealthy, idle_state}
use opencode_multi_agents.Proxy.Pool.{PoolManager, duplicates, any_duplicate, duplicate_ip_locked}
use opencode_multi_agents.Proxy.Index.{Indexed, Indexed-lookup, insert-Indexed}
use opencode_multi_agents.Proxy.Health.{Probe, probed, drifted, recovers, drift_check, check_proxy}

-- The pool with the probed entry in place.
abbrev entered : ℕ → Probe → Proxy → PoolManager → PoolManager
entered now probe pr pm = record pm {
  pool = insert pr.id (probed now probe pr) pm.pool;
  available = pm.available || recovers probe.healthy pr.state;
}

check_proxy-some :
    (now : ℕ) (probe : Probe) (pm : PoolManager) (pr : Proxy)
    → lookup probe.id pm.pool ≡ some pr
    → check_proxy now probe pm
      ≡ drift_check probe.healthy (probed now probe pr) (entered now probe pr pm)
unfolding check_proxy
check_proxy-some now probe pm pr e = rw e refl

-- Another proxy, idle or active, with the same egress IP.
abbrev pub Shares : Proxy → Proxy → Type 0
Shares p q = (q.id ≢ p.id) × (q.egress_ip ≡ p.egress_ip) × ((q.state ≡ idle) ⊎ (q.state ≡ active))

duplicates-Shares : (p q : Proxy) → p.egress_ip ≢ "" → (duplicates p q ≡ true) ↔ Shares p q
duplicates-Shares p q there = (
  λ e. (
    ground (arith, e, eq_iff q.id p.id),
    ground (arith, e, eq_iff q.egress_ip p.egress_ip),
    ground (arith, e),
  ),
  λ (other, same, live). ground (
    arith,
    other,
    same,
    live,
    there,
    eq_iff q.id p.id,
    eq_iff q.egress_ip p.egress_ip,
    eq_iff q.egress_ip "",
  ),
)

any_duplicate-found :
    (p : Proxy) (m : Map Proxy)
    → Indexed m
    → p.egress_ip ≢ ""
    → any_duplicate p (values m) ≡ true
    → (j : String) × (q : Proxy) × (lookup j m ≡ some q) × Shares p q
unfolding any_duplicate lookup
any_duplicate-found p [] h there e = cc
any_duplicate-found p ((k, x) ∷ m) h there e = elim (Bool-cases (duplicates p x)) [
  | inl d ↦ (k, x, ground (arith, eq_iff k k), (duplicates-Shares p x there).0 d)
  | inr d ↦
      let (j, q, l, s) = any_duplicate-found p m h.2 there (ground (arith, e, d)) in
      (j, q, ground (arith, l, h.1, eq_iff k j), s)
]

any_duplicate-shared :
    (p q : Proxy) (j : String) (m : Map Proxy)
    → p.egress_ip ≢ ""
    → lookup j m ≡ some q
    → Shares p q
    → any_duplicate p (values m) ≡ true
unfolding any_duplicate lookup
any_duplicate-shared p q j [] there l s = cc
any_duplicate-shared p q j ((k, x) ∷ m) there l s = elim (Bool-cases (str_eq k j)) [
  | inl e ↦
      let same : x ≡ q = some-injective x q (ground (arith, l, e)) in
      let d = (duplicates-Shares p x there).1 (subst (Shares p) (sym same) s) in ground (arith, d)
  | inr e ↦
      let rest = any_duplicate-shared p q j m there (ground (arith, l, e)) s in ground (arith, rest)
]

-- Some entry shares the egress IP of `p`, if that has one.
abbrev pub IsShared : Proxy → Map Proxy → Type 0
IsShared p m =
    (p.egress_ip ≢ "") × ((j : String) × (q : Proxy) × (lookup j m ≡ some q) × Shares p q)

duplicate_ip_locked-cases :
    (p : Proxy) (m : Map Proxy)
    → Indexed m
    → ((duplicate_ip_locked p (values m) ≡ true) × IsShared p m)
      ⊎ ((duplicate_ip_locked p (values m) ≡ false) × (¬ IsShared p m))
unfolding duplicate_ip_locked
duplicate_ip_locked-cases p m h = elim (Bool-cases (str_eq p.egress_ip "")) [
  | inl e ↦ inr (ground (arith, e), λ z. z.0 (ground (arith, e, eq_iff p.egress_ip "")))
  | inr e ↦
      let there : p.egress_ip ≢ "" = λ same. ground (arith, e, same, eq_iff p.egress_ip "") in
      elim (Bool-cases (any_duplicate p (values m))) [
        | inl d ↦ inl (ground (arith, e, d), (there, any_duplicate-found p m h there d))
        | inr d ↦ inr (
          ground (arith, e, d),
          λ (_, (j, q, l, s)).
              let a = any_duplicate-shared p q j m there l s in ground (arith, a, d),
        )
      ]
]

-- The entry `q` stays idle where nothing shares its IP, and is unhealthy where something does.
abbrev Unique : Proxy → String → Map Proxy → Map Proxy → Type 0
Unique q id after m =
    ((lookup id after ≡ some q) × (q.state ≡ idle) × (¬ IsShared q m))
    ⊎ ((lookup id after ≡ some (record q { state = unhealthy })) × IsShared q m)

drift_check_verdict :
    (q : Proxy) (pm : PoolManager)
    → Indexed pm.pool
    → lookup q.id pm.pool ≡ some q
    → q.state ≡ idle
    → Unique q q.id (drift_check true q pm).1.pool pm.pool
unfolding drift_check
drift_check_verdict q pm h e st = elim (duplicate_ip_locked-cases q pm.pool h) [
  | inl (d, shared) ↦
      inr (
        ground (arith, d, st, lookup-insert q.id q.id (drifted q) pm.pool, eq_iff q.id q.id),
        shared,
      )
  | inr (d, alone) ↦ inl (ground (arith, d, e), st, alone)
]

-- A proxy that would be idle after a healthy probe is so only if it shares its new egress IP with no
-- other proxy that is idle or active; if it shares it, it is marked unhealthy instead.
pub check_proxy_unique :
    (now : ℕ) (probe : Probe) (pm : PoolManager) (pr : Proxy)
    → Indexed pm.pool
    → probe.healthy ≡ true
    → lookup probe.id pm.pool ≡ some pr
    → (pr.state ≡ idle) ⊎ (pr.state ≡ unhealthy)
    → let q = probed now probe pr in
      let others = insert probe.id q pm.pool in
      let after = lookup probe.id (check_proxy now probe pm).1.pool in
      ((after ≡ some q) × (q.state ≡ idle) × (¬ IsShared q others))
      ⊎ ((after ≡ some (record q { state = unhealthy })) × IsShared q others)
check_proxy_unique now probe pm pr h healthy e st =
    let q = probed now probe pr in
    let pm1 = entered now probe pr pm in
    let id : pr.id ≡ probe.id = Indexed-lookup probe.id {p = pr} pm.pool h e in
    let made : check_proxy now probe pm ≡ drift_check true q pm1 =
      check_proxy-some now probe pm pr e ∙ ap (λ (b : Bool). drift_check b q pm1) healthy in
    let there : lookup pr.id pm1.pool ≡ some q =
      ground (arith, lookup-insert pr.id pr.id q pm.pool, eq_iff pr.id pr.id) in
    let free : q.state ≡ idle = ground (arith, healthy, st) in
    subst (λ (x : String). Unique q x (check_proxy now probe pm).1.pool (insert x q pm.pool)) id
      (subst (λ (r : Bool × PoolManager). Unique q pr.id r.1.pool pm1.pool) (sym made)
        (drift_check_verdict q pm1 (insert-Indexed pr.id q pm.pool refl h) there free))

drift_check_cases :
    (b : Bool) (q : Proxy) (pm : PoolManager) (j : String)
    → lookup q.id pm.pool ≡ some q
    → q.id ≢ j
    → let pm' = (drift_check b q pm).1 in
      ((lookup q.id pm'.pool ≡ some q)
        ⊎ ((b ≡ true) × (lookup q.id pm'.pool ≡ some (drifted q)) × (q.state ≡ idle)))
      × (lookup j pm'.pool ≡ lookup j pm.pool)
unfolding drift_check
drift_check_cases b q pm j e ne =
    elim (Bool-cases (b && (idle_state q.state && duplicate_ip_locked q (values pm.pool)))) [
      | inl drift ↦ ground (
        arith,
        lookup-insert q.id q.id (drifted q) pm.pool,
        lookup-insert q.id j (drifted q) pm.pool,
        eq_iff q.id q.id,
        eq_iff q.id j,
      )
      | inr fine ↦ ground arith
    ]

-- Only a healthy probe leaves the proxy dispatchable, and cooldown is neither ended nor begun.
abbrev pub Verdict : Probe → Proxy → Proxy → Type 0
Verdict probe pr pr' =
    ((probe.healthy ≡ true) ⊎ ((pr'.state ≡ unhealthy) ⊎ (pr'.state ≡ cooldown)))
    × ((pr.state ≡ cooldown) ↔ (pr'.state ≡ cooldown))

verdict :
    (now : ℕ) (probe : Probe) (pr pr' : Proxy) (pm' : PoolManager)
    → lookup pr.id pm'.pool ≡ some pr'
    → (lookup pr.id pm'.pool ≡ some (probed now probe pr))
      ⊎ ((probe.healthy ≡ true)
          × (lookup pr.id pm'.pool ≡ some (drifted (probed now probe pr)))
          × ((probed now probe pr).state ≡ idle))
    → Verdict probe pr pr'
verdict now probe pr pr' pm' e cases = ground arith

-- A failed probe takes every proxy out of dispatch; no probe ends a cooldown; and no probe touches
-- another proxy's entry.
pub check_proxy-state :
    (now : ℕ) (probe : Probe) (pm : PoolManager) (pr pr' : Proxy) (j : String)
    → Indexed pm.pool
    → lookup probe.id pm.pool ≡ some pr
    → probe.id ≢ j
    → lookup probe.id (check_proxy now probe pm).1.pool ≡ some pr'
    → Verdict probe pr pr' × (lookup j (check_proxy now probe pm).1.pool ≡ lookup j pm.pool)
check_proxy-state now probe pm pr pr' j h e ne e' =
    let q = probed now probe pr in
    let pm1 = entered now probe pr pm in
    let id : pr.id ≡ probe.id = Indexed-lookup probe.id {p = pr} pm.pool h e in
    let made = check_proxy-some now probe pm pr e in
    let there : lookup pr.id pm1.pool ≡ some q =
      ground (arith, lookup-insert pr.id pr.id q pm.pool, eq_iff pr.id pr.id) in
    let apart : pr.id ≢ j = λ same. ne (sym id ∙ same) in
    let cases = drift_check_cases probe.healthy q pm1 j there apart in
    let elsewhere : lookup j pm1.pool ≡ lookup j pm.pool =
      ground (arith, lookup-insert pr.id j q pm.pool, eq_iff pr.id j) in
    let after : lookup pr.id (drift_check probe.healthy q pm1).1.pool ≡ some pr' =
      cc (made, id, e') in
    rw made (
      verdict now probe pr pr' (drift_check probe.healthy q pm1).1 after cases.0,
      cases.1 ∙ elsewhere,
    )
