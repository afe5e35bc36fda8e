-- ===== src/Proxy/Acquire/Dispatch.antt =====
-- GetProxy: what a pass hands out, and when it finds nothing.
use opencode_multi_agents.Prelude.{
  ℕ, String, ◌≡◌, ◌≢◌, refl, ◌↔◌, true, false, Option, none, some, List, [], ◌∷◌, arith, eq_iff,
  select, All-select, Option-cases, inl, inr,
}
use opencode_multi_agents.Prelude.Map.{lookup, insert, values, lookup-insert}
use opencode_multi_agents.Proxy.Types.{Proxy, idle}
use opencode_multi_agents.Proxy.Bans.{is_banned}
use opencode_multi_agents.Proxy.Pool.{PoolManager}
use opencode_multi_agents.Proxy.Index.{Indexed, Indexed-found, insert-Indexed}
use opencode_multi_agents.Proxy.Acquire.{pick_candidate, dispatched, try_acquire}
use opencode_multi_agents.Proxy.Acquire.Candidates.{fit, candidates-select, All-pick, pick_some}

-- What a pass picks from the pool.
abbrev picked : ℕ → PoolManager → Option Proxy
picked now pm = pick_candidate pm.rr (select (fit now pm.ip_bans) (values pm.pool))

try_acquire-none :
    (now later : ℕ) (c : String) (pm : PoolManager)
    → picked now pm ≡ none
    → (try_acquire now later c pm).0 ≡ none
unfolding try_acquire
try_acquire-none now later c pm e =
    ground (arith, candidates-select now (values pm.pool) pm.ip_bans)

try_acquire-some :
    (now later : ℕ) (c : String) (pm : PoolManager) (p : Proxy)
    → picked now pm ≡ some p
    → ((try_acquire now later c pm).0 ≡ some (dispatched later p))
      × ((try_acquire now later c pm).1.pool ≡ insert p.id (dispatched later p) pm.pool)
unfolding try_acquire
try_acquire-some now later c pm p e =
    ground (arith, candidates-select now (values pm.pool) pm.ip_bans)

abbrev Pickable : ℕ → PoolManager → Proxy → Type 0
Pickable now pm p = (lookup p.id pm.pool ≡ some p) × (fit now pm.ip_bans p ≡ true)

picked-Pickable :
    (now : ℕ) (pm : PoolManager) (p : Proxy)
    → Indexed pm.pool
    → picked now pm ≡ some p
    → Pickable now pm p
picked-Pickable now pm p h e =
    All-pick (Pickable now pm) pm.rr (select (fit now pm.ip_bans) (values pm.pool)) e (
      All-select (λ p. lookup p.id pm.pool ≡ some p) (fit now pm.ip_bans) (values pm.pool)
        (Indexed-found pm.pool h))

-- What a pass hands out, `q`, was before an entry `p` of the pool, idle and unbanned.
pub record Dispatches (now later : ℕ) (pm pm' : PoolManager) (q p : Proxy) : Type 0 where
  pub found : lookup p.id pm.pool ≡ some p
  pub was_idle : p.state ≡ idle
  pub unbanned : is_banned now p.egress_ip pm.ip_bans ≡ false
  pub handed : q ≡ dispatched later p
  pub stored : lookup p.id pm'.pool ≡ some q
  pub others : (j : String) → p.id ≢ j → lookup j pm'.pool ≡ lookup j pm.pool
  pub indexed : Indexed pm'.pool

Dispatches-pick :
    (now later : ℕ) (c : String) (pm : PoolManager) (q p : Proxy)
    → Indexed pm.pool
    → (try_acquire now later c pm).0 ≡ some q
    → picked now pm ≡ some p
    → Dispatches now later pm (try_acquire now later c pm).1 q p
Dispatches-pick now later c pm q p h e pick =
    let hit = picked-Pickable now pm p h pick in
    let made = try_acquire-some now later c pm p pick in
    record {
      found = hit.0;
      was_idle = ground arith;
      unbanned = ground arith;
      handed = ground arith;
      stored =
          rw made.1 (
            ground (arith, lookup-insert p.id p.id (dispatched later p) pm.pool, eq_iff p.id p.id));
      others = λ j ne.
          rw made.1
            (ground (arith, lookup-insert p.id j (dispatched later p) pm.pool, eq_iff p.id j));
      indexed = rw made.1 (insert-Indexed p.id (dispatched later p) pm.pool refl h);
    }

-- In a pool that is keyed by ID, a pass that hands out a proxy takes an idle entry whose egress
-- IP is not banned, marks that entry active and counts the request, and leaves every other entry
-- as it was.
pub try_acquire-Dispatches :
    (now later : ℕ) (c : String) (pm : PoolManager) (q : Proxy)
    → Indexed pm.pool
    → (try_acquire now later c pm).0 ≡ some q
    → (p : Proxy) × Dispatches now later pm (try_acquire now later c pm).1 q p
try_acquire-Dispatches now later c pm q h e = elim (Option-cases (picked now pm)) [
  | inl no_pick ↦ absurd (cc (try_acquire-none now later c pm no_pick))
  | inr (p, pick) ↦ (p, Dispatches-pick now later c pm q p h e pick)
]

none_picked : (rr : ℕ) (cs : List Proxy) → pick_candidate rr cs ≡ none → cs ≡ []
none_picked rr [] e = refl
none_picked rr (c ∷ cs) e = let (p, found) = pick_some rr c cs in cc

nothing_to_pick : (rr : ℕ) (cs : List Proxy) → cs ≡ [] → pick_candidate rr cs ≡ none
unfolding pick_candidate
nothing_to_pick rr [] e = refl
nothing_to_pick rr (c ∷ cs) e = cc

none_fits :
    (now later : ℕ) (c : String) (pm : PoolManager)
    → (try_acquire now later c pm).0 ≡ none
    → select (fit now pm.ip_bans) (values pm.pool) ≡ []
none_fits now later c pm e = elim (Option-cases (picked now pm)) [
  | inl no_pick ↦ none_picked pm.rr (select (fit now pm.ip_bans) (values pm.pool)) no_pick
  | inr (p, pick) ↦ absurd (cc ((try_acquire-some now later c pm p pick).0))
]

-- A pass finds no proxy exactly when no proxy of the pool is idle with an unbanned egress IP.
pub try_acquire-none_iff :
    (now later : ℕ) (c : String) (pm : PoolManager)
    → ((try_acquire now later c pm).0 ≡ none) ↔ (select (fit now pm.ip_bans) (values pm.pool) ≡ [])
try_acquire-none_iff now later c pm =
    (none_fits now later c pm, λ e. try_acquire-none now later c pm (nothing_to_pick pm.rr _ e))

-- Two passes in a row never hand out the same proxy.
pub try_acquire_twice :
    (now later now' later' : ℕ) (c c' : String) (pm : PoolManager) (q q' : Proxy)
    → Indexed pm.pool
    → (try_acquire now later c pm).0 ≡ some q
    → (try_acquire now' later' c' (try_acquire now later c pm).1).0 ≡ some q'
    → q.id ≢ q'.id
try_acquire_twice now later now' later' c c' pm q q' h e e' same =
    let pm1 = (try_acquire now later c pm).1 in
    let (p, d) = try_acquire-Dispatches now later c pm q h e in
    let (p', d') = try_acquire-Dispatches now' later' c' pm1 q' d.indexed e' in
    ground (arith, d.stored, d.handed, d'.found, d'.was_idle, d'.handed)
