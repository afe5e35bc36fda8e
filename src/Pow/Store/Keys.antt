-- ===== src/Pow/Store/Keys.antt =====
-- The store's guarantees: a challenge is consumed once, and only live keys are given out.
use opencode_multi_agents.Prelude.{
  ℕ, String, ◌≡◌, ◌≢◌, true, false, ◌||◌, some, arith, eq_iff, Option-cases, inl, inr,
}
use opencode_multi_agents.Prelude.Map.{lookup, lookup-insert}
use opencode_multi_agents.Pow.Store.{StoredChallenge, Store, consumable, consume_challenge}

-- A challenge is consumed exactly if it is there, unused and not at its end; it is then used, and
-- every other challenge and all keys are as they were.
pub consume_challenge-used :
    (id : String) (now : ℕ) (s : Store) (sc : StoredChallenge) (j : String)
    → lookup id s.pow_challenges ≡ some sc
    → id ≢ j
    → let r = consume_challenge id now s in
      (r.0 ≡ consumable now sc)
      × (lookup id r.1.pow_challenges ≡ some (record sc { used = sc.used || consumable now sc }))
      × (lookup j r.1.pow_challenges ≡ lookup j s.pow_challenges)
      × (r.1.api_keys ≡ s.api_keys)
unfolding consume_challenge
consume_challenge-used id now s sc j e ne = ground (
  arith,
  lookup-insert id id (record sc { used = true }) s.pow_challenges,
  lookup-insert id j (record sc { used = true }) s.pow_challenges,
  eq_iff id id,
  eq_iff id j,
)

-- A second attempt on the same challenge, at any time, fails.
pub consume_challenge_once :
    (id : String) (now later : ℕ) (s : Store)
    → (consume_challenge id now s).0 ≡ true
    → (consume_challenge id later (consume_challenge id now s).1).0 ≡ false
unfolding consume_challenge
consume_challenge_once id now later s h = elim (Option-cases (lookup id s.pow_challenges)) [
  | inl e ↦ grind (arith, e, h)
  | inr (sc, e) ↦
      ground (
        arith,
        e,
        h,
        lookup-insert id id (record sc { used = true }) s.pow_challenges,
        eq_iff id id,
      )
]
