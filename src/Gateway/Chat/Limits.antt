-- ===== src/Gateway/Chat/Limits.antt =====
-- What the client is told when the upstream limits every request.
use opencode_multi_agents.Prelude.{
  ℕ, zero, suc, ◌+◌, ◌≡◌, ◌/◌, ◌%◌, ◌==◌, refl, String, Bool, true, false, ◌&&◌, none, some, [],
  ◌∷◌, arith, ltb, if◌then◌else◌,
}
use opencode_multi_agents.Gateway.Chat.{
  limited, broken, Surroundings, request, ban, fail, replace, release, Outcome, throttled,
  bad_gateway, panicked, Attempts, give_up, hand_back, after, swap, limited_by, broken_by, replied,
  try_once, round, attempts, chat,
}
use opencode_multi_agents.Gateway.Chat.Bounds.{requests}

and_false : (b : Bool) → (b && false) ≡ false
and_false true = refl
and_false false = refl

later : (a : ℕ) → (ltb 0 (a + 1) && true) ≡ true
later a = ground arith

module _ (env : Surroundings) where
  -- On the public tier a rate limit ends the request at once: the proxy is banned and given back, no
  -- other is taken, and the client is told 429.
  pub chat-public_tier :
      (p : String)
      → env.public_tier ≡ true
      → env.send 0 p ≡ limited
      → chat env p ≡ (request p ∷ ban p ∷ release p ∷ [], throttled)
  unfolding chat attempts round try_once replied limited_by hand_back
  chat-public_tier p tier lim = rw (lim, tier) refl

  -- If the first request breaks, no other proxy comes in time and there is a retry left, the handler
  -- panics: the retry uses the proxy that it does not have.
  pub chat-broken :
      (p : String) (n : ℕ)
      → env.send 0 p ≡ broken
      → env.fresh 0 ≡ none
      → env.max_retries ≡ suc n
      → chat env p ≡ (request p ∷ fail p ∷ [], panicked)
  unfolding chat attempts round try_once replied broken_by
  chat-broken p n b e m = rw (m, b, e) refl

  abbrev held : String → Attempts
  held p = record { proxy = some p; own_proxy = some p; rate_limited = false; last_upstream = none }

  abbrev banned : String → Attempts
  banned p = record {
    proxy = some p;
    own_proxy = some p;
    rate_limited = true;
    last_upstream = none;
  }

  -- A request that is limited.
  ask_limited :
      (left a : ℕ) (p : String)
      → env.public_tier ≡ false
      → env.send a p ≡ limited
      → attempts env (suc left) a (held p)
        ≡ after (request p) (after (ban p) (attempts env left (a + 1) (banned p)))
  unfolding attempts round try_once replied limited_by
  ask_limited left a p tier lim = rw (and_false (ltb 0 a), lim) (simp tier)

  -- The attempt that follows it.
  swap_limited :
      (left a : ℕ) (p q : String)
      → env.in_time (a + 1) ≡ true
      → env.fresh (a + 1) ≡ some q
      → attempts env (suc left) (a + 1) (banned p)
        ≡ after (replace q) (attempts env left (a + 1 + 1) (held q))
  unfolding attempts round swap
  swap_limited left a p q t e = rw (later a, t, e) refl

  -- What the client is told once `k` attempts were left.
  abbrev told : ℕ → Outcome
  told k = if k % 2 == 0 then bad_gateway else throttled

  all_limited :
      (name : ℕ → String) (k a : ℕ) (p : String)
      → env.public_tier ≡ false
      → ((n : ℕ) (q : String) → env.send n q ≡ limited)
      → ((n : ℕ) → env.in_time n ≡ true)
      → ((n : ℕ) → env.fresh n ≡ some (name n))
      → ((attempts env k a (held p)).1 ≡ told k)
        × (requests (attempts env k a (held p)) ≡ (k + 1) / 2)
  unfolding give_up attempts
  all_limited name zero a p tier lim t e = (refl, omega arith)
  all_limited name (suc zero) a p tier lim t e =
      rw (ask_limited zero a p tier (lim a p)) (refl, omega arith)
  all_limited name (suc (suc k)) a p tier lim t e =
      let q = name (a + 1) in
      let ih = all_limited name k (a + 1 + 1) q tier lim t e in
      rw (ask_limited (suc k) a p tier (lim a p), swap_limited k a p q (t (a + 1)) (e (a + 1)))
        (ground (arith, ih.0), omega (arith, ih.1))

  -- If the upstream limits every request, off the public tier, and a fresh proxy always comes in
  -- time, then every other attempt only fetches that proxy: of MaxRetries + 1 attempts about half
  -- are requests, and the client is told 429 only if MaxRetries is even, and 502 if it is odd.
  pub chat-limited :
      (name : ℕ → String) (p : String)
      → env.public_tier ≡ false
      → ((n : ℕ) (q : String) → env.send n q ≡ limited)
      → ((n : ℕ) → env.in_time n ≡ true)
      → ((n : ℕ) → env.fresh n ≡ some (name n))
      → ((chat env p).1 ≡ (if env.max_retries % 2 == 0 then throttled else bad_gateway))
        × (requests (chat env p) ≡ env.max_retries / 2 + 1)
  unfolding chat
  chat-limited name p tier lim t e =
      let r = all_limited name (suc env.max_retries) 0 p tier lim t e in
      (ground (arith, r.0), omega (arith, r.1))
