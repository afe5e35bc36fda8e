-- ===== src/Gateway/Auth/Forwards.antt =====
-- Which keys are forwarded, and which are let in.
use opencode_multi_agents.Prelude.{
  ℕ, ◌≡◌, ◌≢◌, ◌⊎◌, String, true, false, not, ◌&&◌, str_eq, eq_iff, Option, none, some, arith, inl,
  inr, Bool-cases, get_elem?, sym,
}
use opencode_multi_agents.Pow.Challenge.{Hashes}
use opencode_multi_agents.Pow.Difficulty.{Float}
use opencode_multi_agents.Pow.Service.{PowConfig, Base64, PowService}
use opencode_multi_agents.Pow.Issue.{key_out}
use opencode_multi_agents.Pow.Store.{ApiKey}
use opencode_multi_agents.Pow.Redeem.{Redemption, handle_redeem}
use opencode_multi_agents.Pow.Redeem.Sound.{AreKeyed, handle_redeem-Redeemed}
use opencode_multi_agents.Pow.Redeem.Keys.{lookup_key-redeemed}
use opencode_multi_agents.Gateway.Auth.{
  Keys, Moment, unauthorized, env_key, issued_key, listed, bearer_auth, x_api_key, lookup_issued,
  lookup_bearer, decide, gateway_auth, is_gateway_key, own_auth, resolve_auth,
}

module _ (f : Float) (h : Hashes) (enc : Base64) (cfg : PowConfig) where
  -- A key that is none of this gateway's: it is there, it is not listed, and the service does not know
  -- it.
  abbrev pub IsForeign : Keys → Moment → String → Option (PowService f) → Type 0
  IsForeign keys t k s =
      (k ≢ "") × (listed k keys.env_keys ≡ false) × ((lookup_issued f h enc cfg t k s).0 ≡ none)

  is_gateway_key-IsForeign :
      (keys : Keys) (t : Moment) (k : String) (s : Option (PowService f))
      → str_eq k "" ≡ false
      → (is_gateway_key f h enc cfg keys t k s).0 ≡ false
      → IsForeign keys t k s
  unfolding is_gateway_key
  is_gateway_key-IsForeign keys t k s e g =
      (λ same. ground (arith, e, same, eq_iff k ""), ground (arith, e, g), ground (arith, e, g))

  is_gateway_key_own :
      (keys : Keys) (t : Moment) (k : String) (s : Option (PowService f))
      → (is_gateway_key f h enc cfg keys t k s).0 ≡ true
      → ¬ IsForeign keys t k s
  unfolding is_gateway_key
  is_gateway_key_own keys t k s g (there, listed_not, unknown) =
      ground (arith, g, listed_not, unknown)

  is_gateway_key-cases :
      (keys : Keys) (t : Moment) (k : String) (s : Option (PowService f))
      → let foreign = not (str_eq k "") && not (is_gateway_key f h enc cfg keys t k s).0 in
        ((foreign ≡ true) × IsForeign keys t k s) ⊎ ((foreign ≡ false) × (¬ IsForeign keys t k s))
  is_gateway_key-cases keys t k s = elim (Bool-cases (str_eq k "")) [
    | inl e ↦ inr (ground (arith, e), λ z. z.0 (ground (arith, e, eq_iff k "")))
    | inr e ↦ elim (Bool-cases (is_gateway_key f h enc cfg keys t k s).0) [
      | inl g ↦ inr (ground (arith, e, g), is_gateway_key_own keys t k s g)
      | inr g ↦ inl (ground (arith, e, g), is_gateway_key-IsForeign keys t k s e g)
    ]
  ]

  -- A key in x-api-key that is none of this gateway's is forwarded in x-api-key; otherwise one in
  -- Authorization that is none of this gateway's is forwarded there; and otherwise, so also without any
  -- key, the request goes out with the gateway's own upstream key. A key is none of the gateway's if it
  -- is not empty, not listed in the settings, and not known to the service, which is asked for the
  -- second key after it was asked for the first.
  pub resolve_auth-IsForeign :
      (drawn : ℕ) (keys : Keys) (t : Moment) (x_key bearer : String) (s : Option (PowService f))
      → let after = (is_gateway_key f h enc cfg keys t x_key s).1 in
        let a = (resolve_auth f h enc cfg drawn keys t x_key bearer s).0 in
        (IsForeign keys t x_key s × (a ≡ x_api_key x_key))
        ⊎ ((¬ IsForeign keys t x_key s)
            × ((IsForeign keys t bearer after × (a ≡ bearer_auth bearer))
                ⊎ ((¬ IsForeign keys t bearer after)
                    × (a ≡ own_auth f h enc cfg (get_elem? keys.upstream_api_keys drawn) keys))))
  unfolding resolve_auth
  resolve_auth-IsForeign drawn keys t x_key bearer s =
      let after = (is_gateway_key f h enc cfg keys t x_key s).1 in
      let x = is_gateway_key-cases keys t x_key s in
      let b = is_gateway_key-cases keys t bearer after in
      elim x [
        | inl (yes_x, is_x) ↦ inl (is_x, ground (arith, yes_x))
        | inr (no_x, not_x) ↦ inr (
          not_x,
          elim b [
            | inl (yes_b, is_b) ↦ inl (is_b, ground (arith, no_x, yes_b))
            | inr (no_b, not_b) ↦ inr (not_b, ground (arith, no_x, no_b))
          ],
        )
      ]

  decide-issued :
      (keys : Keys) (t : Moment) (bearer key_hash plan : String) (rpm : ℕ)
      (s : Option (PowService f))
      → (decide f h enc cfg keys t bearer (some (issued_key key_hash plan rpm)) s).0 ≢ unauthorized
  unfolding decide
  decide-issued keys t bearer key_hash plan rpm none e = ground (arith, e)
  decide-issued keys t bearer key_hash plan rpm (some s) e = ground (arith, e)

  decide-env :
      (keys : Keys) (t : Moment) (bearer : String) (s : Option (PowService f))
      → (decide f h enc cfg keys t bearer (some env_key) s).0 ≢ unauthorized
  unfolding decide
  decide-env keys t bearer s e = ground (arith, e)

  -- A key that was just issued lets its holder in at every time, also after the key's end: the key is
  -- cached, and the cache does not look at the end, although the documents say that keys expire. The
  -- request is passed on or told that the plan's limit is reached, but never refused as unauthorized.
  pub gateway_auth-redeemed :
      (q : Redemption) (s : PowService f) (key : String) (k : ApiKey) (keys : Keys) (t : Moment)
      → AreKeyed s.store.pow_challenges
      → (handle_redeem f h enc cfg q s).0 ≡ key_out key k
      → (gateway_auth f h enc cfg keys t key (some (handle_redeem f h enc cfg q s).1)).0
        ≢ unauthorized
  unfolding gateway_auth lookup_bearer lookup_issued
  gateway_auth-redeemed q s key k keys t a e =
      let s' : Option (PowService f) = some (handle_redeem f h enc cfg q s).1 in
      let kept = (handle_redeem-Redeemed f h enc cfg q s key k a e).kept in
      let found = lookup_key-redeemed f h enc cfg q s key k t.seconds t.fails a e in
      elim (Bool-cases (listed key keys.env_keys)) [
        | inl l ↦ rw (kept.3, l) (decide-env keys t key s')
        | inr l ↦
            rw (kept.3, l, sym kept.2, found) (decide-issued keys t key k.key_hash k.plan k.rpm s')
      ]
