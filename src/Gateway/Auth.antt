-- ===== src/Gateway/Auth.antt =====
-- internal/handler/handler.go: lookupKey, gatewayAuthMiddleware and resolveAuth. Headers are as they
-- are after TrimPrefix and TrimSpace. A gateway without the proof-of-work gate has no service.
pub mod Forwards
use opencode_multi_agents.Prelude.{
  ℕ, zero, suc, String, Bool, true, false, ◌&&◌, ◌||◌, not, Option, none, some, List, [], ◌∷◌, ◌++◌,
  str_eq, if◌then◌else◌, get_elem?,
}
use opencode_multi_agents.Prelude.Int.{ℤ, pos, ltb_ℤ}
use opencode_multi_agents.Prelude.Text.{bytes_of, has_prefix, cut_colon}
use opencode_multi_agents.Pow.Challenge.{Hashes}
use opencode_multi_agents.Pow.Difficulty.{Float}
use opencode_multi_agents.Pow.Service.{PowConfig, Base64, PowService, key_hash_of, lookup_key}
use opencode_multi_agents.Pow.Limits.{Verdict, pass, key_cooldown, rate_limited, check_key_limits}

-- The settings: GATEWAY_API_KEYS, UPSTREAM_API_KEYS and UPSTREAM_API_KEY.
pub record Keys : Type 0 where
  pub env_keys : List String
  pub upstream_api_keys : List String
  pub upstream_api_key : String

-- upstream.Auth, as bytes
pub record Auth : Type 0 where
  pub header : List ℕ
  pub value : List ℕ

pub data KeyIdentity : Type 0 where
  env_key : KeyIdentity
  issued_key : String → String → ℕ → KeyIdentity

-- The readings of the clock in one request: in seconds for the table, and in nanoseconds for the
-- limits; and whether the table cannot be read.
pub record Moment : Type 0 where
  pub seconds : ℕ
  pub now : ℕ
  pub later : ℕ
  pub fails : Bool

pub data Decision : Type 0 where
  next : Decision
  -- 429, with the plan
  limit_reached : String → Verdict → Decision
  unauthorized : Decision

abbrev pub listed : String → List String → Bool
listed k [] = false
listed k (x ∷ xs) = str_eq x k || listed k xs

-- `retryAfter > 0`
abbrev pub blocks : Verdict → Bool
blocks pass = false
blocks (key_cooldown wait) = ltb_ℤ (pos 0) wait
blocks (rate_limited wait) = ltb_ℤ (pos 0) wait

abbrev pub bearer_of : List ℕ → Auth
bearer_of key = record { header = bytes_of "Authorization"; value = bytes_of "Bearer " ++ key }

abbrev pub bearer_auth : String → Auth
bearer_auth key = bearer_of (bytes_of key)

abbrev pub x_api_key : String → Auth
x_api_key key = record { header = bytes_of "x-api-key"; value = bytes_of key }

plain_entry : List ℕ → Auth
plain_entry entry =
    if has_prefix (bytes_of "public") entry
    then (record { header = bytes_of "x-api-key"; value = entry })
    else bearer_of entry

cut_entry : List ℕ → Option (List ℕ × List ℕ) → Auth
unfolding plain_entry
cut_entry entry none = plain_entry entry
cut_entry entry (some ([], value)) = plain_entry entry
cut_entry entry (some (c ∷ header, value)) = record { header = c ∷ header; value = value }

-- authForEntry
unfoldable pub auth_for_entry : String → Auth
unfolding cut_entry
auth_for_entry entry = cut_entry (bytes_of entry) (cut_colon (bytes_of entry))

module _ (f : Float) (h : Hashes) (enc : Base64) (cfg : PowConfig) where
  -- LookupKey(KeyHash(k)), where there is a service
  unfoldable pub lookup_issued :
      Moment → String → Option (PowService f) → Option (String × ℕ) × Option (PowService f)
  lookup_issued t k none = (none, none)
  lookup_issued t k (some s) =
      let r = lookup_key f (key_hash_of h enc k) t.seconds t.fails s in (r.0, some r.1)

  abbrev pub identity : String → Option (String × ℕ) → Option KeyIdentity
  identity key_hash none = none
  identity key_hash (some (plan, rpm)) = some (issued_key key_hash plan rpm)

  -- lookupKey
  unfoldable pub lookup_bearer :
      Keys → Moment → String → Option (PowService f) → Option KeyIdentity × Option (PowService f)
  unfolding lookup_issued
  lookup_bearer keys t bearer s =
      let r = lookup_issued t bearer s in
      if str_eq bearer ""
      then (none, s)
      else if listed bearer keys.env_keys
      then (some env_key, s)
      else (identity (key_hash_of h enc bearer) r.0, r.1)

  -- authRequired
  unfoldable pub auth_required : Keys → Option (PowService f) → Bool
  auth_required keys (some s) = true
  auth_required keys none = elim keys.env_keys [ [] ↦ false | _ ∷ _ ↦ true ]

  abbrev pub limit_verdict : String → Verdict × PowService f → Decision × Option (PowService f)
  limit_verdict plan (v, s) = ((if blocks v then limit_reached plan v else next), some s)

  unfoldable pub decide :
      Keys
      → Moment
      → String
      → Option KeyIdentity
      → Option (PowService f)
      → Decision × Option (PowService f)
  unfolding auth_required
  decide keys t bearer (some env_key) s = (next, s)
  decide keys t bearer (some (issued_key key_hash plan rpm)) (some s) =
      limit_verdict plan (check_key_limits f cfg key_hash (pos rpm) t.now t.later s)
  decide keys t bearer (some (issued_key key_hash plan rpm)) none = (next, none)
  decide keys t bearer none s =
      if str_eq bearer "" && not (auth_required keys s) then (next, s) else (unauthorized, s)

  -- gatewayAuthMiddleware, for a path under /v1/; any other path is let through
  unfoldable pub gateway_auth :
      Keys → Moment → String → Option (PowService f) → Decision × Option (PowService f)
  unfolding decide
  gateway_auth keys t bearer s =
      let r = lookup_bearer keys t bearer s in decide keys t bearer r.0 r.1

  abbrev is_some : Option (String × ℕ) → Bool
  is_some none = false
  is_some (some _) = true

  -- isGatewayKey
  unfoldable pub is_gateway_key :
      Keys → Moment → String → Option (PowService f) → Bool × Option (PowService f)
  unfolding lookup_issued
  is_gateway_key keys t k s =
      let r = lookup_issued t k s in
      if str_eq k ""
      then (false, s)
      else if listed k keys.env_keys
      then (true, s)
      else (is_some r.0, r.1)

  -- The gateway's own upstream key, with the entry that was drawn, if there is any.
  unfoldable pub own_auth : Option String → Keys → Auth
  unfolding auth_for_entry
  own_auth (some entry) keys = auth_for_entry entry
  own_auth none keys =
      if str_eq keys.upstream_api_key ""
      then x_api_key "public"
      else bearer_auth keys.upstream_api_key

  -- resolveAuth, with the number that is drawn at random
  unfoldable pub resolve_auth :
      ℕ → Keys → Moment → String → String → Option (PowService f) → Auth × Option (PowService f)
  unfolding own_auth
  resolve_auth drawn keys t x_key bearer s =
      let x = is_gateway_key keys t x_key s in
      let b = is_gateway_key keys t bearer x.1 in
      if not (str_eq x_key "") && not x.0
      then (x_api_key x_key, x.1)
      else if not (str_eq bearer "") && not b.0
      then (bearer_auth bearer, b.1)
      else (own_auth (get_elem? keys.upstream_api_keys drawn) keys, b.1)
