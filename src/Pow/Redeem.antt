-- ===== src/Pow/Redeem.antt =====
-- internal/handler/pow.go: handleRedeem. A response is a status with its code, without the message.
-- It runs here with no other request in between; Pow/Redeem/Steps has it in two steps.
pub mod Issued
pub mod Sound
pub mod Rows
pub mod Closed
pub mod Steps
pub mod Once
pub mod Keys
use opencode_multi_agents.Prelude.{
  ℕ, ◌+◌, ◌*◌, ◌/◌, ◌^◌, String, Bool, true, false, ◌||◌, not, Option, none, some, List, [], ◌∷◌,
  ltb, str_eq, if◌then◌else◌,
}
use opencode_multi_agents.Prelude.Int.{sub_ℕ}
use opencode_multi_agents.Prelude.Text.{text_append, text_take}
use opencode_multi_agents.Pow.Challenge.{Challenge, Hashes, is_solved, verify}
use opencode_multi_agents.Pow.Difficulty.{Float, record_solve}
use opencode_multi_agents.Pow.Store.{
  StoredChallenge, ApiKey, Store, to_challenge, get_challenge, consume_challenge, insert_api_key,
  bump_ip_bonus,
}
use opencode_multi_agents.Pow.Issue.{Response, failed, key_out, second}
use opencode_multi_agents.Pow.Service.{
  PowConfig, Base64, PowService, plan_rpm, binding_hash, key_hash_of, cache_key,
}

pub record RedeemRequest : Type 0 where
  pub challenge_id : String
  pub algo : String
  pub counters : List (List ℕ)

-- What a request brings: its body, `none` if it is no JSON, the client, the readings of the clock
-- (of which those in the store are Unix seconds), the random bytes, and which query fails.
pub record Redemption : Type 0 where
  pub body : Option RedeemRequest
  pub ip : String
  pub user_agent : String
  pub now : ℕ
  pub consume_now : ℕ
  pub bump_now : ℕ
  pub random : Option (List ℕ)
  pub get_fails : Bool
  pub consume_fails : Bool
  pub bump_fails : Bool
  pub insert_fails : Bool

-- The key that is made of 32 random bytes.
unfoldable pub new_key : Hashes → Base64 → PowConfig → String → ℕ → List ℕ → String × ApiKey
new_key h enc cfg plan now raw =
    let key = text_append "sk-gw-" (enc.raw_url raw) in
    (
      key,
      record {
        key_hash = key_hash_of h enc key;
        prefix = text_take 16 key;
        plan = plan;
        rpm = plan_rpm cfg plan;
        created_at = now / second;
        expires_at = (now + cfg.key_ttl) / second;
        disabled = false;
      },
    )

module _ (f : Float) (h : Hashes) (enc : Base64) (cfg : PowConfig) where
  -- The key is stored and cached.
  unfoldable pub persist :
      Bool → String × ApiKey → Option Store → PowService f → Response × PowService f
  persist true k o s = (failed 500 "internal_error", s)
  persist false k none s = (failed 500 "internal_error", s)
  persist false (key, k) (some st) s = (key_out key k, cache_key f k (record s { store = st }))

  unfoldable pub issue_with :
      Redemption → StoredChallenge → Option (List ℕ) → PowService f → Response × PowService f
  unfolding persist
  issue_with q sc none s = (failed 500 "internal_error", s)
  issue_with q sc (some raw) s =
      let k = new_key h enc cfg sc.plan q.now raw in
      persist q.insert_fails k (insert_api_key k.1 s.store) s

  -- What follows once the challenge is consumed.
  unfoldable pub issue : Redemption → StoredChallenge → PowService f → Response × PowService f
  unfolding issue_with
  issue q sc s = issue_with q sc q.random (record s {
    store = if q.bump_fails then s.store else bump_ip_bonus sc.bind q.bump_now 8 s.store;
    diff = record_solve f (sub_ℕ q.now (sc.issued_at * second)) s.diff;
  })

  -- With whether the query fails, and what it says and leaves.
  unfoldable pub consumed :
      Redemption → StoredChallenge → Bool → Bool × Store → PowService f → Response × PowService f
  unfolding issue
  consumed q sc true r s = (failed 500 "internal_error", s)
  consumed q sc false (true, st) s = issue q sc (record s { store = st })
  consumed q sc false (false, st) s = (failed 409 "already_used", record s { store = st })

  unfoldable pub consume : Redemption → StoredChallenge → PowService f → Response × PowService f
  unfolding consumed
  consume q sc s = consumed q sc q.consume_fails (consume_challenge sc.id q.consume_now s.store) s

  -- The tests on the challenge, in their order: the first that fails.
  unfoldable pub refusal : Redemption → RedeemRequest → StoredChallenge → Option (ℕ × String)
  refusal q r sc =
      if ltb sc.expires_at (q.now / second)
      then some (410, "challenge_expired")
      else if sc.used
      then some (409, "already_used")
      else if ltb q.now (sc.issued_at * second + 500 * 10 ^ 6)
      then some (429, "too_fast")
      else if not (str_eq (binding_hash h enc q.ip q.user_agent) sc.bind)
      then some (403, "binding_mismatch")
      else if not (str_eq r.algo "" || str_eq r.algo sc.algo)
      then some (400, "invalid_algo")
      else if is_solved (verify h (to_challenge sc) r.counters)
      then none
      else some (400, "invalid_solution")

  unfoldable pub checked :
      Redemption → StoredChallenge → Option (ℕ × String) → PowService f → Response × PowService f
  unfolding consume
  checked q sc (some (status, code)) s = (failed status code, s)
  checked q sc none s = consume q sc s

  unfoldable pub redeem_row :
      Redemption → RedeemRequest → Option StoredChallenge → PowService f → Response × PowService f
  unfolding checked
  redeem_row q r none s = (failed 404 "unknown_challenge", s)
  redeem_row q r (some sc) s = checked q sc (refusal q r sc) s

  -- With whether the query fails.
  unfoldable pub redeem_found :
      Redemption → RedeemRequest → Bool → PowService f → Response × PowService f
  unfolding redeem_row
  redeem_found q r true s = (failed 500 "internal_error", s)
  redeem_found q r false s = redeem_row q r (get_challenge r.challenge_id s.store) s

  unfoldable pub redeem_body :
      Redemption → Option RedeemRequest → PowService f → Response × PowService f
  unfolding redeem_found
  redeem_body q none s = (failed 400 "invalid_json", s)
  redeem_body q (some r) s =
      if str_eq r.challenge_id ""
      then (failed 400 "invalid_request", s)
      else redeem_found q r q.get_fails s

  -- handleRedeem
  unfoldable pub handle_redeem : Redemption → PowService f → Response × PowService f
  unfolding redeem_body
  handle_redeem q s = redeem_body q q.body s
