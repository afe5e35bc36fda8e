-- ===== src/Pow/Redeem/Keys.antt =====
-- How long an issued key is accepted.
use opencode_multi_agents.Prelude.{ℕ, ◌≡◌, String, Bool, some, refl}
use opencode_multi_agents.Pow.Challenge.{Hashes}
use opencode_multi_agents.Pow.Difficulty.{Float}
use opencode_multi_agents.Pow.Store.{ApiKey}
use opencode_multi_agents.Prelude.Map.{lookup}
use opencode_multi_agents.Pow.Service.{PowConfig, Base64, PowService, lookup_key}
use opencode_multi_agents.Pow.Issue.{key_out}
use opencode_multi_agents.Pow.Redeem.{Redemption, handle_redeem}
use opencode_multi_agents.Pow.Redeem.Sound.{AreKeyed, handle_redeem-Redeemed}

module _ (f : Float) where
  cached :
      (key_hash : String) (k : ApiKey) (now : ℕ) (fails : Bool) (s : PowService f)
      → lookup key_hash s.key_cache ≡ some k
      → lookup_key f key_hash now fails s ≡ (some (k.plan, k.rpm), s)
  unfolding lookup_key
  cached key_hash k now fails s e = rw e refl

  -- A key that was just issued is accepted with its plan and rate, at every time, also after it has
  -- expired and also if the table cannot be read: the cache is not checked for the key's end.
  pub lookup_key-redeemed :
      (h : Hashes) (enc : Base64) (cfg : PowConfig) (q : Redemption) (s : PowService f)
      (key : String) (k : ApiKey) (now : ℕ) (fails : Bool)
      → AreKeyed s.store.pow_challenges
      → (handle_redeem f h enc cfg q s).0 ≡ key_out key k
      → lookup_key f k.key_hash now fails (handle_redeem f h enc cfg q s).1
        ≡ (some (k.plan, k.rpm), (handle_redeem f h enc cfg q s).1)
  lookup_key-redeemed h enc cfg q s key k now fails a e =
      cached k.key_hash k now fails (handle_redeem f h enc cfg q s).1
        (handle_redeem-Redeemed f h enc cfg q s key k a e).kept.1
