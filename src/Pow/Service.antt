-- ===== src/Pow/Service.antt =====
-- internal/handler/pow.go: the service's configuration and state, the keys it looks up, and the
-- plans. Readings of the clock are nanoseconds since the epoch; the tables hold Unix seconds.
use opencode_multi_agents.Prelude.{
  ℕ, ltb, String, Bool, true, false, Option, none, some, List, ◌∷◌, ◌++◌, str_eq, if◌then◌else◌,
  take,
}
use opencode_multi_agents.Prelude.Int.{ℤ, pos, negsuc}
use opencode_multi_agents.Prelude.Map.{Map, lookup, insert}
use opencode_multi_agents.Prelude.Text.{bytes_of}
use opencode_multi_agents.Pow.Challenge.{Hashes}
use opencode_multi_agents.Pow.Difficulty.{Float, Difficulty}
use opencode_multi_agents.Pow.Store.{ApiKey, Store, get_api_key}

-- The settings that the service reads.
pub record PowConfig : Type 0 where
  pub challenge_per_min : ℤ
  pub challenge_per_day : ℤ
  pub challenge_ttl : ℕ
  pub key_ttl : ℕ
  pub plan1_difficulty : ℤ
  pub plan2_difficulty : ℤ
  pub plan3_difficulty : ℤ
  pub plan1_rpm : ℤ
  pub plan2_rpm : ℤ
  pub plan3_rpm : ℤ
  pub burst_rps : ℤ
  pub burst_cooldown : ℤ

-- Base64 without padding, in the standard and in the URL alphabet: the standard library's.
pub record Base64 : Type 0 where
  pub raw_std : List ℕ → String
  pub raw_url : List ℕ → String

-- max1, whose result is never negative
unfoldable pub max1 : ℤ → ℕ
max1 (negsuc n) = 1
max1 (pos n) = if ltb n 1 then 1 else n

-- planBits
unfoldable pub plan_bits : PowConfig → String → ℤ
plan_bits cfg plan =
    if str_eq plan "plus"
    then cfg.plan2_difficulty
    else if str_eq plan "pro"
    then cfg.plan3_difficulty
    else cfg.plan1_difficulty

-- planRPM
unfoldable pub plan_rpm : PowConfig → String → ℕ
unfolding max1
plan_rpm cfg plan =
    if str_eq plan "plus"
    then max1 cfg.plan2_rpm
    else if str_eq plan "pro"
    then max1 cfg.plan3_rpm
    else max1 cfg.plan1_rpm

-- BindingHash
unfoldable pub binding_hash : Hashes → Base64 → String → String → String
binding_hash h enc ip user_agent =
    enc.raw_std (
      take 16 (h.blake3 (bytes_of "pow-bind-v1|" ++ (bytes_of ip ++ (b'|' ∷ bytes_of user_agent)))))

-- KeyHash
unfoldable pub key_hash_of : Hashes → Base64 → String → String
key_hash_of h enc key = enc.raw_std (h.sha256 (bytes_of key))

module _ (f : Float) where
  open f use {F}

  pub record TokenBucket : Type 0 where
    pub tokens : F
    pub last : ℕ
    pub rps : F
    pub cap : F

  pub record DailyCount : Type 0 where
    pub day : String
    pub n : ℕ
    pub limit : ℕ

  pub record RpmBucket : Type 0 where
    pub tokens : F
    pub last : ℕ
    pub rpm : F

  -- PoWService
  pub record PowService : Type 0 where
    pub store : Store
    pub diff : Difficulty f
    pub key_cache : Map ApiKey
    pub ch_buckets : Map TokenBucket
    pub ch_daily : Map DailyCount
    pub rpm_buckets : Map RpmBucket
    pub burst_win : Map (List ℕ)
    pub cooldowns : Map ℕ
    pub esc_window_start : ℕ
    pub esc_window_count : ℕ

  -- cacheKey
  unfoldable pub cache_key : ApiKey → PowService → PowService
  cache_key k s = record s { key_cache = insert k.key_hash k s.key_cache }

  fetched_key : String → Option ApiKey → PowService → Option (String × ℕ) × PowService
  fetched_key key_hash none s = (none, s)
  fetched_key key_hash (some k) s =
      (some (k.plan, k.rpm), record s { key_cache = insert key_hash k s.key_cache })

  found_key : String → ℕ → Bool → Option ApiKey → PowService → Option (String × ℕ) × PowService
  unfolding fetched_key
  found_key key_hash now fails (some k) s = (some (k.plan, k.rpm), s)
  found_key key_hash now true none s = (none, s)
  found_key key_hash now false none s = fetched_key key_hash (get_api_key key_hash now s.store) s

  -- LookupKey, with the time in Unix seconds and whether the query fails: the plan and its rate
  unfoldable pub lookup_key : String → ℕ → Bool → PowService → Option (String × ℕ) × PowService
  unfolding found_key
  lookup_key key_hash now fails s = found_key key_hash now fails (lookup key_hash s.key_cache) s
