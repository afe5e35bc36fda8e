-- ===== src/Pow/Issue.antt =====
-- internal/handler/pow.go: tokenBucket, dailyCount and handleChallenge. The plan and the algorithm
-- of a request are as they are after TrimSpace and ToLower.
use opencode_multi_agents.Prelude.{
  ℕ, ◌+◌, ◌*◌, ◌/◌, ◌^◌, String, Bool, true, false, ◌&&◌, not, Option, none, some, ltb, leb, str_eq,
  if◌then◌else◌,
}
use opencode_multi_agents.Prelude.Int.{ℤ, pos, sub_ℕ, pos_part, ltb_ℤ}
use opencode_multi_agents.Prelude.Map.{lookup, insert}
use opencode_multi_agents.Pow.Challenge.{Challenge, Hashes, valid_plan, valid_algo}
use opencode_multi_agents.Pow.Difficulty.{Float, current, escalate}
use opencode_multi_agents.Pow.Store.{
  StoredChallenge, ApiKey, Store, to_challenge, insert_challenge, ip_bonus,
}
use opencode_multi_agents.Pow.Service.{
  PowConfig, Base64, PowService, TokenBucket, DailyCount, max1, plan_bits, binding_hash,
}

pub data Response : Type 0 where
  failed : ℕ → String → Response
  -- 429, with the duration for `Retry-After` in nanoseconds
  throttled : ℤ → Response
  challenge_out : Challenge → Response
  key_out : String → ApiKey → Response

abbrev pub second : ℕ
second = 10 ^ 9

-- A request for a challenge: the client, the clock (`day` as YYYY-MM-DD, `bonus_now` in Unix
-- seconds, and the four readings in Escalate), what is drawn at random, and which query fails.
pub record ChallengeRequest : Type 0 where
  pub ip : String
  pub user_agent : String
  pub plan : String
  pub algo : String
  pub now : ℕ
  pub day : String
  pub clock : ℕ × ℕ × ℕ × ℕ
  pub bonus_now : ℕ
  pub bonus_fails : Bool
  pub salt : Option String
  pub id : String
  pub insert_fails : Bool

abbrev pub or_default : String → String → String
or_default given default = if str_eq given "" then default else given

module _ (f : Float) (h : Hashes) (enc : Base64) (cfg : PowConfig) where
  open f use {F, zero, literal, add, sub, mul, div, lt, seconds, of_int, truncate}

  -- tokenBucket.allow
  unfoldable pub bucket_allow : ℕ → TokenBucket f → Bool × ℤ × TokenBucket f
  bucket_allow now b =
      let filled = add b.tokens (mul (seconds (sub_ℕ now b.last)) b.rps) in
      let tokens = if lt b.cap filled then b.cap else filled in
      if not (lt tokens (literal 1 1))
      then (true, pos 0, record b { tokens = sub tokens (literal 1 1); last = now })
      else (
        false,
        truncate (mul (div (sub (literal 1 1) tokens) b.rps) (literal second 1)),
        record b { tokens = tokens; last = now },
      )

  -- dailyCount.allow
  unfoldable pub daily_allow : String → DailyCount f → Bool × DailyCount f
  daily_allow today d =
      let n = if str_eq d.day today then d.n else 0 in
      if leb d.limit n
      then (false, record d { day = today; n = n })
      else (true, record d { day = today; n = n + 1 })

  new_bucket : ℕ → Option (TokenBucket f) → TokenBucket f
  new_bucket now (some b) = b
  new_bucket now none =
      let per_min = of_int (max1 cfg.challenge_per_min) in
      record { tokens = per_min; last = now; rps = div per_min (literal 60 1); cap = per_min }

  new_daily : Option (DailyCount f) → DailyCount f
  new_daily (some d) = d
  new_daily none = record { day = ""; n = 0; limit = max1 cfg.challenge_per_day }

  -- The escalation valve.
  unfoldable pub count_flood : ChallengeRequest → PowService f → PowService f
  count_flood q s =
      let over = ltb (s.esc_window_start + 60 * second) q.now in
      let start = if over then q.now else s.esc_window_start in
      let count = (if over then 0 else s.esc_window_count) + 1 in
      let flood =
        ltb_ℤ (pos 0) cfg.challenge_per_min && ltb (pos_part cfg.challenge_per_min * 10) count in
      record s {
        esc_window_start = start;
        esc_window_count = count;
        diff =
            if flood
            then escalate f q.clock.0 q.clock.1 q.clock.2 q.clock.3 (pos 2) (15 * 60 * second)
                s.diff
            else s.diff;
      }

  -- The rate limit of a client: whether it passes, and how long to wait. Both counters are charged
  -- in any case.
  unfoldable pub count_client : ChallengeRequest → PowService f → Bool × ℤ × PowService f
  unfolding new_bucket new_daily bucket_allow daily_allow
  count_client q s =
      let b = bucket_allow q.now (new_bucket q.now (lookup q.ip s.ch_buckets)) in
      let d = daily_allow q.day (new_daily (lookup q.ip s.ch_daily)) in
      (
        b.0 && d.0,
        b.1,
        record s {
          ch_buckets = insert q.ip b.2 s.ch_buckets;
          ch_daily = insert q.ip d.1 s.ch_daily;
        },
      )

  unfoldable pub minted :
      Bool → StoredChallenge → Option Store → PowService f → Response × PowService f
  minted true sc o s = (failed 500 "internal_error", s)
  minted false sc none s = (failed 500 "internal_error", s)
  minted false sc (some st) s = (challenge_out (to_challenge sc), record s { store = st })

  unfoldable pub mint :
      ChallengeRequest → String → String → Option String → PowService f → Response × PowService f
  unfolding minted
  mint q plan algo none s = (failed 500 "internal_error", s)
  mint q plan algo (some salt) s =
      let bind = binding_hash h enc q.ip q.user_agent in
      let bonus = if q.bonus_fails then 0 else ip_bonus bind q.bonus_now s.store in
      let sc : StoredChallenge = record {
        id = q.id;
        bind = bind;
        plan = plan;
        algo = algo;
        difficulty = current f (plan_bits cfg plan) (pos bonus) s.diff;
        salt = salt;
        issued_at = q.now / second;
        expires_at = (q.now + cfg.challenge_ttl) / second;
        used = false;
      } in
      minted q.insert_fails sc (insert_challenge sc s.store) s

  unfoldable pub admit : ChallengeRequest → Bool × ℤ × PowService f → Response × PowService f
  unfolding mint
  admit q (false, wait, s) = (throttled wait, s)
  admit q (true, wait, s) =
      let plan = or_default q.plan "basic" in
      let algo = or_default q.algo "sha256" in
      if not (valid_plan plan)
      then (failed 400 "invalid_plan", s)
      else if not (valid_algo algo)
      then (failed 400 "invalid_algo", s)
      else mint q plan algo q.salt s

  -- handleChallenge
  unfoldable pub handle_challenge : ChallengeRequest → PowService f → Response × PowService f
  unfolding admit
  handle_challenge q s = admit q (count_client q (count_flood q s))
