-- ===== src/Pow/Limits.antt =====
-- internal/handler/pow.go: checkKeyLimits, with the time in nanoseconds.
pub mod Window
use opencode_multi_agents.Prelude.{
  ℕ, ◌+◌, String, ◌&&◌, not, Option, none, some, List, [], ◌∷◌, ◌++◌, ltb, if◌then◌else◌, length,
}
use opencode_multi_agents.Prelude.Int.{ℤ, pos, sub_ℕ, ltb_ℤ, pos_part}
use opencode_multi_agents.Prelude.Map.{lookup, insert, delete}
use opencode_multi_agents.Pow.Difficulty.{Float}
use opencode_multi_agents.Pow.Service.{PowConfig, PowService, RpmBucket}
use opencode_multi_agents.Pow.Issue.{second}

-- What a request for a key is told: nothing, or how long to wait, and why.
pub data Verdict : Type 0 where
  pass : Verdict
  key_cooldown : ℤ → Verdict
  rate_limited : ℤ → Verdict

-- The times after `now - 1s`: `ts > cutoff`.
abbrev pub recent : ℕ → List ℕ → List ℕ
recent now [] = []
recent now (t ∷ ts) = let rest = recent now ts in if ltb now (t + second) then t ∷ rest else rest

abbrev pub window : Option (List ℕ) → List ℕ
window none = []
window (some ts) = ts

module _ (f : Float) (cfg : PowConfig) where
  open f use {F, literal, add, sub, mul, div, lt, seconds, of_int, truncate}

  new_rpm : ℕ → ℤ → Option (RpmBucket f) → RpmBucket f
  new_rpm now rpm (some b) = b
  new_rpm now rpm none = record {
    tokens = of_int (pos_part rpm);
    last = now;
    rpm = of_int (pos_part rpm);
  }

  -- The bucket of the plan's rate.
  unfoldable pub charge : String → ℤ → ℕ → PowService f → Verdict × PowService f
  unfolding new_rpm
  charge key_hash rpm now s =
      let b = new_rpm now rpm (lookup key_hash s.rpm_buckets) in
      let filled = add b.tokens (mul (seconds (sub_ℕ now b.last)) (div b.rpm (literal 60 1))) in
      let tokens = if lt b.rpm filled then b.rpm else filled in
      if lt tokens (literal 1 1)
      then (
        rate_limited (truncate (mul (div (sub (literal 1 1) tokens) b.rpm) (literal second 1))),
        record s {
          rpm_buckets = insert key_hash (record b { tokens = tokens; last = now }) s.rpm_buckets;
        },
      )
      else (
        pass,
        record s {
          rpm_buckets =
              insert key_hash (record b { tokens = sub tokens (literal 1 1); last = now })
                s.rpm_buckets;
        },
      )

  -- The burst window: more requests than allowed within a second start a cooldown.
  unfoldable pub burst : String → ℤ → ℕ → PowService f → Verdict × PowService f
  unfolding charge
  burst key_hash rpm now s =
      let ts = recent now (window (lookup key_hash s.burst_win)) ++ (now ∷ []) in
      if not (ltb_ℤ (pos 0) cfg.burst_rps && ltb_ℤ (pos 0) cfg.burst_cooldown)
      then charge key_hash rpm now s
      else if ltb_ℤ cfg.burst_rps (pos (length ts))
      then (
        key_cooldown cfg.burst_cooldown,
        record s {
          cooldowns = insert key_hash (now + pos_part cfg.burst_cooldown) s.cooldowns;
          burst_win = insert key_hash [] s.burst_win;
        },
      )
      else charge key_hash rpm now (record s { burst_win = insert key_hash ts s.burst_win })

  -- An active cooldown. The wait is read off the clock again, `later`.
  unfoldable pub cooling : String → ℤ → ℕ → ℕ → Option ℕ → PowService f → Verdict × PowService f
  unfolding burst
  cooling key_hash rpm now later none s = burst key_hash rpm now s
  cooling key_hash rpm now later (some until) s =
      if ltb now until
      then (key_cooldown (sub_ℕ until later), s)
      else burst key_hash rpm now (record s { cooldowns = delete key_hash s.cooldowns })

  -- checkKeyLimits
  unfoldable pub check_key_limits : String → ℤ → ℕ → ℕ → PowService f → Verdict × PowService f
  unfolding cooling
  check_key_limits key_hash rpm now later s =
      if not (ltb_ℤ (pos 0) rpm)
      then (pass, s)
      else cooling key_hash rpm now later (lookup key_hash s.cooldowns) s
