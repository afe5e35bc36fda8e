-- ===== src/Pow/Examples.antt =====
-- The theorems on challenges, solutions and keys at concrete states.
use opencode_multi_agents.Prelude.{
  ℕ, ◌≤◌, ◌<◌, ◌≡◌, ◌↔◌, refl, String, true, false, some, [], ◌∷◌, arith, ◌+◌, ◌-◌, ◌*◌, ◌^◌, ltb,
  length, take, eq_iff, List,
}
use opencode_multi_agents.Prelude.Int.{pos, pos_part}
use opencode_multi_agents.Prelude.Map.{lookup}
use opencode_multi_agents.Pow.Bits.{satisfies}
use opencode_multi_agents.Pow.Bits.Value.{be_value, satisfies_iff}
use opencode_multi_agents.Pow.Challenge.{Hashes, verify, digest}
use opencode_multi_agents.Pow.Challenge.Verify.{Solvable, IsSolved, verify_iff}
use opencode_multi_agents.Pow.Difficulty.{Float, Difficulty, new_difficulty}
use opencode_multi_agents.Pow.Difficulty.Bounds.{IsBounded, new_difficulty-IsBounded}
use opencode_multi_agents.Pow.Store.{
  StoredChallenge, ApiKey, Store, to_challenge, consume_challenge, get_challenge, insert_api_key,
  bump_ip_bonus,
}
use opencode_multi_agents.Pow.Service.{PowConfig, Base64, PowService, lookup_key, binding_hash}
use opencode_multi_agents.Pow.Issue.{key_out}
use opencode_multi_agents.Pow.Redeem.{Redemption, handle_redeem, new_key, refusal}
use opencode_multi_agents.Pow.Redeem.Sound.{AreKeyed, Redeemed, handle_redeem-Redeemed}
use opencode_multi_agents.Pow.Redeem.Steps.{Event, look, go_on, payments}
use opencode_multi_agents.Pow.Redeem.Once.{payments-le}
use opencode_multi_agents.Pow.Redeem.Keys.{lookup_key-redeemed}

-- Whole numbers in place of floating-point ones.
abbrev pub whole : Float
whole = record {
  F = ℕ;
  zero = 0;
  literal = λ a b. a;
  add = λ a b. a + b;
  sub = λ a b. a - b;
  mul = λ a b. a * b;
  div = λ a b. a;
  lt = ltb;
  seconds = pos_part;
  of_int = λ n. n;
  truncate = pos;
}

-- Constant functions in place of the hashes and the encodings.
abbrev pub hashes : Hashes
hashes = record { sha256 = λ s. 0 ∷ 1 ∷ []; blake3 = λ s. 0 ∷ 1 ∷ [] }

abbrev pub base64 : Base64
base64 = record { raw_std = λ s. "B"; raw_url = λ s. "K" }

abbrev pub config : PowConfig
config = record {
  challenge_per_min = pos 3;
  challenge_per_day = pos 9;
  challenge_ttl = 60 * 10 ^ 9;
  key_ttl = 3600 * 10 ^ 9;
  plan1_difficulty = pos 0;
  plan2_difficulty = pos 2;
  plan3_difficulty = pos 4;
  plan1_rpm = pos 5;
  plan2_rpm = pos 10;
  plan3_rpm = pos 20;
  burst_rps = pos 1;
  burst_cooldown = pos 1000;
}

abbrev row : StoredChallenge
row = record {
  id = "c1";
  bind = "B";
  plan = "plus";
  algo = "sha256";
  difficulty = pos 3;
  salt = "S";
  issued_at = 0;
  expires_at = 100;
  used = false;
}

abbrev tables : Store
tables = record { pow_challenges = ("c1", row) ∷ []; api_keys = []; pow_ip_bonus = [] }

abbrev difficulty : Difficulty whole
difficulty = new_difficulty whole (pos 20) (pos 10) (pos 30) 30 90

abbrev pub service : PowService whole
service = record {
  store = tables;
  diff = difficulty;
  key_cache = [];
  ch_buckets = [];
  ch_daily = [];
  rpm_buckets = [];
  burst_win = ("B", 5 ∷ []) ∷ [];
  cooldowns = [];
  esc_window_start = 0;
  esc_window_count = 0;
}

abbrev pub request : Redemption
request = record {
  body = some (record { challenge_id = "c1"; algo = ""; counters = (b'7' ∷ []) ∷ [] });
  ip = "192.0.2.1";
  user_agent = "curl";
  now = 2 * 10 ^ 9;
  consume_now = 2;
  bump_now = 2;
  random = some [];
  get_fails = false;
  consume_fails = false;
  bump_fails = false;
  insert_fails = false;
}

abbrev pub issued : String × ApiKey
issued = new_key hashes base64 config "plus" (2 * 10 ^ 9) []

pub tables-AreKeyed : AreKeyed tables.pow_challenges
unfolding AreKeyed lookup
tables-AreKeyed = λ id sc e. ground (arith, e, eq_iff "c1" id)

pub redeemed :
    (handle_redeem whole hashes base64 config request service).0 ≡ key_out issued.0 issued.1
unfolding handle_redeem lookup get_challenge refusal binding_hash verify satisfies digest
    to_challenge consume_challenge insert_api_key bump_ip_bonus
redeemed = refl

handle_redeem-Redeemed_example :
    Redeemed whole hashes base64 config request service issued.0 issued.1
      (handle_redeem whole hashes base64 config request service).1
handle_redeem-Redeemed_example =
    handle_redeem-Redeemed whole hashes base64 config request service issued.0 issued.1
      tables-AreKeyed redeemed

-- Two redemptions pass the checks before either consumes the challenge.
abbrev racing : List Event
racing = look request ∷ look request ∷ go_on 1 ∷ go_on 0 ∷ []

payments-le_example :
    payments whole hashes base64 config "c1" racing (record { service = service; passing = [] }) ≤ 1
payments-le_example =
    payments-le whole hashes base64 config "c1" racing (record { service = service; passing = [] })
      (refl, (refl, (refl, (refl, tt))))

lookup_key-redeemed_example :
    lookup_key whole issued.1.key_hash
      (10 ^ 9)
      true
      (handle_redeem whole hashes base64 config request service).1
    ≡ (
      some (issued.1.plan, issued.1.rpm),
      (handle_redeem whole hashes base64 config request service).1,
    )
lookup_key-redeemed_example =
    lookup_key-redeemed whole hashes base64 config request service issued.0 issued.1 (10 ^ 9) true
      tables-AreKeyed redeemed

verify_iff_example :
    Solvable hashes (to_challenge row) (take 8 ((b'7' ∷ []) ∷ []))
    ↔ IsSolved (verify hashes (to_challenge row) ((b'7' ∷ []) ∷ [])) (to_challenge row).difficulty
verify_iff_example = verify_iff hashes (to_challenge row) ((b'7' ∷ []) ∷ [])

satisfies_iff_example :
    (satisfies (0 ∷ 1 ∷ []) (pos 15) ≡ true)
    ↔ (be_value (0 ∷ 1 ∷ []) * 2 ^ 15 < 256 ^ length {A = ℕ} (0 ∷ 1 ∷ []))
satisfies_iff_example = satisfies_iff (0 ∷ 1 ∷ []) 15 (omega arith, (omega arith, tt)) (omega arith)

difficulty-IsBounded : IsBounded whole difficulty
difficulty-IsBounded = new_difficulty-IsBounded whole (pos 20) (pos 10) (pos 30) 30 90

abbrev raised : Difficulty whole
raised = record difficulty { escalation = pos 2; escalate_until = 9 }
