-- ===== src/Pow/Store.antt =====
-- internal/pow/store.go: the tables, and each SQL statement by what it selects and changes. Times
-- are Unix seconds. A row is found by its primary key. An error of the database changes nothing
-- and is the caller's (Pow/Service).
pub mod Keys
use opencode_multi_agents.Prelude.{
  ℕ, suc, ◌+◌, ◌-◌, ◌*◌, String, Bool, true, false, ◌&&◌, ◌||◌, not, Option, none, some, List, [],
  ◌∷◌, ltb, if◌then◌else◌, min,
}
use opencode_multi_agents.Prelude.Int.{ℤ}
use opencode_multi_agents.Prelude.Map.{Map, lookup, insert, delete}
use opencode_multi_agents.Pow.Challenge.{Challenge}

pub record StoredChallenge : Type 0 where
  pub id : String
  pub bind : String
  pub plan : String
  pub algo : String
  pub difficulty : ℤ
  pub salt : String
  pub issued_at : ℕ
  pub expires_at : ℕ
  pub used : Bool

-- A row of `api_keys`.
pub record ApiKey : Type 0 where
  pub key_hash : String
  pub prefix : String
  pub plan : String
  pub rpm : ℕ
  pub created_at : ℕ
  pub expires_at : ℕ
  pub disabled : Bool

pub record IpBonus : Type 0 where
  pub bonus_bits : ℕ
  pub updated_at : ℕ

pub record Store : Type 0 where
  pub pow_challenges : Map StoredChallenge
  pub api_keys : Map ApiKey
  pub pow_ip_bonus : Map IpBonus

-- ToChallenge
unfoldable pub to_challenge : StoredChallenge → Challenge
to_challenge sc = record {
  version = 1;
  id = sc.id;
  resource = "api-key";
  algo = sc.algo;
  difficulty = sc.difficulty;
  salt = sc.salt;
  bind = sc.bind;
  issued_at = sc.issued_at;
  expires_at = sc.expires_at;
  plan = sc.plan;
}

unfoldable pub insert_challenge_row :
    StoredChallenge → Option StoredChallenge → Store → Option Store
insert_challenge_row sc (some _) s = none
insert_challenge_row sc none s =
    some (record s { pow_challenges = insert sc.id (record sc { used = false }) s.pow_challenges })

-- InsertChallenge; `none` where the ID is taken
unfoldable pub insert_challenge : StoredChallenge → Store → Option Store
unfolding insert_challenge_row
insert_challenge sc s = insert_challenge_row sc (lookup sc.id s.pow_challenges) s

-- GetChallenge
unfoldable pub get_challenge : String → Store → Option StoredChallenge
get_challenge id s = lookup id s.pow_challenges

-- `used = 0 AND expires_at > now`
abbrev pub consumable : ℕ → StoredChallenge → Bool
consumable now sc = not sc.used && ltb now sc.expires_at

unfoldable pub consume_row : String → ℕ → Option StoredChallenge → Store → Bool × Store
consume_row id now none s = (false, s)
consume_row id now (some sc) s =
    if consumable now sc
    then (
      true,
      record s { pow_challenges = insert id (record sc { used = true }) s.pow_challenges },
    )
    else (false, s)

-- ConsumeChallenge: whether a row was changed
unfoldable pub consume_challenge : String → ℕ → Store → Bool × Store
unfolding consume_row
consume_challenge id now s = consume_row id now (lookup id s.pow_challenges) s

-- The rows that stay: those that go are deleted by their IDs.
unfoldable pub keep_challenges : ℕ → Map StoredChallenge → Map StoredChallenge
keep_challenges cutoff [] = []
keep_challenges cutoff ((id, sc) ∷ rest) =
    let kept = keep_challenges cutoff rest in
    if ltb sc.expires_at cutoff then delete id kept else (id, sc) ∷ kept

keep_keys : ℕ → Map ApiKey → Map ApiKey
keep_keys now [] = []
keep_keys now ((h, k) ∷ rest) =
    let kept = keep_keys now rest in
    if ltb k.expires_at now || k.disabled then delete h kept else (h, k) ∷ kept

-- CleanupExpired: challenges that ended two hours ago, and keys that ended or are disabled
unfoldable pub cleanup_expired : ℕ → ℕ → Store → Store
unfolding keep_challenges keep_keys
cleanup_expired now now' s = record s {
  pow_challenges = keep_challenges (now - 7200) s.pow_challenges;
  api_keys = keep_keys now' s.api_keys;
}

unfoldable pub insert_key_row : ApiKey → Option ApiKey → Store → Option Store
insert_key_row k (some _) s = none
insert_key_row k none s =
    some (record s { api_keys = insert k.key_hash (record k { disabled = false }) s.api_keys })

-- InsertAPIKey; `none` where the hash is taken
unfoldable pub insert_api_key : ApiKey → Store → Option Store
unfolding insert_key_row
insert_api_key k s = insert_key_row k (lookup k.key_hash s.api_keys) s

-- `disabled = 0 AND expires_at > now`
abbrev pub live : ℕ → ApiKey → Bool
live now k = not k.disabled && ltb now k.expires_at

live_row : ℕ → Option ApiKey → Option ApiKey
live_row now none = none
live_row now (some k) = if live now k then some k else none

-- GetAPIKey
unfoldable pub get_api_key : String → ℕ → Store → Option ApiKey
unfolding live_row
get_api_key key_hash now s = live_row now (lookup key_hash s.api_keys)

live_keys : ℕ → Map ApiKey → List ApiKey
live_keys now [] = []
live_keys now ((h, k) ∷ rest) =
    let more = live_keys now rest in if live now k then k ∷ more else more

-- ListAPIKeys
unfoldable pub list_api_keys : ℕ → Store → List ApiKey
unfolding live_keys
list_api_keys now s = live_keys now s.api_keys

bumped : ℕ → ℕ → Option IpBonus → IpBonus
bumped now most none = record { bonus_bits = 1; updated_at = now }
bumped now most (some b) = record { bonus_bits = min (b.bonus_bits + 1) most; updated_at = now }

-- BumpIPBonus
unfoldable pub bump_ip_bonus : String → ℕ → ℕ → Store → Store
unfolding bumped
bump_ip_bonus ip_hash now most s = record s {
  pow_ip_bonus = insert ip_hash (bumped now most (lookup ip_hash s.pow_ip_bonus)) s.pow_ip_bonus;
}

bonus_row : ℕ → Option IpBonus → ℕ
bonus_row now none = 0
bonus_row now (some b) = if ltb now (b.updated_at + 24 * 3600) then b.bonus_bits else 0

-- IPBonus: `updated_at > now - 24h`
unfoldable pub ip_bonus : String → ℕ → Store → ℕ
unfolding bonus_row
ip_bonus ip_hash now s = bonus_row now (lookup ip_hash s.pow_ip_bonus)
