-- ===== src/Pow/Redeem/Steps.antt =====
-- internal/handler/pow.go: handleRedeem in two steps, as other requests run between its reading of the
-- challenge and the statement that consumes it. What follows that statement runs at once: it reads and
-- writes no challenge.
use opencode_multi_agents.Prelude.{
  ℕ, zero, suc, ◌+◌, ◌&&◌, String, Bool, true, false, Option, none, some, List, [], ◌∷◌, ◌++◌,
  str_eq, if◌then◌else◌, get_elem?,
}
use opencode_multi_agents.Pow.Challenge.{Hashes}
use opencode_multi_agents.Pow.Difficulty.{Float}
use opencode_multi_agents.Pow.Store.{StoredChallenge, get_challenge, cleanup_expired}
use opencode_multi_agents.Pow.Service.{PowConfig, Base64, PowService}
use opencode_multi_agents.Pow.Issue.{Response, key_out, handle_challenge, ChallengeRequest}
use opencode_multi_agents.Pow.Redeem.{RedeemRequest, Redemption, consume, refusal}

-- The service, and the redemptions that have passed the checks, with the challenge as they read it.
pub record Running (f : Float) : Type 0 where
  pub service : PowService f
  pub passing : List (Redemption × StoredChallenge)

-- A step of the service: a redemption reads its challenge and makes its checks; the n-th of those that
-- have passed them goes on; a challenge is asked for; or a clean-up.
pub data Event : Type 0 where
  look : Redemption → Event
  go_on : ℕ → Event
  ask : ChallengeRequest → Event
  clean : ℕ → ℕ → Event

abbrev pub is_key : Response → Bool
is_key (key_out key k) = true
is_key _ = false

abbrev pub mints : String → Event → Bool
mints id (ask q) = str_eq q.id id
mints id _ = false

abbrev pub taken_out : ℕ → List (Redemption × StoredChallenge) → List (Redemption × StoredChallenge)
taken_out n [] = []
taken_out zero (x ∷ xs) = xs
taken_out (suc n) (x ∷ xs) = x ∷ taken_out n xs

module _ (f : Float) (h : Hashes) (enc : Base64) (cfg : PowConfig) where
  abbrev pub unrefused : StoredChallenge → Option (ℕ × String) → Option StoredChallenge
  unrefused sc none = some sc
  unrefused sc (some refused) = none

  abbrev pub row_passed :
      Redemption → RedeemRequest → Option StoredChallenge → Option StoredChallenge
  row_passed q r none = none
  row_passed q r (some sc) = unrefused sc (refusal f h enc cfg q r sc)

  abbrev pub found_passed :
      Redemption → RedeemRequest → Bool → PowService f → Option StoredChallenge
  found_passed q r true s = none
  found_passed q r false s = row_passed q r (get_challenge r.challenge_id s.store)

  abbrev pub body_passed : Redemption → Option RedeemRequest → PowService f → Option StoredChallenge
  body_passed q none s = none
  body_passed q (some r) s =
      if str_eq r.challenge_id "" then none else found_passed q r q.get_fails s

  -- The first step of handleRedeem: the challenge, if the checks are passed.
  unfoldable pub passed : Redemption → PowService f → Option StoredChallenge
  passed q s = body_passed q q.body s

  abbrev pub looked : Redemption → Option StoredChallenge → Running f → Running f
  looked q none t = t
  looked q (some sc) t = record t { passing = t.passing ++ (q, sc) ∷ [] }

  abbrev pub finished : ℕ → Option (Redemption × StoredChallenge) → Running f → Running f
  finished n none t = t
  finished n (some (q, sc)) t = record {
    service = (consume f h enc cfg q sc t.service).1;
    passing = taken_out n t.passing;
  }

  unfoldable pub react : Event → Running f → Running f
  unfolding passed
  react (look q) t = looked q (passed q t.service) t
  react (go_on n) t = finished n (get_elem? t.passing n) t
  react (ask q) t = record t { service = (handle_challenge f h enc cfg q t.service).1 }
  react (clean now now') t = record t {
    service = record t.service { store = cleanup_expired now now' t.service.store };
  }

  abbrev pub earned : String → Option (Redemption × StoredChallenge) → PowService f → ℕ
  earned id none s = 0
  earned id (some (q, sc)) s =
      if str_eq sc.id id && is_key (consume f h enc cfg q sc s).0 then 1 else 0

  -- One if the step answers a redemption of the challenge with a key.
  unfoldable pub paid : String → Event → Running f → ℕ
  paid id (go_on n) t = earned id (get_elem? t.passing n) t.service
  paid id _ t = 0

  -- The keys that a challenge has earned after some steps.
  unfoldable pub payments : String → List Event → Running f → ℕ
  unfolding react paid
  payments id [] t = 0
  payments id (e ∷ es) t = paid id e t + payments id es (react e t)
