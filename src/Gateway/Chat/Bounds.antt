-- ===== src/Gateway/Chat/Bounds.antt =====
-- How often a chat request is sent.
use opencode_multi_agents.Prelude.{
  ℕ, zero, suc, ◌+◌, ◌≤◌, ◌≡◌, refl, String, Bool, true, false, ◌&&◌, Option, none, some, List,
  arith, ltb, tally,
}
use opencode_multi_agents.Gateway.Chat.{
  Reply, limited, broken, responded, Surroundings, Action, request, acquire, release, Outcome,
  answered, throttled, Attempts, give_up, hand_back, released_first, holding, swap, limited_by,
  broken_by, replied, try_once, round, attempts, chat,
}

abbrev pub is_request : Action → Bool
is_request (request p) = true
is_request _ = false

abbrev pub is_acquire : Action → Bool
is_acquire (acquire p) = true
is_acquire _ = false

abbrev pub is_release : Action → Bool
is_release (release p) = true
is_release _ = false

abbrev pub requests : List Action × Outcome → ℕ
requests r = tally is_request r.0

module _ (env : Surroundings) where
  give_up-requests : (o : Option String) (st : Attempts) → requests (give_up o st) ≡ 0
  unfolding give_up
  give_up-requests none st = refl
  give_up-requests (some own) st = refl

  hand_back-requests : (o : Option String) (out : Outcome) → requests (hand_back o out) ≡ 0
  unfolding hand_back
  hand_back-requests none out = refl
  hand_back-requests (some own) out = refl

  released_first-requests :
      (o : Option String) (r : List Action × Outcome) (n : ℕ)
      → requests r ≤ n
      → requests (released_first o r) ≤ n
  released_first-requests none r n h = omega arith
  released_first-requests (some own) r n h = h

  broken_by-requests :
      (o : Option String) (n : ℕ) (again : Attempts → List Action × Outcome) (st : Attempts)
      → ((st : Attempts) → requests (again st) ≤ n)
      → requests (broken_by env o again st) ≤ n
  unfolding broken_by
  broken_by-requests none n again st h = h (record st { proxy = none })
  broken_by-requests (some p) n again st h =
      released_first-requests st.own_proxy
        (again (record st { proxy = some p; own_proxy = some p })) n
        (h (record st { proxy = some p; own_proxy = some p }))

  replied-requests :
      (attempt n : ℕ) (p : String) (reply : Reply) (again : Attempts → List Action × Outcome)
      (st : Attempts)
      → ((st : Attempts) → requests (again st) ≤ n)
      → requests (replied env attempt p reply again st) ≤ n
  unfolding replied limited_by broken_by
  replied-requests attempt n p limited again st h =
      ground
        (arith, h (record st { rate_limited = true }), hand_back-requests st.own_proxy throttled)
  replied-requests attempt n p broken again st h =
      broken_by-requests (env.fresh attempt) n again st h
  replied-requests attempt n p (responded status) again st h = ground (
    arith,
    h (record st { last_upstream = some status }),
    hand_back-requests st.own_proxy (answered status),
  )

  swap-requests :
      (b : Bool) (o : Option String) (n : ℕ) (again : Attempts → List Action × Outcome)
      (st : Attempts)
      → ((st : Attempts) → requests (again st) ≤ n)
      → requests (swap env b o again st) ≤ n
  unfolding swap
  swap-requests false o n again st h =
      omega (arith, give_up-requests st.own_proxy (record st { rate_limited = false }))
  swap-requests true none n again st h =
      omega (arith, give_up-requests none (record st { own_proxy = none; rate_limited = false }))
  swap-requests true (some p) n again st h = h (holding p st)

  try_once-requests :
      (attempt n : ℕ) (o : Option String) (again : Attempts → List Action × Outcome) (st : Attempts)
      → ((st : Attempts) → requests (again st) ≤ n)
      → requests (try_once env attempt o again st) ≤ suc n
  unfolding try_once
  try_once-requests attempt n none again st h = omega arith
  try_once-requests attempt n (some p) again st h =
      omega (arith, replied-requests attempt n p (env.send attempt p) again st h)

  round-requests :
      (b : Bool) (attempt n : ℕ) (again : Attempts → List Action × Outcome) (st : Attempts)
      → ((st : Attempts) → requests (again st) ≤ n)
      → requests (round env b attempt again st) ≤ suc n
  unfolding round
  round-requests true attempt n again st h =
      omega (arith, swap-requests (env.in_time attempt) (env.fresh attempt) n again st h)
  round-requests false attempt n again st h = try_once-requests attempt n st.proxy again st h

  attempts-requests :
      (left attempt : ℕ) (st : Attempts) → requests (attempts env left attempt st) ≤ left
  unfolding attempts
  attempts-requests zero attempt st = omega (arith, give_up-requests st.own_proxy st)
  attempts-requests (suc left) attempt st =
      let again : Attempts → List Action × Outcome = attempts env left (attempt + 1) in
      let h : (st : Attempts) → requests (again st) ≤ left = attempts-requests left (attempt + 1) in
      round-requests (ltb 0 attempt && st.rate_limited) attempt left again st h

  -- Whatever the pool and the upstream do, a chat request ends, and is sent upstream at most
  -- MaxRetries + 1 times.
  pub chat-requests : (p : String) → requests (chat env p) ≤ suc env.max_retries
  unfolding chat
  chat-requests p = attempts-requests (suc env.max_retries) 0 _
