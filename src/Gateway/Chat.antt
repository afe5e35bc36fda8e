-- ===== src/Gateway/Chat.antt =====
-- internal/handler/handler.go: handleChatCompletions, from the first proxy on. What the pool and the
-- upstream answer is a parameter, by the number of the attempt. A proxy is its ID; `none` is nil. The
-- delay before a retry, the request's body and the relay of the response are left out.
pub mod Bounds
pub mod Owned
pub mod Limits
use opencode_multi_agents.Prelude.{
  ℕ, zero, suc, ◌+◌, String, Bool, true, false, ◌&&◌, not, Option, none, some, List, [], ◌∷◌, ltb,
  leb, if◌then◌else◌,
}

-- What `client.Do` reports: a rate limit, an error, or a response with its status.
pub data Reply : Type 0 where
  limited : Reply
  broken : Reply
  responded : ℕ → Reply

-- `fresh` is the result of the GetProxy of an attempt, and `in_time` says whether the deadline for a
-- fresh proxy is still ahead then.
pub record Surroundings : Type 0 where
  pub send : ℕ → String → Reply
  pub fresh : ℕ → Option String
  pub in_time : ℕ → Bool
  pub public_tier : Bool
  pub max_retries : ℕ

-- What the handler does to the upstream and the pool: `replace` takes a proxy in place of one that
-- was banned, and `acquire` in place of one that broke.
pub data Action : Type 0 where
  request ban fail replace acquire release : String → Action

-- The response: relayed from upstream, 429, the last 5xx of upstream, or 502; or a nil dereference.
pub data Outcome : Type 0 where
  answered : ℕ → Outcome
  throttled : Outcome
  relayed : ℕ → Outcome
  bad_gateway : Outcome
  panicked : Outcome

pub record Attempts : Type 0 where
  pub proxy : Option String
  pub own_proxy : Option String
  pub rate_limited : Bool
  pub last_upstream : Option ℕ

abbrev pub relay : Bool → Option ℕ → Outcome
relay true o = throttled
relay false (some status) = relayed status
relay false none = bad_gateway

-- After the loop. ReleaseProxy dereferences its argument.
unfoldable pub give_up : Option String → Attempts → List Action × Outcome
give_up none st = ([], panicked)
give_up (some own) st = (release own ∷ [], relay st.rate_limited st.last_upstream)

-- ReleaseProxy(ownProxy), and the end.
unfoldable pub hand_back : Option String → Outcome → List Action × Outcome
hand_back none out = ([], panicked)
hand_back (some own) out = (release own ∷ [], out)

abbrev pub after : Action → List Action × Outcome → List Action × Outcome
after a r = (a ∷ r.0, r.1)

abbrev pub released_first : Option String → List Action × Outcome → List Action × Outcome
released_first none r = ([], panicked)
released_first (some own) r = (release own ∷ r.0, r.1)

abbrev pub holding : String → Attempts → Attempts
holding p st = record st { proxy = some p; own_proxy = some p; rate_limited = false }

module _ (env : Surroundings) where
  -- The attempt after a rate limit: it only looks for a fresh proxy.
  unfoldable pub swap :
      Bool → Option String → (Attempts → List Action × Outcome) → Attempts → List Action × Outcome
  swap false o again st = give_up st.own_proxy (record st { rate_limited = false })
  swap true none again st = give_up none (record st { own_proxy = none; rate_limited = false })
  swap true (some p) again st = after (replace p) (again (holding p st))

  unfoldable pub limited_by : (Attempts → List Action × Outcome) → Attempts → List Action × Outcome
  limited_by again st =
      if env.public_tier
      then hand_back st.own_proxy throttled
      else again (record st { rate_limited = true })

  -- After a transport failure: another proxy, if there is one in time.
  unfoldable pub broken_by :
      Option String → (Attempts → List Action × Outcome) → Attempts → List Action × Outcome
  broken_by none again st = again (record st { proxy = none })
  broken_by (some p) again st =
      after (acquire p)
        (released_first st.own_proxy (again (record st { proxy = some p; own_proxy = some p })))

  unfoldable pub replied :
      ℕ → String → Reply → (Attempts → List Action × Outcome) → Attempts → List Action × Outcome
  unfolding limited_by broken_by
  replied attempt p limited again st = after (ban p) (limited_by again st)
  replied attempt p broken again st = after (fail p) (broken_by (env.fresh attempt) again st)
  replied attempt p (responded status) again st =
      if leb 500 status && ltb attempt env.max_retries
      then again (record st { last_upstream = some status })
      else hand_back st.own_proxy (answered status)

  -- One request. `Do` dereferences the proxy.
  unfoldable pub try_once :
      ℕ → Option String → (Attempts → List Action × Outcome) → Attempts → List Action × Outcome
  unfolding replied
  try_once attempt none again st = ([], panicked)
  try_once attempt (some p) again st =
      after (request p) (replied attempt p (env.send attempt p) again st)

  -- One round of the loop, by whether the attempt before was limited.
  unfoldable pub round :
      Bool → ℕ → (Attempts → List Action × Outcome) → Attempts → List Action × Outcome
  unfolding swap try_once
  round true attempt again st = swap (env.in_time attempt) (env.fresh attempt) again st
  round false attempt again st = try_once attempt st.proxy again st

  -- The loop, with the number of attempts that are left.
  unfoldable pub attempts : ℕ → ℕ → Attempts → List Action × Outcome
  unfolding round
  attempts zero attempt st = give_up st.own_proxy st
  attempts (suc left) attempt st =
      round (ltb 0 attempt && st.rate_limited) attempt (attempts left (attempt + 1)) st

  -- handleChatCompletions, with the proxy that the first GetProxy returned
  unfoldable pub chat : String → List Action × Outcome
  chat p =
      attempts (suc env.max_retries) 0
        (record { proxy = some p; own_proxy = some p; rate_limited = false; last_upstream = none })
