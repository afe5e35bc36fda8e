-- ===== src/Gateway/Rounds/Bounds.antt =====
-- How many requests the rounds of tool calls make.
use opencode_multi_agents.Prelude.{
  ℕ, zero, suc, ◌+◌, ◌*◌, ◌≤◌, ◌≡◌, refl, ap, String, Bool, Option, none, some, List, [], ◌∷◌,
  arith, length, length-append,
}
use opencode_multi_agents.Gateway.Tools.{ToolCall, Message}
use opencode_multi_agents.Gateway.Stream.{Output, handle_stream_response, Usage}
use opencode_multi_agents.Gateway.Rounds.{
  Sent, Outside, Streamed, Complete, retry_reply, retry_on, retries, do_round, Rounds, start_rounds,
  requested, used, searched, stream_received, stream_next, stream_round, stream_with_tool_rounds,
}
use opencode_multi_agents.Gateway.Completions.{
  Answer, counted, complete_received, complete_next, complete_read, complete_round,
  complete_with_tool_rounds,
}

module _ {Response : Type 0} (out : Outside Response) where
  retry_reply-bound :
      (p : String) (messages : List Message) (o : Option Response)
      (again : List Sent × Option Response)
      → length (retry_reply out p messages o again).0 ≤ suc (length again.0)
  unfolding retry_reply
  retry_reply-bound p messages none again = omega arith
  retry_reply-bound p messages (some resp) again = omega arith

  retry_on-bound :
      (round i : ℕ) (messages : List Message) (o : Option String)
      (again : List Sent × Option Response)
      → length (retry_on out round i messages o again).0 ≤ suc (length again.0)
  unfolding retry_on
  retry_on-bound round i messages none again = omega arith
  retry_on-bound round i messages (some p) again = retry_reply-bound p messages _ again

  retries-bound :
      (left round i : ℕ) (messages : List Message)
      → length (retries out left round i messages).0 ≤ left
  unfolding retries
  retries-bound zero round i messages = omega arith
  retries-bound (suc left) round i messages =
      let rest = retries-bound left round (i + 1) messages in
      omega (arith, rest, retry_on-bound round i messages (out.fresh round i) _)

  do_round-bound :
      (round : ℕ) (p : String) (messages : List Message)
      → length (do_round out round p messages).0 ≤ 3
  unfolding do_round
  do_round-bound round p messages =
      let rest = retries-bound 2 round 0 messages in
      omega (arith, rest, retry_reply-bound p messages (out.reply round 0 p messages) _)

abbrev pub sent_by : Rounds → ℕ
sent_by st = length st.sent

-- The requests of the rounds that follow.
abbrev Bounded {ℓ} : {R : Type ℓ} {A : Type ℓ} → ℕ → (R → Rounds → Rounds × A) → Type ℓ
Bounded n again = (resp : _) (st : Rounds) → sent_by (again resp st).0 ≤ sent_by st + n

module _ (out : Outside Streamed) (p : String) (include_usage : Bool) where
  stream_received-bound :
      (n : ℕ) (again : Streamed → Rounds → Rounds × List Output) (got : List Sent × Option Streamed)
      (st : Rounds)
      → Bounded n again
      → sent_by (stream_received out p include_usage again got st).0 ≤ sent_by st + length got.0 + n
  unfolding stream_received
  stream_received-bound n again (ss, none) st h = omega (arith, length-append st.sent ss)
  stream_received-bound n again (ss, some resp) st h =
      ground (arith, length-append st.sent ss, h resp (requested ss st))

  stream_next-bound :
      (n round : ℕ) (again : Streamed → Rounds → Rounds × List Output) (calls : List ToolCall)
      (st : Rounds)
      → Bounded n again
      → sent_by (stream_next out p include_usage round again calls st).0 ≤ sent_by st + 3 + n
  unfolding stream_next searched
  stream_next-bound n round again [] st h = omega arith
  stream_next-bound n round again (c ∷ calls) st h =
      let next = searched out (c ∷ calls) st in
      let got = do_round out (round + 1) p next.messages in
      ground (
        arith,
        stream_received-bound n again got next h,
        do_round-bound out (round + 1) p next.messages,
      )

  stream_round-bound :
      (left round : ℕ) (resp : Streamed) (st : Rounds)
      → sent_by (stream_round out p include_usage left round resp st).0 ≤ sent_by st + 3 * left
  unfolding stream_round
  stream_round-bound zero round resp st = omega arith
  stream_round-bound (suc left) round resp st =
      let r = handle_stream_response include_usage out.search resp.lines resp.end in
      let again = stream_round out p include_usage left (round + 1) in
      let rest =
        stream_next-bound (3 * left) round again r.0.tool_calls (used r.0.usage st)
          (stream_round-bound left (round + 1)) in
      omega (arith, rest)

  -- Whatever the model asks for, the rounds of tool calls of a streamed completion end, with at most
  -- three requests for each of the WebSearchMaxRounds rounds.
  pub stream_with_tool_rounds-bound :
      (body : List Message) (first_resp : Streamed)
      → sent_by (stream_with_tool_rounds out p include_usage body first_resp).0 ≤ 3 * out.max_rounds
  unfolding stream_with_tool_rounds
  stream_with_tool_rounds-bound body first_resp =
      omega (arith, stream_round-bound out.max_rounds 0 first_resp (start_rounds body))

counted-sent : (u : Option Usage) (st : Rounds) → (counted u st).sent ≡ st.sent
counted-sent none st = refl
counted-sent (some u) st = refl

module _ (out : Outside Complete) (p : String) where
  complete_received-bound :
      (n : ℕ) (again : Complete → Rounds → Rounds × Answer) (got : List Sent × Option Complete)
      (st : Rounds)
      → Bounded n again
      → sent_by (complete_received out p again got st).0 ≤ sent_by st + length got.0 + n
  unfolding complete_received
  complete_received-bound n again (ss, none) st h = omega (arith, length-append st.sent ss)
  complete_received-bound n again (ss, some resp) st h =
      omega (arith, length-append st.sent ss, h resp (requested ss st))

  complete_next-bound :
      (n round : ℕ) (again : Complete → Rounds → Rounds × Answer) (resp : Complete) (raw : String)
      (st : Rounds)
      → Bounded n again
      → sent_by (complete_next out p round (some again) resp raw st).0 ≤ sent_by st + 3 + n
  unfolding complete_next searched
  complete_next-bound n round again resp raw st h =
      let next = searched out resp.tool_calls st in
      let got = do_round out (round + 1) p next.messages in
      ground (
        arith,
        complete_received-bound n again got next h,
        do_round-bound out (round + 1) p next.messages,
      )

  complete_read-bound :
      (n round : ℕ) (again : Complete → Rounds → Rounds × Answer) (resp : Complete)
      (o : Option String) (st : Rounds)
      → Bounded n again
      → sent_by (complete_read out p round (some again) resp o st).0 ≤ sent_by st + 3 + n
  unfolding complete_read
  complete_read-bound n round again resp none st h = omega arith
  complete_read-bound n round again resp (some raw) st h =
      let rest = complete_next-bound n round again resp raw (counted resp.usage st) h in
      omega (arith, rest, ap length (counted-sent resp.usage st))

  complete_last-bound :
      (round : ℕ) (resp : Complete) (o : Option String) (st : Rounds)
      → sent_by (complete_read out p round none resp o st).0 ≡ sent_by st
  unfolding complete_read complete_next
  complete_last-bound round resp none st = refl
  complete_last-bound round resp (some raw) st = ap length (counted-sent resp.usage st)

  complete_round-bound :
      (left round : ℕ) (resp : Complete) (st : Rounds)
      → sent_by (complete_round out p left round resp st).0 ≤ sent_by st + 3 * left
  unfolding complete_round
  complete_round-bound zero round resp st =
      omega (arith, complete_last-bound round resp resp.raw st)
  complete_round-bound (suc left) round resp st =
      let again = complete_round out p left (round + 1) in
      let h = complete_round-bound left (round + 1) in
      omega (arith, complete_read-bound (3 * left) round again resp resp.raw st h)

  -- So do those of a completion that is not streamed.
  pub complete_with_tool_rounds-bound :
      (body : List Message) (first_resp : Complete)
      → sent_by (complete_with_tool_rounds out p body first_resp).0 ≤ 3 * out.max_rounds
  unfolding complete_with_tool_rounds
  complete_with_tool_rounds-bound body first_resp =
      omega (arith, complete_round-bound out.max_rounds 0 first_resp (start_rounds body))
