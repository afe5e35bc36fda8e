-- ===== src/Gateway/Rounds.antt =====
-- internal/handler/tools.go: doRound, streamWithToolRounds and completeWithToolRounds. What the pool,
-- the upstream and the search service answer is a parameter, by the round and the try. Requests are
-- recorded with their proxy and their conversation.
pub mod Bounds
pub mod Replays
pub mod History
pub mod CompleteReplays
pub mod Usages
use opencode_multi_agents.Prelude.{
  ℕ, zero, suc, ◌+◌, String, Bool, true, false, ◌&&◌, ◌||◌, not, Option, none, some, List, [], ◌∷◌,
  ◌++◌, ltb, leb, if◌then◌else◌,
}
use opencode_multi_agents.Gateway.Tools.{
  ToolCall, all_web_search, is_empty, Message, exec_web_search_tools, append_tool_results,
}
use opencode_multi_agents.Gateway.Stream.{
  Usage, no_usage, Line, End, Output, error_event, StreamResult, handle_stream_response,
}

-- A request: the proxy and the messages of its body.
abbrev pub Sent : Type 0
Sent = String × List Message

-- `reply` is what `client.Do` returns, and `fresh` what GetProxy does; `none` is an error or nil.
-- `replays` says whether the body can be read as JSON again, `search` whether there is a service.
pub record Outside (Response : Type 0) : Type 0 where
  pub reply : ℕ → ℕ → String → List Message → Option Response
  pub fresh : ℕ → ℕ → Option String
  pub run : String → Option String
  pub failure : String → String
  pub replays : Bool
  pub search : Bool
  pub max_rounds : ℕ

-- The response of a streamed request.
pub record Streamed : Type 0 where
  pub status : ℕ
  pub lines : List Line
  pub end : End

-- The response of another request: `raw` is `none` where it cannot be read. `tool_calls` are those of
-- the first choice.
pub record Complete : Type 0 where
  pub status : ℕ
  pub raw : Option String
  pub tool_calls : List ToolCall
  pub usage : Option Usage

abbrev pub in_2xx : ℕ → Bool
in_2xx status = leb 200 status && ltb status 300

module _ {Response : Type 0} (out : Outside Response) where
  unfoldable pub retry_reply :
      String
      → List Message
      → Option Response
      → List Sent × Option Response
      → List Sent × Option Response
  retry_reply p messages none again = ((p, messages) ∷ again.0, again.1)
  retry_reply p messages (some resp) again = ((p, messages) ∷ [], some resp)

  unfoldable pub retry_on :
      ℕ
      → ℕ
      → List Message
      → Option String
      → List Sent × Option Response
      → List Sent × Option Response
  unfolding retry_reply
  retry_on round i messages none again = ([], none)
  retry_on round i messages (some p) again =
      retry_reply p messages (out.reply round (i + 1) p messages) again

  -- The loop over fresh proxies, with the tries that are left.
  unfoldable pub retries : ℕ → ℕ → ℕ → List Message → List Sent × Option Response
  unfolding retry_on
  retries zero round i messages = ([], none)
  retries (suc left) round i messages =
      retry_on round i messages (out.fresh round i) (retries left round (i + 1) messages)

  -- doRound
  unfoldable pub do_round : ℕ → String → List Message → List Sent × Option Response
  unfolding retry_reply retries
  do_round round p messages =
      retry_reply p messages (out.reply round 0 p messages) (retries 2 round 0 messages)

pub record Rounds : Type 0 where
  pub sent : List Sent
  pub messages : List Message
  pub total_usage : Usage

-- `totalUsage`: the cached tokens are not added
abbrev pub add_usages : Usage → Usage → Usage
add_usages a b = record {
  prompt_tokens = a.prompt_tokens + b.prompt_tokens;
  completion_tokens = a.completion_tokens + b.completion_tokens;
  total_tokens = a.total_tokens + b.total_tokens;
  cached_tokens = a.cached_tokens;
}

abbrev pub start_rounds : List Message → Rounds
start_rounds body = record { sent = []; messages = body; total_usage = no_usage }

abbrev pub requested : List Sent → Rounds → Rounds
requested ss st = record st { sent = st.sent ++ ss }

abbrev pub used : Usage → Rounds → Rounds
used u st = record st { total_usage = add_usages st.total_usage u }

module _ {Response : Type 0} (out : Outside Response) where
  -- The search, and the conversation with its results.
  unfoldable pub searched : List ToolCall → Rounds → Rounds
  searched calls st = record st {
    messages =
        append_tool_results st.messages calls (exec_web_search_tools out.run out.failure calls);
  }

module _ (out : Outside Streamed) (p : String) (include_usage : Bool) where
  abbrev pub broken_off : Rounds → Rounds × List Output
  broken_off st = (st, error_event ∷ [])

  abbrev pub before : List Output → Rounds × List Output → Rounds × List Output
  before os r = (r.0, os ++ r.1)

  unfoldable pub stream_received :
      (Streamed → Rounds → Rounds × List Output)
      → List Sent × Option Streamed
      → Rounds
      → Rounds × List Output
  stream_received again (ss, none) st = broken_off (requested ss st)
  stream_received again (ss, some resp) st =
      let rest = again resp (requested ss st) in
      if in_2xx resp.status then rest else broken_off (requested ss st)

  -- What follows the turn of a round: the end, or the search and the next round.
  unfoldable pub stream_next :
      ℕ → (Streamed → Rounds → Rounds × List Output) → List ToolCall → Rounds → Rounds × List Output
  unfolding stream_received
  stream_next round again [] st = (st, [])
  stream_next round again (c ∷ calls) st =
      let next = searched out (c ∷ calls) st in
      if out.replays
      then stream_received again (do_round out (round + 1) p next.messages) next
      else broken_off st

  -- A round, with the number of rounds that are left and the response at hand.
  unfoldable pub stream_round : ℕ → ℕ → Streamed → Rounds → Rounds × List Output
  unfolding stream_next
  stream_round zero round resp st =
      let r = handle_stream_response include_usage out.search resp.lines resp.end in
      (used r.0.usage st, r.1)
  stream_round (suc left) round resp st =
      let r = handle_stream_response include_usage out.search resp.lines resp.end in
      let again = stream_round left (round + 1) in
      before r.1 (stream_next round again r.0.tool_calls (used r.0.usage st))

  -- streamWithToolRounds: what it asked for, and what the client was sent
  unfoldable pub stream_with_tool_rounds : List Message → Streamed → Rounds × List Output
  unfolding stream_round
  stream_with_tool_rounds body first_resp =
      stream_round out.max_rounds 0 first_resp (start_rounds body)
