-- ===== src/Gateway/StreamExamples.antt =====
-- The theorems on streams and rounds of tool calls at concrete streams.
use opencode_multi_agents.Prelude.{
  ◌*◌, ◌≤◌, ◌≡◌, refl, String, Bool, true, false, Option, none, some, List, [], ◌∷◌, map, tally,
  select, str_eq, if◌then◌else◌, ◌++◌, replicate, length,
}
use opencode_multi_agents.Gateway.Tools.{
  ToolDelta, Message, other, assemble_tool_calls, all_web_search, accumulate,
}
use opencode_multi_agents.Gateway.Stream.{
  Usage, Chunk, Line, plain, done, chunk, closed, broken, handle_stream_response, choice_calls,
  relay_lines,
}
use opencode_multi_agents.Gateway.Stream.Transcript.{
  texts, text_of, handle_stream_response-delivers,
}
use opencode_multi_agents.Gateway.Stream.Order.{handle_stream_response_ordered}
use opencode_multi_agents.Gateway.Stream.Leaks.{usage_only, handle_stream_response_leaks}
use opencode_multi_agents.Gateway.Stream.Turns.{turn, turn_calls, text}
use opencode_multi_agents.Prelude.Text.{bytes_of}
use opencode_multi_agents.Gateway.Requests.{ChatRequest}
use opencode_multi_agents.Gateway.Rounds.{Outside, Streamed, stream_with_tool_rounds}
use opencode_multi_agents.Gateway.Rounds.Bounds.{sent_by, stream_with_tool_rounds-bound}
use opencode_multi_agents.Gateway.Rounds.History.{Told, stream_with_tool_rounds-Told}

abbrev delta : String → ToolDelta
delta name = record { index = 0; id = "call_1"; typ = ""; name = name; args = "{}" }

abbrev turn_of : String → Chunk
turn_of name = record {
  usage = none;
  choices = record { tool_calls = delta name ∷ []; finishes = true } ∷ [];
}

abbrev report : Option Usage
report =
    some (record { prompt_tokens = 4; completion_tokens = 3; total_tokens = 7; cached_tokens = 2 })

abbrev theirs : List Line
theirs =
    chunk "data: call" (turn_of "get_weather")
    ∷ plain "\n"
    ∷ chunk "data: usage" (usage_only report)
    ∷ done "data: [DONE]"
    ∷ []

abbrev ours : List Line
ours = chunk "data: call" (turn_of "web_search") ∷ plain "\n" ∷ done "data: [DONE]" ∷ []

abbrev is_call : String → Bool
is_call s = str_eq s "data: call"

handle_stream_response-delivers_example :
    tally is_call (texts (handle_stream_response true true theirs broken).1)
    ≡ tally is_call (map text_of theirs)
unfolding handle_stream_response relay_lines all_web_search assemble_tool_calls accumulate
handle_stream_response-delivers_example =
    handle_stream_response-delivers is_call true true theirs broken refl

handle_stream_response_ordered_example :
    select is_call (texts (handle_stream_response true true theirs broken).1)
    ≡ select is_call (map text_of theirs)
unfolding handle_stream_response relay_lines all_web_search assemble_tool_calls accumulate
handle_stream_response_ordered_example =
    handle_stream_response_ordered is_call true true theirs broken (tt, (refl, (tt, (tt, tt)))) refl

handle_stream_response_leaks_example :
    let cs : List (String × Chunk) = ("data: call", turn_of "web_search") ∷ [] in
    let lines = turn (cs ++ ("data: usage", usage_only report) ∷ []) (done "data: [DONE]" ∷ []) in
    let r = handle_stream_response true true lines closed in
    (texts r.1 ≡ (replicate (length cs) "\n" ++ (map text cs ++ "data: usage" ∷ "\n" ∷ [])))
    × (r.0.tool_calls ≡ assemble_tool_calls (turn_calls cs []))
unfolding choice_calls all_web_search assemble_tool_calls accumulate
handle_stream_response_leaks_example =
    handle_stream_response_leaks true [] "data: call" "data: usage" "data: [DONE]"
      (turn_of "web_search") report [] closed tt refl refl

abbrev two_chunks : List (String × Chunk)
two_chunks = ("data: a", turn_of "get_weather") ∷ ("data: b", turn_of "") ∷ []

abbrev response : Streamed
response = record { status = 200; lines = ours; end = closed }

-- The upstream always wants to search; the first proxy never answers after the first round.
abbrev outside : Outside Streamed
outside = record {
  reply = λ n i p messages. if str_eq p "a" then none else some response;
  fresh = λ n i. some "b";
  run = λ args. some "found";
  failure = λ args. "web_search failed";
  replays = true;
  search = true;
  max_rounds = 2;
}

abbrev conversation : List Message
conversation = other "hello" ∷ []

stream_with_tool_rounds-bound_example :
    sent_by (stream_with_tool_rounds outside "a" true conversation response).0 ≤ 3 * 2
stream_with_tool_rounds-bound_example =
    stream_with_tool_rounds-bound outside "a" true conversation response

stream_with_tool_rounds-Told_example :
    Told outside true conversation response 2
      (stream_with_tool_rounds outside "a" true conversation response).0
stream_with_tool_rounds-Told_example =
    stream_with_tool_rounds-Told outside true conversation response "a"

abbrev greeting : ChatRequest
greeting = record {
  model = bytes_of "m1";
  messages = record { role = "user"; has_content = true } ∷ [];
  stream = true;
  conversation_id = [];
  include_usage = false;
}
