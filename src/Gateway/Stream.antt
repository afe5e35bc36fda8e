-- ===== src/Gateway/Stream.antt =====
-- internal/handler/handler.go: handleStreamResponse, over the lines of the upstream's stream. A line
-- comes with what the JSON decoder reads in it; the writes to the client are taken to succeed.
pub mod Transcript
pub mod Order
pub mod Turns
pub mod Leaks
use opencode_multi_agents.Prelude.{
  ℕ, zero, suc, ◌+◌, String, Bool, true, false, ◌&&◌, ◌||◌, not, Option, none, some, List, [], ◌∷◌,
  ◌++◌, map, ltb, if◌then◌else◌,
}
use opencode_multi_agents.Gateway.Tools.{
  ToolDelta, ToolCall, Accs, accumulate, assemble_tool_calls, all_web_search, is_empty,
}

-- upstream.Usage
pub record Usage : Type 0 where
  pub prompt_tokens : ℕ
  pub completion_tokens : ℕ
  pub total_tokens : ℕ
  pub cached_tokens : ℕ

abbrev pub no_usage : Usage
no_usage = record { prompt_tokens = 0; completion_tokens = 0; total_tokens = 0; cached_tokens = 0 }

-- A choice of a chunk: its fragments of tool calls, and whether it finishes with "tool_calls".
pub record Choice : Type 0 where
  pub tool_calls : List ToolDelta
  pub finishes : Bool

-- What follows "data: " in a line that does not end the turn; text that is no JSON has no usage nor choice.
pub record Chunk : Type 0 where
  pub usage : Option Usage
  pub choices : List Choice

-- A line of the stream, with its text.
pub data Line : Type 0 where
  plain : String → Line
  done : String → Line
  chunk : String → Chunk → Line

-- How the stream ends: at its end, or by a read error.
pub data End : Type 0 where
  closed : End
  broken : End

-- What is written to the client: a line, a usage chunk of the gateway's, or an error event.
pub data Output : Type 0 where
  relayed : String → Output
  usage_chunk : Usage → Output
  error_event : Output

pub record Streaming : Type 0 where
  pub usage : Usage
  pub saw_usage_chunk : Bool
  pub buffered : List String
  pub accs : Accs
  pub finish_tool_calls : Bool
  pub written : List Output

pub record StreamResult : Type 0 where
  pub usage : Usage
  pub tool_calls : List ToolCall

abbrev pub start_streaming : Streaming
start_streaming = record {
  usage = no_usage;
  saw_usage_chunk = false;
  buffered = [];
  accs = [];
  finish_tool_calls = false;
  written = [];
}

abbrev pub write : Output → Streaming → Streaming
write o st = record st { written = st.written ++ (o ∷ []) }

-- flushBuffered
abbrev pub flush_buffered : Streaming → Streaming
flush_buffered st = record st { written = st.written ++ map relayed st.buffered; buffered = [] }

unfoldable pub accumulate_all : List ToolDelta → Accs → Accs
accumulate_all [] accs = accs
accumulate_all (d ∷ ds) accs = accumulate_all ds (accumulate d accs)

unfoldable pub choice_calls : List Choice → Accs → Accs
unfolding accumulate_all
choice_calls [] accs = accs
choice_calls (c ∷ cs) accs = choice_calls cs (accumulate_all c.tool_calls accs)

-- hasToolDelta and isFinishToolCalls
abbrev pub has_tool_delta : List Choice → Bool
has_tool_delta [] = false
has_tool_delta (c ∷ cs) = not (is_empty c.tool_calls) || has_tool_delta cs

abbrev pub is_finish_tool_calls : List Choice → Bool
is_finish_tool_calls [] = false
is_finish_tool_calls (c ∷ cs) = c.finishes || is_finish_tool_calls cs

abbrev note_usage : Option Usage → Streaming → Streaming
note_usage none st = st
note_usage (some u) st =
    if ltb 0 u.total_tokens then (record st { usage = u; saw_usage_chunk = true }) else st

-- What the gateway reads in a chunk.
unfoldable pub read_chunk : Chunk → Streaming → Streaming
unfolding choice_calls
read_chunk c st =
    let noted = note_usage c.usage st in record noted { accs = choice_calls c.choices noted.accs }

-- A chunk that is withheld, by whether tool calls are intercepted at all.
abbrev pub withheld : Bool → Chunk → Bool
withheld intercept_tools c =
    intercept_tools && (has_tool_delta c.choices || is_finish_tool_calls c.choices)

unfoldable pub take_chunk : Bool → String → Chunk → Streaming → Streaming
unfolding read_chunk
take_chunk intercept_tools text c st =
    let s = read_chunk c st in
    if withheld intercept_tools c
    then (record s {
      finish_tool_calls = s.finish_tool_calls || is_finish_tool_calls c.choices;
      buffered = s.buffered ++ (text ∷ []);
    })
    else write (relayed text) (flush_buffered s)

-- At the end marker: the calls to execute, if all are the gateway's.
unfoldable pub intercepted : Bool → Streaming → Bool
intercepted intercept_tools st =
    intercept_tools && (st.finish_tool_calls && all_web_search (assemble_tool_calls st.accs))

abbrev add_usage : Bool → Streaming → Streaming
add_usage include_usage st =
    if include_usage && (not st.saw_usage_chunk && ltb 0 st.usage.total_tokens)
    then write (usage_chunk st.usage) st
    else st

abbrev pub take_done : Bool → String → Streaming → Streaming
take_done include_usage text st = write (relayed text) (add_usage include_usage (flush_buffered st))

-- After the last line.
unfoldable pub end_stream : End → Streaming → StreamResult × Streaming
end_stream closed st = (record { usage = st.usage; tool_calls = [] }, flush_buffered st)
end_stream broken st =
    (record { usage = st.usage; tool_calls = [] }, write error_event (flush_buffered st))

abbrev pub intercept : Streaming → StreamResult × Streaming
intercept st = (
  record { usage = st.usage; tool_calls = assemble_tool_calls st.accs },
  record st { buffered = [] },
)

module _ (include_usage intercept_tools : Bool) where
  -- The loop. After an end marker that is passed on it reads further.
  unfoldable pub relay_lines : List Line → End → Streaming → StreamResult × Streaming
  unfolding take_chunk intercepted end_stream
  relay_lines [] end st = end_stream end st
  relay_lines (plain text ∷ lines) end st = relay_lines lines end (write (relayed text) st)
  relay_lines (chunk text c ∷ lines) end st =
      relay_lines lines end (take_chunk intercept_tools text c st)
  relay_lines (done text ∷ lines) end st =
      let rest = relay_lines lines end (take_done include_usage text st) in
      if intercepted intercept_tools st then intercept st else rest

  -- handleStreamResponse: the result, and what the client was sent
  unfoldable pub handle_stream_response : List Line → End → StreamResult × List Output
  handle_stream_response lines end =
      let r = relay_lines lines end start_streaming in (r.0, r.1.written)
