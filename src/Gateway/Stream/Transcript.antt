-- ===== src/Gateway/Stream/Transcript.antt =====
-- handleStreamResponse: what of the upstream's stream reaches the client.
use opencode_multi_agents.Prelude.{
  ℕ, ◌+◌, ◌≡◌, refl, sym, ap, String, Bool, true, false, Option, none, some, List, [], ◌∷◌, ◌++◌,
  map, arith, tally, Bool-cases, inl, inr,
}
use opencode_multi_agents.Gateway.Tools.{ToolCall, assemble_tool_calls, all_web_search, is_empty}
use opencode_multi_agents.Gateway.Stream.{
  Usage, Chunk, Line, plain, done, chunk, End, closed, broken, Output, relayed, usage_chunk,
  error_event, Streaming, write, flush_buffered, read_chunk, take_chunk, intercepted, add_usage,
  take_done, end_stream, relay_lines, handle_stream_response, note_usage, start_streaming,
}

abbrev pub text_of : Line → String
text_of (plain text) = text
text_of (done text) = text
text_of (chunk text c) = text

-- The lines of the upstream's among what was written.
abbrev pub texts : List Output → List String
texts [] = []
texts (relayed text ∷ os) = text ∷ texts os
texts (usage_chunk u ∷ os) = texts os
texts (error_event ∷ os) = texts os

pub texts-append : (os ps : List Output) → texts (os ++ ps) ≡ (texts os ++ texts ps)
texts-append [] ps = refl
texts-append (relayed text ∷ os) ps = ap (λ t. text ∷ t) (texts-append os ps)
texts-append (usage_chunk u ∷ os) ps = texts-append os ps
texts-append (error_event ∷ os) ps = texts-append os ps

pub texts-relayed : (xs : List String) → texts (map relayed xs) ≡ xs
texts-relayed [] = refl
texts-relayed (x ∷ xs) = ap (λ t. x ∷ t) (texts-relayed xs)

no_calls_not_all : (calls : List ToolCall) → all_web_search calls ≡ true → is_empty calls ≡ false
unfolding all_web_search
no_calls_not_all [] h = sym h
no_calls_not_all (c ∷ calls) h = refl

pub note_usage-kept :
    (u : Option Usage) (st : Streaming)
    → ((note_usage u st).written ≡ st.written) × ((note_usage u st).buffered ≡ st.buffered)
note_usage-kept none st = (refl, refl)
note_usage-kept (some u) st = ground arith

pub intercepted_calls :
    (intercept_tools : Bool) (st : Streaming)
    → intercepted intercept_tools st ≡ true
    → is_empty (assemble_tool_calls st.accs) ≡ false
unfolding intercepted
intercepted_calls intercept_tools st h =
    no_calls_not_all (assemble_tool_calls st.accs) (ground (arith, h))

module _ (p : String → Bool) where
  tally-append : (xs ys : List String) → tally p (xs ++ ys) ≡ tally p xs + tally p ys
  tally-append [] ys = omega arith
  tally-append (x ∷ xs) ys = ground (arith, tally-append xs ys)

  -- How many lines have been written or are withheld.
  abbrev held : Streaming → ℕ
  held st = tally p (texts st.written) + tally p st.buffered

  written-tally :
      (os ps : List Output) → tally p (texts (os ++ ps)) ≡ tally p (texts os) + tally p (texts ps)
  written-tally os ps = rw (texts-append os ps) (tally-append (texts os) (texts ps))

  flush_buffered-tally : (st : Streaming) → tally p (texts (flush_buffered st).written) ≡ held st
  flush_buffered-tally st =
      let e = written-tally st.written (map relayed st.buffered) in
      let b = ap (tally p) (texts-relayed st.buffered) in omega (arith, e, b)

  add_usage-tally :
      (include_usage : Bool) (st : Streaming)
      → tally p (texts (add_usage include_usage st).written) ≡ tally p (texts st.written)
  add_usage-tally include_usage st =
      let e = written-tally st.written (usage_chunk st.usage ∷ []) in ground (arith, e)

  read_chunk-held : (c : Chunk) (st : Streaming) → held (read_chunk c st) ≡ held st
  unfolding read_chunk
  read_chunk-held c st = let k = note_usage-kept c.usage st in ground (arith, k.0, k.1)

  take_chunk-held :
      (intercept_tools : Bool) (text : String) (c : Chunk) (st : Streaming)
      → held (take_chunk intercept_tools text c st) ≡ held st + tally p (text ∷ [])
  unfolding take_chunk
  take_chunk-held intercept_tools text c st =
      let s = read_chunk c st in
      let same = read_chunk-held c st in
      let kept = tally-append s.buffered (text ∷ []) in
      let flushed = flush_buffered-tally s in
      let sent = written-tally (flush_buffered s).written (relayed text ∷ []) in
      ground (arith, same, kept, flushed, sent)

  take_done-held :
      (include_usage : Bool) (text : String) (st : Streaming)
      → held (take_done include_usage text st) ≡ held st + tally p (text ∷ [])
  take_done-held include_usage text st =
      let flushed = flush_buffered-tally st in
      let used = add_usage-tally include_usage (flush_buffered st) in
      let sent =
        written-tally (add_usage include_usage (flush_buffered st)).written (relayed text ∷ []) in
      ground (arith, flushed, used, sent)

  end_stream-held :
      (end : End) (st : Streaming) → tally p (texts (end_stream end st).1.written) ≡ held st
  unfolding end_stream
  end_stream-held closed st = flush_buffered-tally st
  end_stream-held broken st =
      let flushed = flush_buffered-tally st in
      let sent = written-tally (flush_buffered st).written (error_event ∷ []) in
      omega (arith, flushed, sent)

  module _ (include_usage intercept_tools : Bool) where
    relay_lines-held :
        (lines : List Line) (end : End) (st : Streaming)
        → let r = relay_lines include_usage intercept_tools lines end st in
          is_empty r.0.tool_calls ≡ true
          → tally p (texts r.1.written) ≡ held st + tally p (map text_of lines)
    unfolding relay_lines
    relay_lines-held [] end st h = ground (arith, end_stream-held end st)
    relay_lines-held (plain text ∷ lines) end st h =
        let sent = written-tally st.written (relayed text ∷ []) in
        ground (arith, sent, relay_lines-held lines end (write (relayed text) st) h)
    relay_lines-held (chunk text c ∷ lines) end st h =
        let taken = take_chunk-held intercept_tools text c st in
        ground (arith, taken, relay_lines-held lines end (take_chunk intercept_tools text c st) h)
    relay_lines-held (done text ∷ lines) end st h =
        elim (Bool-cases (intercepted intercept_tools st)) [
          | inl e ↦
              let some_call = intercepted_calls intercept_tools st e in ground (arith, h, some_call)
          | inr e ↦
              let taken = take_done-held include_usage text st in
              let rest = relay_lines-held lines end (take_done include_usage text st) in
              ground (arith, h, rest, taken)
        ]

    -- Unless the gateway takes a turn's tool calls for itself, no line of the upstream's stream is
    -- lost, doubled or made up, whether the stream ends well or breaks off: of the lines with any
    -- given property, the client gets as many as came.
    pub handle_stream_response-delivers :
        (lines : List Line) (end : End)
        → let r = handle_stream_response include_usage intercept_tools lines end in
          is_empty r.0.tool_calls ≡ true → tally p (texts r.1) ≡ tally p (map text_of lines)
    unfolding handle_stream_response
    handle_stream_response-delivers lines end h =
        omega (arith, relay_lines-held lines end start_streaming h)
