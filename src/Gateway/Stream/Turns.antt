-- ===== src/Gateway/Stream/Turns.antt =====
-- handleStreamResponse: turns with tool calls, as the client sees them.
use opencode_multi_agents.Prelude.{
  ◌≡◌, refl, sym, ◌∙◌, ap, String, Bool, true, false, Option, none, some, List, [], ◌∷◌, ◌++◌, map,
  append-nil, append_assoc, arith, All, length, replicate,
}
use opencode_multi_agents.Gateway.Tools.{Accs, assemble_tool_calls, all_web_search, is_empty}
use opencode_multi_agents.Gateway.Stream.{
  Usage, Chunk, Line, plain, done, chunk, End, closed, broken, relayed, usage_chunk, Streaming,
  write, flush_buffered, read_chunk, withheld, take_chunk, intercepted, add_usage, take_done,
  end_stream, relay_lines, handle_stream_response, note_usage, start_streaming, choice_calls,
}
use opencode_multi_agents.Gateway.Stream.Transcript.{
  texts, texts-append, texts-relayed, note_usage-kept,
}

module _ (include_usage intercept_tools : Bool) where
  relay_lines-Ours :
      (lines : List Line) (end : End) (st : Streaming)
      → let r = relay_lines include_usage intercept_tools lines end st in
        is_empty r.0.tool_calls ≡ false
        → (intercept_tools ≡ true) × (all_web_search r.0.tool_calls ≡ true)
  unfolding relay_lines end_stream
  relay_lines-Ours [] closed st h = cc
  relay_lines-Ours [] broken st h = cc
  relay_lines-Ours (plain text ∷ lines) end st h =
      relay_lines-Ours lines end (write (relayed text) st) h
  relay_lines-Ours (chunk text c ∷ lines) end st h =
      relay_lines-Ours lines end (take_chunk intercept_tools text c st) h
  relay_lines-Ours (done text ∷ lines) end st h =
      let rest = relay_lines-Ours lines end (take_done include_usage text st) in
      unfold intercepted in ground (arith, h, rest)

  -- The gateway takes a turn's tool calls for itself only if it has a search service for the
  -- request, and if each of the calls is one of its own tool.
  pub handle_stream_response-Ours :
      (lines : List Line) (end : End)
      → let r = handle_stream_response include_usage intercept_tools lines end in
        is_empty r.0.tool_calls ≡ false
        → (intercept_tools ≡ true) × (all_web_search r.0.tool_calls ≡ true)
  unfolding handle_stream_response
  handle_stream_response-Ours lines end h = relay_lines-Ours lines end start_streaming h

-- Chunks with their texts, a blank line after each, as an event stream has them.
abbrev pub turn : List (String × Chunk) → List Line → List Line
turn [] rest = rest
turn (c ∷ cs) rest = chunk c.0 c.1 ∷ plain "\n" ∷ turn cs rest

-- The tool calls of a turn.
abbrev pub turn_calls : List (String × Chunk) → Accs → Accs
turn_calls [] accs = accs
turn_calls (c ∷ cs) accs = turn_calls cs (choice_calls c.1.choices accs)

abbrev pub after_turn : List (String × Chunk) → Streaming → Streaming
after_turn [] st = st
after_turn (c ∷ cs) st = after_turn cs (write (relayed "\n") (take_chunk true c.0 c.1 st))

abbrev pub text : String × Chunk → String
text c = c.0

abbrev pub IsWithheld : String × Chunk → Type 0
IsWithheld c = withheld true c.1 ≡ true

pub relay_lines-turn :
    (include_usage : Bool) (cs : List (String × Chunk)) (rest : List Line) (end : End)
    (st : Streaming)
    → relay_lines include_usage true (turn cs rest) end st
      ≡ relay_lines include_usage true rest end (after_turn cs st)
unfolding relay_lines
relay_lines-turn include_usage [] rest end st = refl
relay_lines-turn include_usage (c ∷ cs) rest end st =
    relay_lines-turn include_usage cs rest end (write (relayed "\n") (take_chunk true c.0 c.1 st))

pub note_usage-accs : (u : Option Usage) (st : Streaming) → (note_usage u st).accs ≡ st.accs
note_usage-accs none st = refl
note_usage-accs (some u) st = ground arith

-- A chunk that is withheld.
pub take_chunk-withheld :
    (t : String) (c : Chunk) (st : Streaming)
    → withheld true c ≡ true
    → let s = take_chunk true t c st in
      (s.written ≡ st.written)
      × (s.buffered ≡ (st.buffered ++ t ∷ []))
      × (s.accs ≡ choice_calls c.choices st.accs)
unfolding take_chunk read_chunk
take_chunk-withheld t c st h =
    let k = note_usage-kept c.usage st in
    ground (arith, h, k.0, k.1, ap (choice_calls c.choices) (note_usage-accs c.usage st))

pub after_turn-snoc :
    (cs : List (String × Chunk)) (x : String × Chunk) (st : Streaming)
    → after_turn (cs ++ x ∷ []) st
      ≡ write (relayed "\n") (take_chunk true x.0 x.1 (after_turn cs st))
after_turn-snoc [] x st = refl
after_turn-snoc (c ∷ cs) x st =
    after_turn-snoc cs x (write (relayed "\n") (take_chunk true c.0 c.1 st))

pub after_turn-written :
    (cs : List (String × Chunk)) (st : Streaming)
    → All IsWithheld cs
    → texts (after_turn cs st).written ≡ (texts st.written ++ replicate (length cs) "\n")
after_turn-written [] st h = sym (append-nil (texts st.written))
after_turn-written (c ∷ cs) st h =
    let s = take_chunk true c.0 c.1 st in
    let rest = after_turn-written cs (write (relayed "\n") s) h.1 in
    let sent = texts-append s.written (relayed "\n" ∷ []) in
    let a = append_assoc (texts st.written) ("\n" ∷ []) (replicate (length cs) "\n") in
    ground (arith, take_chunk-withheld c.0 c.1 st h.0, rest, sent, a)

pub after_turn-buffered :
    (cs : List (String × Chunk)) (st : Streaming)
    → All IsWithheld cs
    → (after_turn cs st).buffered ≡ (st.buffered ++ map text cs)
after_turn-buffered [] st h = sym (append-nil st.buffered)
after_turn-buffered (c ∷ cs) st h =
    let s = take_chunk true c.0 c.1 st in
    let rest = after_turn-buffered cs (write (relayed "\n") s) h.1 in
    let a = append_assoc st.buffered (c.0 ∷ []) (map text cs) in
    ground (arith, take_chunk-withheld c.0 c.1 st h.0, rest, a)

pub after_turn-accs :
    (cs : List (String × Chunk)) (st : Streaming)
    → All IsWithheld cs
    → (after_turn cs st).accs ≡ turn_calls cs st.accs
after_turn-accs [] st h = refl
after_turn-accs (c ∷ cs) st h =
    let s = write (relayed "\n") (take_chunk true c.0 c.1 st) in
    after_turn-accs cs s h.1 ∙ ap (turn_calls cs) (take_chunk-withheld c.0 c.1 st h.0).2

add_usage-texts :
    (include_usage : Bool) (st : Streaming)
    → texts (add_usage include_usage st).written ≡ texts st.written
add_usage-texts include_usage st =
    let sent = texts-append st.written (usage_chunk st.usage ∷ []) in
    let n = append-nil (texts st.written) in ground (arith, sent, n)

pub flush_buffered-texts :
    (st : Streaming) → texts (flush_buffered st).written ≡ (texts st.written ++ st.buffered)
flush_buffered-texts st =
    let e = texts-append st.written (map relayed st.buffered) in
    let b = texts-relayed st.buffered in cc

take_done-texts :
    (include_usage : Bool) (last : String) (st : Streaming)
    → texts (take_done include_usage last st).written
      ≡ (texts st.written ++ (st.buffered ++ last ∷ []))
take_done-texts include_usage last st =
    let flushed = flush_buffered-texts st in
    let noted = add_usage include_usage (flush_buffered st) in
    let used = add_usage-texts include_usage (flush_buffered st) in
    let sent = texts-append noted.written (relayed last ∷ []) in
    let a = append_assoc (texts st.written) st.buffered (last ∷ []) in cc

take_done-buffered :
    (include_usage : Bool) (last : String) (st : Streaming)
    → (take_done include_usage last st).buffered ≡ []
take_done-buffered include_usage last st = ground arith

-- An end marker that ends the stream, where the calls are not the gateway's.
done-texts :
    (include_usage : Bool) (last : String) (st : Streaming)
    → all_web_search (assemble_tool_calls st.accs) ≡ false
    → texts (relay_lines include_usage true (done last ∷ []) closed st).1.written
      ≡ (texts st.written ++ (st.buffered ++ last ∷ []))
unfolding relay_lines intercepted end_stream
done-texts include_usage last st theirs =
    let taken = take_done include_usage last st in
    let sent = take_done-texts include_usage last st in
    let flushed = flush_buffered-texts taken in
    let none_left = take_done-buffered include_usage last st in
    let n = append-nil (texts taken.written) in ground (arith, theirs, sent, flushed, none_left, n)

-- If a turn has a tool call that is not the gateway's, its chunks come to the client, but after all
-- the blank lines that ended them: the blank lines are passed on at once, and the chunks when the
-- stream is done. The client gets them as the lines of one event.
pub handle_stream_response_apart :
    (include_usage : Bool) (cs : List (String × Chunk)) (last : String)
    → All IsWithheld cs
    → all_web_search (assemble_tool_calls (turn_calls cs [])) ≡ false
    → texts (handle_stream_response include_usage true (turn cs (done last ∷ [])) closed).1
      ≡ (replicate (length cs) "\n" ++ (map text cs ++ last ∷ []))
unfolding handle_stream_response
handle_stream_response_apart include_usage cs last h theirs =
    let st = after_turn cs start_streaming in
    let step = relay_lines-turn include_usage cs (done last ∷ []) closed start_streaming in
    let b = after_turn-buffered cs start_streaming h in
    let w = after_turn-written cs start_streaming h in
    let a = after_turn-accs cs start_streaming h in
    let sent = done-texts include_usage last st (rw a theirs) in cc
