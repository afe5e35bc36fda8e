-- ===== src/Gateway/Stream/Leaks.antt =====
-- handleStreamResponse: a usage chunk between the tool calls and the end of the stream.
use opencode_multi_agents.Prelude.{
  ◌≡◌, refl, ◌∙◌, ap, String, Bool, true, Option, none, some, List, [], ◌∷◌, ◌++◌, map,
  append_assoc, arith, All, length, replicate,
}
use opencode_multi_agents.Gateway.Tools.{assemble_tool_calls, all_web_search}
use opencode_multi_agents.Gateway.Stream.{
  Usage, Chunk, Line, done, End, relayed, Streaming, write, flush_buffered, read_chunk, take_chunk,
  intercepted, relay_lines, handle_stream_response, note_usage, start_streaming, choice_calls,
  is_finish_tool_calls,
}
use opencode_multi_agents.Gateway.Stream.Transcript.{texts, texts-append, note_usage-kept}
use opencode_multi_agents.Gateway.Stream.Turns.{
  turn, turn_calls, after_turn, text, IsWithheld, after_turn-snoc, after_turn-written,
  after_turn-buffered, after_turn-accs, note_usage-accs, relay_lines-turn, flush_buffered-texts,
}

take_chunk-finish :
    (t : String) (c : Chunk) (st : Streaming)
    → is_finish_tool_calls c.choices ≡ true
    → (take_chunk true t c st).finish_tool_calls ≡ true
unfolding take_chunk
take_chunk-finish t c st h = ground (arith, h)

note_usage-finish :
    (u : Option Usage) (st : Streaming) → (note_usage u st).finish_tool_calls ≡ st.finish_tool_calls
note_usage-finish none st = refl
note_usage-finish (some u) st = ground arith

-- A chunk without choices, as one that carries the usage.
abbrev pub usage_only : Option Usage → Chunk
usage_only u = record { usage = u; choices = [] }

-- It passes on all that is withheld.
take_chunk-usage_only :
    (t : String) (u : Option Usage) (st : Streaming)
    → let s = take_chunk true t (usage_only u) st in
      (texts s.written ≡ (texts st.written ++ (st.buffered ++ t ∷ [])))
      × (s.accs ≡ st.accs)
      × (s.finish_tool_calls ≡ st.finish_tool_calls)
unfolding take_chunk read_chunk choice_calls
take_chunk-usage_only t u st =
    let k = note_usage-kept u st in
    let noted = note_usage u st in
    let flushed = flush_buffered-texts noted in
    let sent = texts-append (flush_buffered noted).written (relayed t ∷ []) in
    let a = append_assoc (texts st.written) st.buffered (t ∷ []) in
    (cc, note_usage-accs u st, note_usage-finish u st)

after_turn-finish :
    (earlier : List (String × Chunk)) (t : String) (c : Chunk) (st : Streaming)
    → is_finish_tool_calls c.choices ≡ true
    → (after_turn (earlier ++ (t, c) ∷ []) st).finish_tool_calls ≡ true
after_turn-finish [] t c st h = take_chunk-finish t c st h
after_turn-finish (x ∷ earlier) t c st h =
    after_turn-finish earlier t c (write (relayed "\n") (take_chunk true x.0 x.1 st)) h

IsWithheld-snoc :
    (earlier : List (String × Chunk)) (t : String) (c : Chunk)
    → All IsWithheld earlier
    → is_finish_tool_calls c.choices ≡ true
    → All IsWithheld (earlier ++ (t, c) ∷ [])
IsWithheld-snoc [] t c h fin = (ground (arith, fin), tt)
IsWithheld-snoc (x ∷ earlier) t c h fin = (h.0, IsWithheld-snoc earlier t c h.1 fin)

-- The end marker, where the calls are the gateway's: nothing that follows is read.
done-ours :
    (include_usage : Bool) (last : String) (rest : List Line) (end : End) (st : Streaming)
    → st.finish_tool_calls ≡ true
    → all_web_search (assemble_tool_calls st.accs) ≡ true
    → let r = relay_lines include_usage true (done last ∷ rest) end st in
      (r.1.written ≡ st.written) × (r.0.tool_calls ≡ assemble_tool_calls st.accs)
unfolding relay_lines intercepted
done-ours include_usage last rest end st fin ours = ground (arith, fin, ours)

-- If a usage chunk, which has no choices, comes between a turn that ends in the gateway's own tool
-- calls and the end marker, then the client gets the chunks of the turn, and the gateway executes
-- their tool calls all the same. Each chunk is followed by a blank line; the chunks before the one that
-- finishes the turn are withheld, and what follows the marker is not read.
pub handle_stream_response_leaks :
    (include_usage : Bool) (earlier : List (String × Chunk)) (t v last : String) (c : Chunk)
    (u : Option Usage) (after : List Line) (end : End)
    → All IsWithheld earlier
    → is_finish_tool_calls c.choices ≡ true
    → all_web_search (assemble_tool_calls (turn_calls (earlier ++ (t, c) ∷ []) [])) ≡ true
    → let cs = earlier ++ (t, c) ∷ [] in
      let lines = turn (cs ++ (v, usage_only u) ∷ []) (done last ∷ after) in
      let r = handle_stream_response include_usage true lines end in
      (texts r.1 ≡ (replicate (length cs) "\n" ++ (map text cs ++ v ∷ "\n" ∷ [])))
      × (r.0.tool_calls ≡ assemble_tool_calls (turn_calls cs []))
unfolding handle_stream_response
handle_stream_response_leaks include_usage earlier t v last c u after end h fin ours =
    let cs = earlier ++ (t, c) ∷ [] in
    let held = IsWithheld-snoc earlier t c h fin in
    let st = after_turn cs start_streaming in
    let two = take_chunk true v (usage_only u) st in
    let three = write (relayed "\n") two in
    let step =
      relay_lines-turn include_usage (cs ++ (v, usage_only u) ∷ []) (done last ∷ after) end
        start_streaming in
    let far = after_turn-snoc cs (v, usage_only u) start_streaming in
    let next = take_chunk-usage_only v u st in
    let b = after_turn-buffered cs start_streaming held in
    let w = after_turn-written cs start_streaming held in
    let a : three.accs ≡ turn_calls cs [] = next.1 ∙ after_turn-accs cs start_streaming held in
    let flag : three.finish_tool_calls ≡ true =
      next.2 ∙ after_turn-finish earlier t c start_streaming fin in
    let over = done-ours include_usage last after end three flag (rw a ours) in
    let sent = texts-append two.written (relayed "\n" ∷ []) in
    let a1 = append_assoc (texts st.written) (map text cs ++ v ∷ []) ("\n" ∷ []) in
    let a2 = append_assoc (map text cs) (v ∷ []) ("\n" ∷ []) in
    rw (step, far) (cc, over.1 ∙ ap assemble_tool_calls a)
