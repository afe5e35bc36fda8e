-- ===== src/Gateway/Stream/Order.antt =====
-- handleStreamResponse: in which order the client gets the upstream's stream, and what of a turn
-- that the gateway takes over.
use opencode_multi_agents.Prelude.{
  ◌≡◌, refl, sym, ◌∙◌, ap, String, Bool, true, false, List, [], ◌∷◌, ◌++◌, map, arith, select,
  append-nil, append_assoc, Bool-cases, inl, inr, All,
}
use opencode_multi_agents.Gateway.Tools.{is_empty}
use opencode_multi_agents.Gateway.Stream.{
  Chunk, Line, plain, done, chunk, End, closed, broken, Output, relayed, usage_chunk, error_event,
  Streaming, write, flush_buffered, read_chunk, take_chunk, intercepted, add_usage, take_done,
  end_stream, relay_lines, handle_stream_response, start_streaming,
}
use opencode_multi_agents.Gateway.Stream.Transcript.{
  text_of, texts, texts-append, texts-relayed, note_usage-kept, intercepted_calls,
}

-- A test that no line but the `data: ` lines passes.
abbrev pub OnlyData : (String → Bool) → Line → Type 0
OnlyData p (plain text) = p text ≡ false
OnlyData p _ = Unit

module _ (p : String → Bool) where
  select-append : (xs ys : List String) → select p (xs ++ ys) ≡ (select p xs ++ select p ys)
  select-append [] ys = refl
  select-append (x ∷ xs) ys = ground (arith, select-append xs ys)

  -- The lines that pass and have been written, then those that are withheld.
  abbrev so_far : Streaming → List String
  so_far st = select p (texts st.written) ++ select p st.buffered

  written-select :
      (os ps : List Output)
      → select p (texts (os ++ ps)) ≡ (select p (texts os) ++ select p (texts ps))
  written-select os ps = rw (texts-append os ps) (select-append (texts os) (texts ps))

  flush_buffered-select :
      (st : Streaming) → select p (texts (flush_buffered st).written) ≡ so_far st
  flush_buffered-select st =
      let e = written-select st.written (map relayed st.buffered) in
      let b = ap (select p) (texts-relayed st.buffered) in cc

  add_usage-select :
      (include_usage : Bool) (st : Streaming)
      → select p (texts (add_usage include_usage st).written) ≡ select p (texts st.written)
  add_usage-select include_usage st =
      let e = written-select st.written (usage_chunk st.usage ∷ []) in
      let n = append-nil (select p (texts st.written)) in ground (arith, e, n)

  read_chunk-so_far : (c : Chunk) (st : Streaming) → so_far (read_chunk c st) ≡ so_far st
  unfolding read_chunk
  read_chunk-so_far c st = let k = note_usage-kept c.usage st in ground (arith, k.0, k.1)

  take_chunk-so_far :
      (intercept_tools : Bool) (text : String) (c : Chunk) (st : Streaming)
      → so_far (take_chunk intercept_tools text c st) ≡ (so_far st ++ select p (text ∷ []))
  unfolding take_chunk
  take_chunk-so_far intercept_tools text c st =
      let s = read_chunk c st in
      let same = read_chunk-so_far c st in
      let kept = select-append s.buffered (text ∷ []) in
      let flushed = flush_buffered-select s in
      let sent = written-select (flush_buffered s).written (relayed text ∷ []) in
      let n = append-nil (select p (texts (write (relayed text) (flush_buffered s)).written)) in
      let a =
        append_assoc (select p (texts s.written)) (select p s.buffered) (select p (text ∷ [])) in
      ground (arith, same, kept, flushed, sent, n, a)

  take_done-so_far :
      (include_usage : Bool) (text : String) (st : Streaming)
      → so_far (take_done include_usage text st) ≡ (so_far st ++ select p (text ∷ []))
  take_done-so_far include_usage text st =
      let flushed = flush_buffered-select st in
      let used = add_usage-select include_usage (flush_buffered st) in
      let noted = add_usage include_usage (flush_buffered st) in
      let sent = written-select noted.written (relayed text ∷ []) in
      let n = append-nil (select p (texts (write (relayed text) noted).written)) in
      ground (arith, flushed, used, sent, n)

  end_stream-so_far :
      (end : End) (st : Streaming) → select p (texts (end_stream end st).1.written) ≡ so_far st
  unfolding end_stream
  end_stream-so_far closed st = flush_buffered-select st
  end_stream-so_far broken st =
      let flushed = flush_buffered-select st in
      let sent = written-select (flush_buffered st).written (error_event ∷ []) in
      let n = append-nil (select p (texts (flush_buffered st).written)) in cc

  -- A line that does not pass changes nothing.
  skip-so_far :
      (text : String) (st : Streaming)
      → p text ≡ false
      → so_far (write (relayed text) st) ≡ so_far st
  skip-so_far text st e =
      let sent = written-select st.written (relayed text ∷ []) in
      let n = append-nil (select p (texts st.written)) in ground (arith, sent, n, e)

  next-so_far :
      (text : String) (xs ys zs : List String)
      → ys ≡ (xs ++ select p (text ∷ []))
      → (ys ++ zs) ≡ (xs ++ (select p (text ∷ []) ++ zs))
  next-so_far text xs ys zs e = rw e (append_assoc xs (select p (text ∷ [])) zs)

  select-next :
      (text : String) (xs : List String)
      → select p (text ∷ xs) ≡ (select p (text ∷ []) ++ select p xs)
  select-next text xs = select-append (text ∷ []) xs

  module _ (include_usage intercept_tools : Bool) where
    relay_lines-so_far :
        (lines : List Line) (end : End) (st : Streaming)
        → let r = relay_lines include_usage intercept_tools lines end st in
          All (OnlyData p) lines
          → is_empty r.0.tool_calls ≡ true
          → select p (texts r.1.written) ≡ (so_far st ++ select p (map text_of lines))
    unfolding relay_lines
    relay_lines-so_far [] end st a h = end_stream-so_far end st ∙ sym (append-nil (so_far st))
    relay_lines-so_far (plain text ∷ lines) end st a h =
        let rest = relay_lines-so_far lines end (write (relayed text) st) a.1 h in
        ground (arith, skip-so_far text st a.0, rest, a.0)
    relay_lines-so_far (chunk text c ∷ lines) end st a h =
        let taken = take_chunk intercept_tools text c st in
        let rest = relay_lines-so_far lines end taken a.1 h in
        let next =
          next-so_far text (so_far st) (so_far taken) (select p (map text_of lines))
            (take_chunk-so_far intercept_tools text c st) in
        let split = select-next text (map text_of lines) in cc
    relay_lines-so_far (done text ∷ lines) end st a h =
        elim (Bool-cases (intercepted intercept_tools st)) [
          | inl e ↦
              let some_call = intercepted_calls intercept_tools st e in ground (arith, h, some_call)
          | inr e ↦
              let taken = take_done include_usage text st in
              let rest = relay_lines-so_far lines end taken a.1 in
              let next =
                next-so_far text (so_far st) (so_far taken) (select p (map text_of lines))
                  (take_done-so_far include_usage text st) in
              let split = select-next text (map text_of lines) in
              ground (arith, h, rest, next, split)
        ]

    -- Unless the gateway takes a turn's tool calls for itself, the client gets the `data: ` lines in
    -- the order in which they came: those of them that pass a test, which no other line passes, are
    -- the same before and after.
    pub handle_stream_response_ordered :
        (lines : List Line) (end : End)
        → let r = handle_stream_response include_usage intercept_tools lines end in
          All (OnlyData p) lines
          → is_empty r.0.tool_calls ≡ true
          → select p (texts r.1) ≡ select p (map text_of lines)
    unfolding handle_stream_response
    handle_stream_response_ordered lines end a h = relay_lines-so_far lines end start_streaming a h
