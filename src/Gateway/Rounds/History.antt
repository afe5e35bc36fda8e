-- ===== src/Gateway/Rounds/History.antt =====
-- What the rounds of tool calls send: round by round, with the response that each answers.
use opencode_multi_agents.Prelude.{
  ℕ, zero, suc, ◌+◌, ◌≤◌, ◌≡◌, refl, subst, String, Bool, true, false, ◌&&◌, Option, none, some,
  List, [], ◌∷◌, ◌++◌, arith, eq_iff, str_eq, All, if_both,
}
use opencode_multi_agents.Gateway.Tools.{
  ToolCall, is_empty, Message, assistant_calls, tool_result, exec_web_search_tools, tool_results,
  append_tool_results,
}
use opencode_multi_agents.Gateway.Stream.{Output, handle_stream_response}
use opencode_multi_agents.Gateway.Rounds.{
  Sent, Outside, Streamed, in_2xx, retry_reply, retry_on, retries, do_round, Rounds, start_rounds,
  requested, used, searched, stream_received, stream_next, stream_round, stream_with_tool_rounds,
}
use opencode_multi_agents.Gateway.Rounds.Replays.{do_round-Same}

-- A result for every call, in the calls' order and under their IDs and names, and nothing else.
abbrev pub answers : List ToolCall → List Message → Bool
answers [] [] = true
answers (c ∷ calls) (tool_result id name content ∷ messages) =
    str_eq id c.id && (str_eq name c.name && answers calls messages)
answers _ _ = false

answers-results :
    (run : String → Option String) (failure : String → String) (calls : List ToolCall)
    → answers calls (tool_results calls (exec_web_search_tools run failure calls)) ≡ true
unfolding exec_web_search_tools
answers-results run failure [] = refl
answers-results run failure (c ∷ calls) =
    ground (arith, answers-results run failure calls, eq_iff c.id c.id, eq_iff c.name c.name)

module _ (out : Outside Streamed) where
  -- One of the replies to some messages, or none.
  abbrev pub IsReply : List Message → Option Streamed → Type 0
  IsReply messages none = Unit {0}
  IsReply messages (some resp) =
      (round : ℕ) × (i : ℕ) × (p : String) × (out.reply round i p messages ≡ some resp)

  abbrev Sound : List Message → List Sent × Option Streamed → Type 0
  Sound messages r = (is_empty r.0 ≡ false) × IsReply messages r.1

  retry_reply-Sound :
      (round i : ℕ) (p : String) (messages : List Message) (o : Option Streamed)
      (again : List Sent × Option Streamed)
      → out.reply round i p messages ≡ o
      → IsReply messages again.1
      → Sound messages (retry_reply out p messages o again)
  unfolding retry_reply
  retry_reply-Sound round i p messages none again e h = (refl, h)
  retry_reply-Sound round i p messages (some resp) again e h = (refl, (round, i, p, e))

  retry_on-IsReply :
      (round i : ℕ) (messages : List Message) (o : Option String)
      (again : List Sent × Option Streamed)
      → IsReply messages again.1
      → IsReply messages (retry_on out round i messages o again).1
  unfolding retry_on
  retry_on-IsReply round i messages none again h = tt
  retry_on-IsReply round i messages (some p) again h =
      (retry_reply-Sound round (i + 1) p messages (out.reply round (i + 1) p messages) again refl
        h).1

  retries-IsReply :
      (left round i : ℕ) (messages : List Message)
      → IsReply messages (retries out left round i messages).1
  unfolding retries
  retries-IsReply zero round i messages = tt
  retries-IsReply (suc left) round i messages =
      retry_on-IsReply round i messages (out.fresh round i)
        (retries out left round (i + 1) messages) (retries-IsReply left round (i + 1) messages)

  do_round-Sound :
      (round : ℕ) (p : String) (messages : List Message)
      → Sound messages (do_round out round p messages)
  unfolding do_round
  do_round-Sound round p messages =
      retry_reply-Sound round 0 p messages (out.reply round 0 p messages)
        (retries out 2 round 0 messages) refl (retries-IsReply 2 round 0 messages)

module _ (out : Outside Streamed) (include_usage : Bool) (body : List Message)
    (first_resp : Streamed) where
  -- The tool calls of the model in a response, which are the gateway's.
  abbrev pub calls_in : Streamed → List ToolCall
  calls_in resp = (handle_stream_response include_usage out.search resp.lines resp.end).0.tool_calls

  -- The requests that were sent so far, the conversation, and the last response, after some rounds: at
  -- first nothing, the client's conversation and the first response; and a round asks the same thing at
  -- least once, which is the conversation before it, the tool calls of the response before it, of
  -- which there are some, and a result for each of them; and its response is a reply to that.
  pub data History : ℕ → List Sent → List Message → Option Streamed → Type 0 where
    start : History 0 [] body (some first_resp)
    next :
        {n : ℕ} {sent : List Sent} {messages : List Message} {resp : Streamed} (ss : List Sent)
        (results : List Message) (got : Option Streamed)
        → History n sent messages (some resp)
        → is_empty (calls_in resp) ≡ false
        → answers (calls_in resp) results ≡ true
        → is_empty ss ≡ false
        → All (λ (s : Sent). s.1 ≡ messages ++ assistant_calls (calls_in resp) ∷ results) ss
        → IsReply out (messages ++ assistant_calls (calls_in resp) ∷ results) got
        → History (suc n) (sent ++ ss) (messages ++ assistant_calls (calls_in resp) ∷ results) got

  -- A round, with the calls by another name.
  following_turn :
      (n : ℕ) (calls : List ToolCall) (resp : Streamed) (sent : List Sent) (messages : List Message)
      (ss : List Sent) (results : List Message) (got : Option Streamed)
      → calls_in resp ≡ calls
      → History n sent messages (some resp)
      → is_empty calls ≡ false
      → answers calls results ≡ true
      → is_empty ss ≡ false
      → All (λ (s : Sent). s.1 ≡ messages ++ assistant_calls calls ∷ results) ss
      → IsReply out (messages ++ assistant_calls calls ∷ results) got
      → History (suc n) (sent ++ ss) (messages ++ assistant_calls calls ∷ results) got
  following_turn n calls resp sent messages ss results got e h =
      subst
        (λ (cs : List ToolCall).
          is_empty cs ≡ false
          → answers cs results ≡ true
          → is_empty ss ≡ false
          → All (λ (s : Sent). s.1 ≡ messages ++ assistant_calls cs ∷ results) ss
          → IsReply out (messages ++ assistant_calls cs ∷ results) got
          → History (suc n) (sent ++ ss) (messages ++ assistant_calls cs ∷ results) got)
        e (next ss results got h)

  -- Some history within a number of rounds.
  abbrev pub Told : ℕ → Rounds → Type 0
  Told most st = (n : ℕ) × (got : Option Streamed) × (n ≤ most) × History n st.sent st.messages got

  abbrev Goes : ℕ → ℕ → (Streamed → Rounds → Rounds × List Output) → Type 0
  Goes n most again =
      (resp : Streamed) (st : Rounds)
      → History n st.sent st.messages (some resp)
      → Told most (again resp st).0

  module _ (p : String) where
    stream_received-Told :
        (n most : ℕ) (again : Streamed → Rounds → Rounds × List Output)
        (got : List Sent × Option Streamed) (st : Rounds)
        → Goes n most again
        → n ≤ most
        → History n (requested got.0 st).sent st.messages got.1
        → Told most (stream_received out p include_usage again got st).0
    unfolding stream_received
    stream_received-Told n most again (ss, none) st goes le h = (n, none, le, h)
    stream_received-Told n most again (ss, some resp) st goes le h =
        if_both (λ (r : Rounds × List Output). Told most r.0) (in_2xx resp.status)
          (goes resp (requested ss st) h) (n, some resp, le, h)

    searched-History :
        (n round : ℕ) (calls : List ToolCall) (resp : Streamed) (st : Rounds)
        → calls_in resp ≡ calls
        → is_empty calls ≡ false
        → History n st.sent st.messages (some resp)
        → let following = searched out calls st in
          let got = do_round out (round + 1) p following.messages in
          History (suc n) (requested got.0 following).sent following.messages got.1
    unfolding searched append_tool_results
    searched-History n round calls resp st e some_call h =
        let results = tool_results calls (exec_web_search_tools out.run out.failure calls) in
        let messages = st.messages ++ assistant_calls calls ∷ results in
        let got = do_round out (round + 1) p messages in
        let sound = do_round-Sound out (round + 1) p messages in
        let same = do_round-Same out (round + 1) p messages in
        following_turn n calls resp st.sent st.messages got.0 results got.1 e h some_call
          (answers-results out.run out.failure calls) sound.0 same sound.1

    stream_next-Told :
        (n most round : ℕ) (again : Streamed → Rounds → Rounds × List Output)
        (calls : List ToolCall) (resp : Streamed) (st : Rounds)
        → Goes (suc n) most again
        → suc n ≤ most
        → calls_in resp ≡ calls
        → History n st.sent st.messages (some resp)
        → Told most (stream_next out p include_usage round again calls st).0
    unfolding stream_next
    stream_next-Told n most round again [] resp st goes le e h =
        (n, some resp, omega (arith, le), h)
    stream_next-Told n most round again (c ∷ calls) resp st goes le e h =
        let following = searched out (c ∷ calls) st in
        let got = do_round out (round + 1) p following.messages in
        if_both (λ (r : Rounds × List Output). Told most r.0) out.replays
          (stream_received-Told (suc n) most again got following goes le
            (searched-History n round (c ∷ calls) resp st e refl h))
          (n, some resp, omega (arith, le), h)

    stream_round-Told :
        (left n round : ℕ) (resp : Streamed) (st : Rounds)
        → History n st.sent st.messages (some resp)
        → Told (n + left) (stream_round out p include_usage left round resp st).0
    unfolding stream_round
    stream_round-Told zero n round resp st h = (n, some resp, omega arith, h)
    stream_round-Told (suc left) n round resp st h =
        let r = handle_stream_response include_usage out.search resp.lines resp.end in
        stream_next-Told n (n + suc left) round (stream_round out p include_usage left (round + 1))
          r.0.tool_calls resp (used r.0.usage st)
          (λ resp st h.
            subst (λ m. Told m (stream_round out p include_usage left (round + 1) resp st).0)
              (omega arith) (stream_round-Told left (suc n) (round + 1) resp st h))
          (omega arith) refl h

    -- What is sent in the rounds of tool calls has a history, of at most the configured number of
    -- rounds: each round sends, with its retries, one and the same conversation, which is that of the
    -- round before, the tool calls of the response to that, and a result for every one of them, in
    -- their order and under their IDs.
    pub stream_with_tool_rounds-Told :
        Told out.max_rounds (stream_with_tool_rounds out p include_usage body first_resp).0
    unfolding stream_with_tool_rounds
    stream_with_tool_rounds-Told =
        subst
          (λ m.
            Told m
              (stream_round out p include_usage out.max_rounds 0 first_resp (start_rounds body)).0)
          (omega arith) (stream_round-Told out.max_rounds 0 0 first_resp (start_rounds body) start)
