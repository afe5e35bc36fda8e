-- ===== src/Gateway/Rounds/Replays.antt =====
-- The conversations that the rounds of tool calls send upstream.
use opencode_multi_agents.Prelude.{
  All-append, ℕ, zero, suc, ◌+◌, ◌≡◌, refl, sym, subst, String, Bool, true, false, ◌&&◌, Option,
  none, some, List, [], ◌∷◌, ◌++◌, append-nil, append_assoc, arith, eq_iff, str_eq, All, All-imp,
  if_both,
}
use opencode_multi_agents.Gateway.Tools.{
  ToolCall, Message, other, assistant_calls, tool_result, exec_web_search_tools, tool_results,
  append_tool_results,
}
use opencode_multi_agents.Gateway.Stream.{Output, handle_stream_response}
use opencode_multi_agents.Gateway.Rounds.{
  Sent, Outside, Streamed, in_2xx, retry_reply, retry_on, retries, do_round, Rounds, start_rounds,
  requested, used, searched, stream_received, stream_next, stream_round, stream_with_tool_rounds,
}

-- Turns with tool calls, each followed by a result for every call, in the calls' order; `pending` are
-- those of the last turn that wait for theirs.
abbrev pub answered : List ToolCall → List Message → Bool
answered [] [] = true
answered [] (assistant_calls calls ∷ messages) = answered calls messages
answered (c ∷ pending) (tool_result id name content ∷ messages) =
    str_eq id c.id && (str_eq name c.name && answered pending messages)
answered _ _ = false

-- The client's conversation, and then such turns.
abbrev pub Extends : List Message → List Message → Type 0
Extends body messages =
    (turns : List Message) × ((messages ≡ (body ++ turns)) × (answered [] turns ≡ true))

answered-append :
    (pending : List ToolCall) (xs ys : List Message)
    → answered pending xs ≡ true
    → answered [] ys ≡ true
    → answered pending (xs ++ ys) ≡ true
answered-append [] [] ys h k = k
answered-append [] (assistant_calls calls ∷ xs) ys h k = answered-append calls xs ys h k
answered-append (c ∷ pending) (tool_result id name content ∷ xs) ys h k =
    ground (arith, h, answered-append pending xs ys, k)
answered-append (c ∷ pending) [] ys h k = cc
answered-append (c ∷ pending) (other text ∷ xs) ys h k = cc
answered-append (c ∷ pending) (assistant_calls calls ∷ xs) ys h k = cc
answered-append [] (other text ∷ xs) ys h k = cc
answered-append [] (tool_result id name content ∷ xs) ys h k = cc

answered-results :
    (run : String → Option String) (failure : String → String) (calls : List ToolCall)
    → answered calls (tool_results calls (exec_web_search_tools run failure calls)) ≡ true
unfolding exec_web_search_tools
answered-results run failure [] = refl
answered-results run failure (c ∷ calls) =
    ground (arith, answered-results run failure calls, eq_iff c.id c.id, eq_iff c.name c.name)

module _ {Response : Type 0} (out : Outside Response) where
  abbrev pub Same : List Message → Sent → Type 0
  Same messages s = s.1 ≡ messages

  retry_reply-Same :
      (p : String) (messages : List Message) (o : Option Response)
      (again : List Sent × Option Response)
      → All (Same messages) again.0
      → All (Same messages) (retry_reply out p messages o again).0
  unfolding retry_reply
  retry_reply-Same p messages none again h = (refl, h)
  retry_reply-Same p messages (some resp) again h = (refl, tt)

  retry_on-Same :
      (round i : ℕ) (messages : List Message) (o : Option String)
      (again : List Sent × Option Response)
      → All (Same messages) again.0
      → All (Same messages) (retry_on out round i messages o again).0
  unfolding retry_on
  retry_on-Same round i messages none again h = tt
  retry_on-Same round i messages (some p) again h = retry_reply-Same p messages _ again h

  retries-Same :
      (left round i : ℕ) (messages : List Message)
      → All (Same messages) (retries out left round i messages).0
  unfolding retries
  retries-Same zero round i messages = tt
  retries-Same (suc left) round i messages =
      retry_on-Same round i messages (out.fresh round i) _
        (retries-Same left round (i + 1) messages)

  pub do_round-Same :
      (round : ℕ) (p : String) (messages : List Message)
      → All (Same messages) (do_round out round p messages).0
  unfolding do_round
  do_round-Same round p messages =
      retry_reply-Same p messages (out.reply round 0 p messages) _ (retries-Same 2 round 0 messages)

  searched-Extends :
      (body : List Message) (calls : List ToolCall) (st : Rounds)
      → Extends body st.messages
      → Extends body (searched out calls st).messages
  unfolding searched append_tool_results
  searched-Extends body calls st (turns, (e, h)) =
      let results = exec_web_search_tools out.run out.failure calls in
      let turn = assistant_calls calls ∷ tool_results calls results in
      let a = append_assoc body turns turn in
      let done = answered-append [] turns turn h (answered-results out.run out.failure calls) in
      (turns ++ turn, (ground (arith, e, a), done))

abbrev pub sends : Sent → List Message
sends s = s.1

-- What has been sent, and what will be sent next.
abbrev pub Replayed : List Message → Rounds → Type 0
Replayed body st = All (λ s. Extends body (sends s)) st.sent × Extends body st.messages

pub requested-Replayed :
    (body : List Message) (ss : List Sent) (st : Rounds)
    → Replayed body st
    → All (λ s. sends s ≡ st.messages) ss
    → Replayed body (requested ss st)
requested-Replayed body ss st (sent, next) same =
    let those =
      All-imp (λ s. sends s ≡ st.messages) (λ s. Extends body (sends s)) ss
        (λ s e. subst (Extends body) (sym e) next) same in
    (All-append (λ s. Extends body (sends s)) st.sent ss sent those, next)

pub searched-Replayed :
    {Response : Type 0} (out : Outside Response) (body : List Message) (calls : List ToolCall)
    (st : Rounds)
    → Replayed body st
    → Replayed body (searched out calls st)
unfolding searched
searched-Replayed out body calls st (sent, next) = (sent, searched-Extends out body calls st next)

abbrev pub Keeps {ℓ} : {R : Type ℓ} {A : Type ℓ} → List Message → (R → Rounds → Rounds × A) → Type ℓ
Keeps body again = (resp : _) (st : Rounds) → Replayed body st → Replayed body (again resp st).0

module _ (out : Outside Streamed) (p : String) (include_usage : Bool) (body : List Message) where
  stream_received-Replayed :
      (again : Streamed → Rounds → Rounds × List Output) (got : List Sent × Option Streamed)
      (st : Rounds)
      → Keeps body again
      → Replayed body (requested got.0 st)
      → Replayed body (stream_received out p include_usage again got st).0
  unfolding stream_received
  stream_received-Replayed again (ss, none) st keeps h = h
  stream_received-Replayed again (ss, some resp) st keeps h =
      if_both (λ (r : Rounds × List Output). Replayed body r.0) (in_2xx resp.status)
        (keeps resp (requested ss st) h) h

  stream_next-Replayed :
      (round : ℕ) (again : Streamed → Rounds → Rounds × List Output) (calls : List ToolCall)
      (st : Rounds)
      → Keeps body again
      → Replayed body st
      → Replayed body (stream_next out p include_usage round again calls st).0
  unfolding stream_next
  stream_next-Replayed round again [] st keeps h = h
  stream_next-Replayed round again (c ∷ calls) st keeps (sent, next) =
      let following = searched out (c ∷ calls) st in
      let got = do_round out (round + 1) p following.messages in
      let same = do_round-Same out (round + 1) p following.messages in
      let one = searched-Replayed out body (c ∷ calls) st (sent, next) in
      let two = requested-Replayed body got.0 following one same in
      if_both (λ (r : Rounds × List Output). Replayed body r.0) out.replays
        (stream_received-Replayed again got following keeps two) (sent, next)

  stream_round-Replayed :
      (left round : ℕ) → Keeps body (stream_round out p include_usage left round)
  unfolding stream_round
  stream_round-Replayed zero round resp st h = h
  stream_round-Replayed (suc left) round resp st h =
      let r = handle_stream_response include_usage out.search resp.lines resp.end in
      stream_next-Replayed round (stream_round out p include_usage left (round + 1)) r.0.tool_calls
        (used r.0.usage st) (stream_round-Replayed left (round + 1)) h

-- Each request of a round repeats the client's conversation, and then for each earlier round the
-- model's tool calls with a result for every one of them, in their order and under their IDs.
pub stream_with_tool_rounds-Replayed :
    (out : Outside Streamed) (p : String) (include_usage : Bool) (body : List Message)
    (first_resp : Streamed)
    → Replayed body (stream_with_tool_rounds out p include_usage body first_resp).0
unfolding stream_with_tool_rounds
stream_with_tool_rounds-Replayed out p include_usage body first_resp =
    stream_round-Replayed out p include_usage body out.max_rounds 0 first_resp (start_rounds body)
      (tt, ([], (sym (append-nil body), refl)))
