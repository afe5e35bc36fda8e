-- ===== src/Gateway/Rounds/Usages.antt =====
-- The token counts of the rounds.
use opencode_multi_agents.Prelude.{
  ℕ, zero, suc, ◌+◌, ◌≡◌, refl, String, Bool, Option, none, some, List, [], ◌∷◌, if_both,
}
use opencode_multi_agents.Gateway.Tools.{ToolCall, Message}
use opencode_multi_agents.Gateway.Stream.{Output, handle_stream_response}
use opencode_multi_agents.Gateway.Rounds.{
  Sent, Outside, Streamed, in_2xx, do_round, Rounds, start_rounds, requested, used, searched,
  stream_received, stream_next, stream_round, stream_with_tool_rounds,
}

abbrev Uncached : Rounds → Type 0
Uncached st = st.total_usage.cached_tokens ≡ 0

abbrev Keeps {ℓ} : {R : Type ℓ} {A : Type ℓ} → (R → Rounds → Rounds × A) → Type ℓ
Keeps again = (resp : _) (st : Rounds) → Uncached st → Uncached (again resp st).0

searched-Uncached :
    {Response : Type 0} (out : Outside Response) (calls : List ToolCall) (st : Rounds)
    → Uncached st
    → Uncached (searched out calls st)
unfolding searched
searched-Uncached out calls st h = h

module _ (out : Outside Streamed) (p : String) (include_usage : Bool) where
  stream_received-Uncached :
      (again : Streamed → Rounds → Rounds × List Output) (got : List Sent × Option Streamed)
      (st : Rounds)
      → Keeps again
      → Uncached st
      → Uncached (stream_received out p include_usage again got st).0
  unfolding stream_received
  stream_received-Uncached again (ss, none) st keeps h = h
  stream_received-Uncached again (ss, some resp) st keeps h =
      if_both (λ (r : Rounds × List Output). Uncached r.0) (in_2xx resp.status)
        (keeps resp (requested ss st) h) h

  stream_next-Uncached :
      (round : ℕ) (again : Streamed → Rounds → Rounds × List Output) (calls : List ToolCall)
      (st : Rounds)
      → Keeps again
      → Uncached st
      → Uncached (stream_next out p include_usage round again calls st).0
  unfolding stream_next
  stream_next-Uncached round again [] st keeps h = h
  stream_next-Uncached round again (c ∷ calls) st keeps h =
      let following = searched out (c ∷ calls) st in
      if_both (λ (r : Rounds × List Output). Uncached r.0) out.replays
        (stream_received-Uncached again (do_round out (round + 1) p following.messages) following
          keeps (searched-Uncached out (c ∷ calls) st h))
        h

  stream_round-Uncached : (left round : ℕ) → Keeps (stream_round out p include_usage left round)
  unfolding stream_round
  stream_round-Uncached zero round resp st h = h
  stream_round-Uncached (suc left) round resp st h =
      let r = handle_stream_response include_usage out.search resp.lines resp.end in
      stream_next-Uncached round (stream_round out p include_usage left (round + 1)) r.0.tool_calls
        (used r.0.usage st) (stream_round-Uncached left (round + 1)) h

  -- However many cached tokens the upstream reports for a streamed completion, the usage that is
  -- recorded for it counts none.
  pub stream_with_tool_rounds-cached :
      (body : List Message) (first_resp : Streamed)
      → (stream_with_tool_rounds out p include_usage body first_resp).0.total_usage.cached_tokens
        ≡ 0
  unfolding stream_with_tool_rounds
  stream_with_tool_rounds-cached body first_resp =
      stream_round-Uncached out.max_rounds 0 first_resp (start_rounds body) refl
