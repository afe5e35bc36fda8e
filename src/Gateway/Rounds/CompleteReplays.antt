-- ===== src/Gateway/Rounds/CompleteReplays.antt =====
-- The conversations of a completion that is not streamed.
use opencode_multi_agents.Prelude.{
  ℕ, zero, suc, ◌+◌, refl, sym, String, ◌&&◌, Option, none, some, List, [], append-nil, if_both,
}
use opencode_multi_agents.Gateway.Tools.{Message}
use opencode_multi_agents.Gateway.Stream.{Usage}
use opencode_multi_agents.Gateway.Rounds.{
  Sent, Outside, Complete, do_round, Rounds, start_rounds, requested, searched,
}
use opencode_multi_agents.Gateway.Completions.{
  Answer, counted, complete_received, interceptable, complete_next, complete_read, complete_round,
  complete_with_tool_rounds,
}
use opencode_multi_agents.Gateway.Rounds.Replays.{
  Replayed, do_round-Same, requested-Replayed, searched-Replayed, Keeps,
}

counted-Replayed :
    (body : List Message) (u : Option Usage) (st : Rounds)
    → Replayed body st
    → Replayed body (counted u st)
counted-Replayed body none st h = h
counted-Replayed body (some u) st h = h

module _ (out : Outside Complete) (p : String) (body : List Message) where
  complete_received-Replayed :
      (again : Complete → Rounds → Rounds × Answer) (got : List Sent × Option Complete)
      (st : Rounds)
      → Keeps body again
      → Replayed body (requested got.0 st)
      → Replayed body (complete_received out p again got st).0
  unfolding complete_received
  complete_received-Replayed again (ss, none) st keeps h = h
  complete_received-Replayed again (ss, some resp) st keeps h = keeps resp (requested ss st) h

  complete_next-Replayed :
      (round : ℕ) (again : Complete → Rounds → Rounds × Answer) (resp : Complete) (raw : String)
      (st : Rounds)
      → Keeps body again
      → Replayed body st
      → Replayed body (complete_next out p round (some again) resp raw st).0
  unfolding complete_next
  complete_next-Replayed round again resp raw st keeps h =
      let following = searched out resp.tool_calls st in
      let got = do_round out (round + 1) p following.messages in
      let same = do_round-Same out (round + 1) p following.messages in
      let one = searched-Replayed out body resp.tool_calls st h in
      let two = requested-Replayed body got.0 following one same in
      if_both (λ (r : Rounds × Answer). Replayed body r.0) (interceptable out p resp && out.replays)
        (complete_received-Replayed again got following keeps two) h

  complete_read-Replayed :
      (round : ℕ) (o : Option String) (again : Complete → Rounds → Rounds × Answer)
      (resp : Complete) (st : Rounds)
      → Keeps body again
      → Replayed body st
      → Replayed body (complete_read out p round (some again) resp o st).0
  unfolding complete_read
  complete_read-Replayed round none again resp st keeps h = h
  complete_read-Replayed round (some raw) again resp st keeps h =
      complete_next-Replayed round again resp raw (counted resp.usage st) keeps
        (counted-Replayed body resp.usage st h)

  complete_last-Replayed :
      (round : ℕ) (o : Option String) (resp : Complete) (st : Rounds)
      → Replayed body st
      → Replayed body (complete_read out p round none resp o st).0
  unfolding complete_read complete_next
  complete_last-Replayed round none resp st h = h
  complete_last-Replayed round (some raw) resp st h = counted-Replayed body resp.usage st h

  complete_round-Replayed : (left round : ℕ) → Keeps body (complete_round out p left round)
  unfolding complete_round
  complete_round-Replayed zero round resp st h = complete_last-Replayed round resp.raw resp st h
  complete_round-Replayed (suc left) round resp st h =
      complete_read-Replayed round resp.raw (complete_round out p left (round + 1)) resp st
        (complete_round-Replayed left (round + 1)) h

  -- So does each request of a completion that is not streamed.
  pub complete_with_tool_rounds-Replayed :
      (first_resp : Complete) → Replayed body (complete_with_tool_rounds out p body first_resp).0
  unfolding complete_with_tool_rounds
  complete_with_tool_rounds-Replayed first_resp =
      complete_round-Replayed out.max_rounds 0 first_resp (start_rounds body)
        (tt, ([], (sym (append-nil body), refl)))
