-- ===== src/Gateway/Completions.antt =====
-- internal/handler/tools.go: completeWithToolRounds. The headers that are passed on are left out.
use opencode_multi_agents.Prelude.{
  ℕ, zero, suc, ◌+◌, String, Bool, ◌&&◌, Option, none, some, List, if◌then◌else◌,
}
use opencode_multi_agents.Gateway.Tools.{all_web_search, Message}
use opencode_multi_agents.Gateway.Stream.{Usage}
use opencode_multi_agents.Gateway.Rounds.{
  Sent, Outside, Complete, in_2xx, do_round, Rounds, start_rounds, requested, used, searched,
}

-- What the client is told: the last answer of the upstream, or 502 with a message.
pub data Answer : Type 0 where
  passed_on : ℕ → String → Answer
  failed : String → Answer

abbrev pub counted : Option Usage → Rounds → Rounds
counted none st = st
counted (some u) st = used u st

module _ (out : Outside Complete) (p : String) where
  unfoldable pub complete_received :
      (Complete → Rounds → Rounds × Answer) → List Sent × Option Complete → Rounds → Rounds × Answer
  complete_received again (ss, none) st =
      (requested ss st, failed "Request failed during web search")
  complete_received again (ss, some resp) st = again resp (requested ss st)

  -- `interceptable`, in a round before the last
  unfoldable pub interceptable : Complete → Bool
  interceptable resp = out.search && (all_web_search resp.tool_calls && in_2xx resp.status)

  -- `again` is there where the round is before WebSearchMaxRounds.
  unfoldable pub complete_next :
      ℕ
      → Option (Complete → Rounds → Rounds × Answer)
      → Complete
      → String
      → Rounds
      → Rounds × Answer
  unfolding complete_received interceptable
  complete_next round none resp raw st = (st, passed_on resp.status raw)
  complete_next round (some again) resp raw st =
      let next = searched out resp.tool_calls st in
      let rest = complete_received again (do_round out (round + 1) p next.messages) next in
      if interceptable resp && out.replays then rest else (st, passed_on resp.status raw)

  unfoldable pub complete_read :
      ℕ
      → Option (Complete → Rounds → Rounds × Answer)
      → Complete
      → Option String
      → Rounds
      → Rounds × Answer
  unfolding complete_next
  complete_read round o resp none st = (st, failed "Failed to read upstream response")
  complete_read round o resp (some raw) st = complete_next round o resp raw (counted resp.usage st)

  -- A round, with the number of rounds that are left and the response at hand.
  unfoldable pub complete_round : ℕ → ℕ → Complete → Rounds → Rounds × Answer
  unfolding complete_read
  complete_round zero round resp st = complete_read round none resp resp.raw st
  complete_round (suc left) round resp st =
      complete_read round (some (complete_round left (round + 1))) resp resp.raw st

  -- completeWithToolRounds
  unfoldable pub complete_with_tool_rounds : List Message → Complete → Rounds × Answer
  unfolding complete_round
  complete_with_tool_rounds body first_resp =
      complete_round out.max_rounds 0 first_resp (start_rounds body)
