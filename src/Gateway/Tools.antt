-- ===== src/Gateway/Tools.antt =====
-- internal/handler/tools.go: tool calls, and the parts of their handling that involve no stream. A
-- tool call that comes from JSON is what the gateway reads of it; the JSON itself is not modelled.
use opencode_multi_agents.Prelude.{
  ℕ, String, Bool, true, false, ◌&&◌, not, Option, none, some, List, [], ◌∷◌, ◌++◌, ◌==◌, str_eq,
  if◌then◌else◌,
}
use opencode_multi_agents.Prelude.Text.{text_append}

-- toolCallAccum
pub record ToolCallAccum : Type 0 where
  pub id : String
  pub typ : String
  pub name : String
  pub args : String

-- A tool call of an answer.
pub record ToolCall : Type 0 where
  pub id : String
  pub typ : String
  pub name : String
  pub args : String

-- A fragment of a streamed tool call.
pub record ToolDelta : Type 0 where
  pub index : ℕ
  pub id : String
  pub typ : String
  pub name : String
  pub args : String

-- The accumulators, `accs` with `callOrder`: in the order in which their indices first came.
abbrev pub Accs : Type 0
Accs = List (ℕ × ToolCallAccum)

abbrev pub or_else : String → String → String
or_else new old = if str_eq new "" then old else new

-- The fields of a fragment that are there replace the old ones; the arguments are appended.
abbrev pub merged : ToolDelta → ToolCallAccum → ToolCallAccum
merged d a = record {
  id = or_else d.id a.id;
  typ = or_else d.typ a.typ;
  name = or_else d.name a.name;
  args = text_append a.args d.args;
}

abbrev pub fresh_accum : ToolCallAccum
fresh_accum = record { id = ""; typ = ""; name = ""; args = "" }

-- One fragment, in the loop of handleStreamResponse.
unfoldable pub accumulate : ToolDelta → Accs → Accs
accumulate d [] = (d.index, merged d fresh_accum) ∷ []
accumulate d ((i, a) ∷ accs) =
    if i == d.index then (i, merged d a) ∷ accs else (i, a) ∷ accumulate d accs

abbrev pub assembled : ToolCallAccum → ToolCall
assembled a = record {
  id = a.id;
  typ = if str_eq a.typ "" then "function" else a.typ;
  name = a.name;
  args = a.args;
}

-- assembleToolCalls: calls without a name are left out
unfoldable pub assemble_tool_calls : Accs → List ToolCall
assemble_tool_calls [] = []
assemble_tool_calls ((i, a) ∷ accs) =
    let rest = assemble_tool_calls accs in if str_eq a.name "" then rest else assembled a ∷ rest

-- webSearchToolName
abbrev pub is_web_search : ToolCall → Bool
is_web_search c = str_eq c.name "web_search"

abbrev pub every_web_search : List ToolCall → Bool
every_web_search [] = true
every_web_search (c ∷ calls) = is_web_search c && every_web_search calls

abbrev pub is_empty {ℓ} : {A : Type ℓ} → List A → Bool
is_empty [] = true
is_empty (_ ∷ _) = false

-- allWebSearch
unfoldable pub all_web_search : List ToolCall → Bool
all_web_search calls = every_web_search calls && not (is_empty calls)

-- A message of a conversation; `other` stands for one of the client's or the model's.
pub data Message : Type 0 where
  other : String → Message
  assistant_calls : List ToolCall → Message
  tool_result : String → String → String → Message

-- execWebSearchTools, over the answer of the search service: `none` is its error
unfoldable pub exec_web_search_tools :
    (String → Option String) → (String → String) → List ToolCall → List String
exec_web_search_tools run failure [] = []
exec_web_search_tools run failure (c ∷ calls) =
    elim (run c.args) [ none ↦ failure c.args | some content ↦ content ]
    ∷ exec_web_search_tools run failure calls

abbrev pub tool_results : List ToolCall → List String → List Message
tool_results (c ∷ calls) (r ∷ results) = tool_result c.id c.name r ∷ tool_results calls results
tool_results _ _ = []

-- appendToolResults, on the messages of a body
unfoldable pub append_tool_results : List Message → List ToolCall → List String → List Message
append_tool_results messages calls results =
    messages ++ assistant_calls calls ∷ tool_results calls results
