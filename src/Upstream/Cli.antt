-- ===== src/Upstream/Cli.antt =====
-- internal/upstream/opencode_cli.go: the driver that runs the opencode command in a container. What
-- the JSON decoder reads in a message or an event comes with it; a text is a list of its bytes.
pub mod Chunks
use opencode_multi_agents.Prelude.{
  ℕ, String, Bool, true, false, ◌&&◌, ◌||◌, not, Option, none, some, List, [], ◌∷◌, ◌++◌, map, ◌==◌,
  str_eq, if◌then◌else◌,
}
use opencode_multi_agents.Prelude.Map.{Map, lookup, insert}
use opencode_multi_agents.Prelude.Text.{bytes_of}
use opencode_multi_agents.Prelude.Bytes.{Bytes, is_blank, is_space, trim_space, split_at}
use opencode_multi_agents.Proxy.Socks5.{trim_prefix}
use opencode_multi_agents.Gateway.Auth.{Auth}
use opencode_multi_agents.Upstream.Client.{is_rate_limit_error}

-- credential
unfoldable pub credential : Auth → Bytes
unfolding trim_space
credential auth = trim_prefix (bytes_of "Bearer ") (trim_space auth.value)

-- A message, by its role and the text of its content; the texts of its parts are joined by newlines.
pub record CliMessage : Type 0 where
  pub role : Bytes
  pub content : Bytes

-- "User: ", "Assistant: ", or the role as it is
abbrev pub speaker : Bool → Bool → Bytes → Bytes
speaker true assistant role = bytes_of "User: "
speaker false true role = bytes_of "Assistant: "
speaker false false role = role ++ bytes_of ": "

abbrev pub is_text : Bytes → Bytes → Bool
is_text [] [] = true
is_text (c ∷ s) (d ∷ t) = c == d && is_text s t
is_text _ _ = false

unfoldable pub transcript : List CliMessage → Bytes
transcript [] = []
transcript (m ∷ ms) =
    let rest = transcript ms in
    let who =
      speaker (is_text m.role (bytes_of "user")) (is_text m.role (bytes_of "assistant")) m.role in
    if is_blank m.content then rest else who ++ (m.content ++ 10 ∷ 10 ∷ rest)

-- buildPrompt
unfoldable pub build_prompt : List CliMessage → Bytes
unfolding transcript trim_space
build_prompt ms = trim_space (transcript ms)

-- The settings that the driver reads.
pub record CliConfig : Type 0 where
  pub cli_model : Bytes
  pub cli_args : List Bytes
  pub provider_env : Bytes
  pub cli_models : List Bytes

abbrev pub or_configured : Bytes → Bytes → Bytes
or_configured configured model = if is_blank configured then model else configured

abbrev pub flag : Bytes → Bytes → List Bytes
flag name val = if is_blank val then [] else name ∷ val ∷ []

abbrev pub last_arg : Bytes → List Bytes
last_arg prompt = if is_blank prompt then [] else prompt ∷ []

-- runArgs
unfoldable pub run_args : CliConfig → Bytes → Bytes → Bytes → List Bytes
run_args cfg model session_id prompt =
    bytes_of "opencode"
    ∷ bytes_of "run"
    ∷ bytes_of "--format"
    ∷ bytes_of "json"
    ∷ (flag (bytes_of "--model") (or_configured cfg.cli_model model)
        ++ (cfg.cli_args ++ (flag (bytes_of "--session") session_id ++ last_arg prompt)))

-- An event of the command's output, by its type. A session has the ID of its object and its own.
pub data CliEvent : Type 0 where
  session : Bytes → Bytes → CliEvent
  text reasoning error : Bytes → CliEvent
  other : Bytes → CliEvent

pub record CliRunResult : Type 0 where
  pub text : Bytes
  pub reasoning : Bytes
  pub session_id : Bytes
  pub err_msg : Bytes

abbrev pub start_run : CliRunResult
start_run = record { text = []; reasoning = []; session_id = []; err_msg = [] }

-- One event, in the loop of run.
unfoldable pub take_event : CliEvent → CliRunResult → CliRunResult
take_event (session id session_id) r = record r {
  session_id = or_configured session_id (or_configured id r.session_id);
}
take_event (text s) r = record r { text = r.text ++ s }
take_event (reasoning s) r = record r { reasoning = r.reasoning ++ s }
take_event (error message) r = record r { err_msg = message }
take_event (other session_id) r = record r { session_id = or_configured r.session_id session_id }

unfoldable pub take_events : List CliEvent → CliRunResult → CliRunResult
unfolding take_event
take_events [] r = r
take_events (e ∷ es) r = take_events es (take_event e r)

-- Without a text the raw output is the text.
abbrev pub or_raw : Bytes → CliRunResult → CliRunResult
or_raw raw r = if is_blank r.text then record r { text = raw } else r

-- run: the events, the raw output, and the error of the command; the error that is returned
unfoldable pub run : List CliEvent → Bytes → Option Bytes → CliRunResult × Option Bytes
unfolding take_events
run events raw exec_error =
    let r = take_events events start_run in
    let whole = or_raw raw r in
    if not (is_blank r.err_msg)
    then (r, some (bytes_of "opencode: " ++ r.err_msg))
    else if is_blank whole.text
    then (whole, exec_error)
    else (whole, none)

-- `strings.Fields`, of the text that is left and the word before it
unfoldable pub fields_from : Bytes → Bytes → List Bytes
fields_from word [] = if is_blank word then [] else word ∷ []
fields_from word (c ∷ s) =
    let rest = fields_from [] s in
    let more = fields_from (word ++ c ∷ []) s in
    if is_space c then (if is_blank word then rest else word ∷ rest) else more

abbrev pub spaced : List Bytes → List Bytes
spaced [] = []
spaced (w ∷ ws) = (32 ∷ w) ∷ spaced ws

-- The chunks of a line: its words, with a space before all but the first
abbrev pub line_chunks : List Bytes → List Bytes
line_chunks [] = []
line_chunks (w ∷ ws) = w ∷ spaced ws

unfoldable pub chunks_of : List Bytes → List Bytes
unfolding fields_from
chunks_of [] = []
chunks_of (line ∷ lines) = line_chunks (fields_from [] line) ++ chunks_of lines

-- splitChunks
unfoldable pub split_chunks : Bytes → List Bytes
unfolding chunks_of split_at
split_chunks s = chunks_of (split_at 10 s)

pub record CliRequest : Type 0 where
  pub model : Bytes
  pub messages : List CliMessage
  pub conversation_id : String

-- A response: an error with its status, or the model, with the reasoning and the text in chunks, or
-- with the text at once.
pub data CliReply : Type 0 where
  refused : ℕ → CliReply
  limited : CliReply
  streamed : Bytes → Bytes → List Bytes → CliReply
  complete : Bytes → Bytes → CliReply

abbrev pub remembered : String → Map Bytes → Bytes
remembered id sessions =
    let known : Bytes = elim (lookup id sessions) [ none ↦ [] | some s ↦ s ] in
    if str_eq id "" then [] else known

abbrev pub remember : String → Bytes → Map Bytes → Map Bytes
remember id session_id sessions =
    if str_eq id "" || is_blank session_id then sessions else insert id session_id sessions

-- What comes of a run.
unfoldable pub cli_reply : Bool → Bytes → Bytes → CliRunResult × Option Bytes → CliReply
unfolding split_chunks is_rate_limit_error
cli_reply stream model raw (res, some err) =
    if is_rate_limit_error 0 (err ++ 10 ∷ raw) then limited else refused 502
cli_reply stream model raw (res, none) =
    if stream then streamed model res.reasoning (split_chunks res.text) else complete model res.text

abbrev pub no_messages : List CliMessage → Bool
no_messages [] = true
no_messages (_ ∷ _) = false

-- The variable that passes the key on
abbrev pub environment : CliConfig → Auth → List Bytes
environment cfg auth =
    if is_blank (credential auth) then [] else (cfg.provider_env ++ b'=' ∷ credential auth) ∷ []

-- The command's events, raw output and error, by its environment and its arguments.
abbrev pub Command : Type 0
Command = List Bytes → List Bytes → List CliEvent × Bytes × Option Bytes

-- Do, for a body that can be read: the reply, and the sessions
unfoldable pub do_cli :
    CliConfig → Command → Option CliRequest → Auth → Bool → Map Bytes → CliReply × Map Bytes
unfolding run run_args build_prompt cli_reply credential
do_cli cfg command none auth stream sessions = (refused 400, sessions)
do_cli cfg command (some req) auth stream sessions =
    let known = remembered req.conversation_id sessions in
    let args = run_args cfg req.model known (build_prompt req.messages) in
    let out = command (environment cfg auth) args in
    let res = run out.0 out.1 out.2 in
    let model = or_configured cfg.cli_model req.model in
    if no_messages req.messages
    then (refused 400, sessions)
    else (cli_reply stream model out.1 res, remember req.conversation_id res.0.session_id sessions)
