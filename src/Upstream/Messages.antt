-- ===== src/Upstream/Messages.antt =====
-- internal/upstream/opencode_client.go: what the driver of an OpenCode server makes of the settings,
-- of a conversation and of the parts of an answer, and what it writes. A text is a list of its bytes.
use opencode_multi_agents.Prelude.{
  ◌&&◌, not, Option, none, some, List, [], ◌∷◌, ◌++◌, map, if◌then◌else◌,
}
use opencode_multi_agents.Prelude.Text.{bytes_of, has_prefix}
use opencode_multi_agents.Prelude.Bytes.{Bytes, same_bytes, is_blank, cut_at}
use opencode_multi_agents.Proxy.Socks5.{trim_prefix}
use opencode_multi_agents.Gateway.Auth.{Auth}
use opencode_multi_agents.Upstream.Client.{to_lower}
use opencode_multi_agents.Upstream.Cli.{CliMessage, fields_from, line_chunks}

-- The settings that the driver reads.
pub record ServerConfig : Type 0 where
  pub provider_id : Bytes
  pub server_model : Bytes
  pub server_password : Bytes

-- A text before the first slash, if it is not empty, and what follows it.
abbrev pub at_slash : Bytes → Bytes → Option (Bytes × Bytes) → Bytes × Bytes
at_slash provider model none = (provider, model)
at_slash provider model (some (before, rest)) =
    if is_blank before then (provider, model) else (before, rest)

-- resolveModel: the provider and the model
unfoldable pub resolve_model : ServerConfig → Bytes → Bytes × Bytes
resolve_model cfg model =
    if not (is_blank cfg.server_model)
    then (cfg.provider_id, cfg.server_model)
    else at_slash cfg.provider_id model (cut_at b'/' model)

-- What toAuth returns: the user and the password of basic authentication, and the provider and the
-- key that are put, if a key is.
pub record ServerAuth : Type 0 where
  pub basic : Option (Bytes × Bytes)
  pub put : Option (Bytes × Bytes)

abbrev pub bearer : Bytes
bearer = bytes_of "Bearer "

-- toAuth
unfoldable pub to_auth : ServerConfig → Auth → ServerAuth
unfolding resolve_model
to_auth cfg auth =
    if not (is_blank cfg.server_password)
    then record { basic = some (bytes_of "opencode", cfg.server_password); put = none }
    else if has_prefix (bytes_of "authorization") (to_lower auth.header)
        && has_prefix bearer auth.value
    then record {
      basic = none;
      put = some ((resolve_model cfg []).1, trim_prefix bearer auth.value);
    }
    else record { basic = none; put = none }

-- "", "Assistant: " or the role
abbrev pub role_prefix : Bytes → Bytes
role_prefix role =
    if same_bytes role (bytes_of "assistant")
    then bytes_of "Assistant: "
    else if same_bytes role (bytes_of "user")
    then []
    else role ++ bytes_of ": "

-- conversationToParts: the texts of the parts
unfoldable pub conversation_to_parts : List CliMessage → List Bytes
conversation_to_parts [] = []
conversation_to_parts (m ∷ ms) =
    let rest = conversation_to_parts ms in
    if is_blank m.content then rest else (role_prefix m.role ++ m.content) ∷ rest

pub record PartResult : Type 0 where
  pub kind : Bytes
  pub text : Bytes
  pub error : Option Bytes

-- assistantText
unfoldable pub assistant_text : List PartResult → Bytes
assistant_text [] = []
assistant_text (pt ∷ pts) =
    let rest = assistant_text pts in
    if same_bytes pt.kind (bytes_of "text") then pt.text ++ rest else rest

abbrev pub error_or : Option Bytes → Option Bytes → Option Bytes
error_or none later = later
error_or (some message) later = some message

-- hasErrorPart and errorPartMessage: the message of the first error
unfoldable pub error_part : List PartResult → Option Bytes
error_part [] = none
error_part (pt ∷ pts) = error_or pt.error (error_part pts)

-- What is written for the client: a chunk of a stream, with a role, a content or the end, or the
-- whole answer; or the text of an error, as an event. Errors are not told apart.
pub data Written : Type 0 where
  opening : Written
  content : Bytes → Written
  ending : Written
  whole : Bytes → Written
  notice : Written

abbrev pub word_chunks : Bytes → List Bytes
word_chunks text = line_chunks (fields_from [] text)

-- writeStream
unfoldable pub write_stream : Bytes → List Written
write_stream text = opening ∷ (map content (word_chunks text) ++ ending ∷ [])

-- writeNonStream
unfoldable pub write_non_stream : Bytes → List Written
write_non_stream text = whole text ∷ []
