-- ===== src/Upstream/Server.antt =====
-- internal/upstream/opencode_client.go: the driver of an OpenCode server. What the JSON decoder reads
-- in a body comes with it; a text is a list of its bytes. What is written into a pipe is a list of
-- events. A message has empty texts where its role or its content is no text.
pub mod Words
pub mod Keys
use opencode_multi_agents.Prelude.{
  ℕ, String, Bool, true, false, ◌&&◌, not, Option, none, some, List, [], ◌∷◌, ◌++◌, map, leb, ◌==◌,
  if◌then◌else◌,
}
use opencode_multi_agents.Prelude.Text.{bytes_of, has_prefix}
use opencode_multi_agents.Prelude.Bytes.{Bytes, same_bytes, is_blank, cut_at}
use opencode_multi_agents.Proxy.Socks5.{trim_prefix}
use opencode_multi_agents.Gateway.Auth.{Auth}
use opencode_multi_agents.Upstream.Client.{Request, Response, Client, get_client, to_lower}
use opencode_multi_agents.Upstream.Cli.{CliMessage, fields_from, line_chunks}
use opencode_multi_agents.Upstream.Messages.{
  PartResult, ServerAuth, ServerConfig, Written, assistant_text, at_slash, bearer, content,
  conversation_to_parts, ending, error_or, error_part, notice, opening, resolve_model, role_prefix,
  to_auth, whole, word_chunks, write_non_stream, write_stream,
}

-- The body of a chat request, as it is read.
pub record ServerBody : Type 0 where
  pub model : Bytes
  pub messages : List CliMessage

-- What the body of the message's request says.
pub record MessageRequest : Type 0 where
  pub provider_id : Bytes
  pub model_id : Bytes
  pub parts : List Bytes

-- What DoChatCompletion returns: a rate limit with its Retry-After, an error, or what was written
-- with the ID of the session and the model.
pub data Completed : Type 0 where
  limited : Bytes → Completed
  failed : Completed
  wrote : Bytes → Bytes → List Written → Completed

-- The texts of the JSON that is sent, and what is read in the answers: the ID of a session, and the
-- parts of a message.
pub record ServerJson : Type 0 where
  pub session_title : Bytes
  pub credential_json : Bytes → Bytes
  pub message_json : MessageRequest → Bytes
  pub read_session : Bytes → Option Bytes
  pub read_message : Bytes → Option (List PartResult)

module _ (json : ServerJson) (basic_header : Bytes × Bytes → Bytes × Bytes)
    (exchange : Bytes → Request → Option Response) (cfg : ServerConfig) where
  abbrev pub basic_headers : Option (Bytes × Bytes) → List (Bytes × Bytes)
  basic_headers none = []
  basic_headers (some login) = basic_header login ∷ []

  -- newRequest, for a client that is there
  abbrev pub server_request : String → Bytes → Bytes → Bytes → Auth → List (Bytes × Bytes) → Request
  server_request method base path body auth headers = record {
    method = method;
    url = base ++ path;
    headers = basic_headers (to_auth cfg auth).basic ++ headers;
    body = body;
  }

  abbrev pub relayed : Bool → Bytes → Bytes → List PartResult → Option Bytes → Completed
  relayed stream id model parts (some message) = failed
  relayed stream id model parts none =
      let text = assistant_text parts in
      wrote id model (if stream then write_stream text else write_non_stream text)

  abbrev pub message_read : Bool → Bytes → Bytes → Option (List PartResult) → Completed
  message_read stream id model none = failed
  message_read stream id model (some parts) = relayed stream id model parts (error_part parts)

  -- The answer to the message.
  abbrev pub message_received : Bool → Bytes → Bytes → Option Response → Completed
  message_received stream id model none = failed
  message_received stream id model (some resp) =
      if resp.status == 429
      then limited resp.retry_after
      else if leb 400 resp.status
      then failed
      else message_read stream id model (json.read_message resp.body)

  -- The key is put, whatever comes of it.
  abbrev pub key_requests : Bytes → Auth → Option (Bytes × Bytes) → List Request
  key_requests base auth none = []
  key_requests base auth (some (provider, key)) =
      server_request "PUT" base (bytes_of "/auth/" ++ provider) (json.credential_json key) auth []
      ∷ []

  abbrev pub message_request : Bytes → Auth → Bytes → ServerBody → Request
  message_request base auth id body =
      let names = resolve_model cfg body.model in
      server_request "POST" base (bytes_of "/session/" ++ (id ++ bytes_of "/message"))
        (json.message_json (record {
          provider_id = names.0;
          model_id = names.1;
          parts = conversation_to_parts body.messages;
        }))
        auth ((bytes_of "Content-Type", bytes_of "application/json") ∷ [])

  -- `model = modelID`, if that is not empty
  abbrev pub named_model : Bytes → Bytes
  named_model model = let id = (resolve_model cfg model).1 in if is_blank id then model else id

  -- With the session: the requests that are sent, and what is returned
  abbrev pub with_id :
      Bytes → Bytes → Auth → Bool → ServerBody → Option Bytes → List Request × Completed
  with_id client base auth stream body none = ([], failed)
  with_id client base auth stream body (some id) =
      let req = message_request base auth id body in
      if is_blank id then ([], failed) else (
        key_requests base auth (to_auth cfg auth).put ++ req ∷ [],
        message_received stream id (named_model body.model) (exchange client req),
      )

  abbrev pub session_received :
      Bytes → Bytes → Auth → Bool → ServerBody → Option Response → List Request × Completed
  session_received client base auth stream body none = ([], failed)
  session_received client base auth stream body (some resp) =
      if resp.status == 429
      then ([], limited resp.retry_after)
      else if not (resp.status == 200)
      then ([], failed)
      else with_id client base auth stream body (json.read_session resp.body)

  abbrev pub session_request : Bytes → Auth → Request
  session_request base auth =
      server_request "POST" base (bytes_of "/session") json.session_title auth []

  -- DoChatCompletion: the requests, what is returned, and the clients
  unfoldable pub do_chat_completion :
      String → Bytes → ServerBody → Auth → Bool → Client → List Request × Completed × Client
  unfolding to_auth conversation_to_parts assistant_text error_part write_stream write_non_stream
  do_chat_completion id socks5_addr body auth stream c =
      let r = get_client id socks5_addr c in
      let req = session_request c.base auth in
      let rest = session_received r.0 c.base auth stream body (exchange r.0 req) in
      (req ∷ rest.0, rest.1, r.1)

  -- What doAdapt returns: an error, a rate limit, or a response of status 200.
  pub data Adapted : Type 0 where
    error : Adapted
    rate_limit : Bytes → Adapted
    ok : List Written → Adapted

  -- The pipe's text: an error, of a rate limit too, is an event of the stream.
  abbrev pub piped : Completed → List Written
  piped (limited retry_after) = notice ∷ []
  piped failed = notice ∷ []
  piped (wrote id model ws) = ws

  abbrev pub buffered : Completed → Adapted
  buffered (limited retry_after) = rate_limit retry_after
  buffered failed = error
  buffered (wrote id model ws) = ok ws

  -- doAdapt, which is Do
  unfoldable pub do_adapt :
      String → Bytes → ServerBody → Auth → Bool → Client → List Request × Adapted × Client
  unfolding do_chat_completion
  do_adapt id socks5_addr body auth stream c =
      let r = do_chat_completion id socks5_addr body auth stream c in
      (r.0, (if stream then ok (piped r.1) else buffered r.1), r.2)
