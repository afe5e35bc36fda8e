-- ===== src/Gateway/Requests.antt =====
-- internal/handler/handler.go: what a chat request is checked for before it is sent, the errors of
-- the gateway, and the delay before a retry. Durations are int64 numbers of nanoseconds.
pub mod Checks
use opencode_multi_agents.Prelude.{
  ℕ, zero, suc, ◌+◌, ◌-◌, ◌*◌, ◌%◌, ◌^◌, String, Bool, true, false, ◌&&◌, ◌||◌, not, Option, none,
  some, List, [], ◌∷◌, ◌⊎◌, inl, inr, ltb, leb, ◌==◌, str_eq, if◌then◌else◌,
}
use opencode_multi_agents.Prelude.Int.{ℤ, pos, negsuc}
use opencode_multi_agents.Prelude.Text.{bytes_of, has_prefix}
use opencode_multi_agents.Prelude.Bytes.{Bytes, is_blank, trim_space}

-- A message; `has_content` says whether its content is there and not null.
pub record ChatMessage : Type 0 where
  pub role : String
  pub has_content : Bool

pub record ChatRequest : Type 0 where
  pub model : Bytes
  pub messages : List ChatMessage
  pub stream : Bool
  pub conversation_id : Bytes
  pub include_usage : Bool

-- The parameter that is wrong: a field of the request, or of a message by its index.
pub data Param : Type 0 where
  model messages : Param
  role content : ℕ → Param

-- validChatRoles
abbrev pub valid_chat_role : String → Bool
valid_chat_role r =
    str_eq r "system"
    || (str_eq r "user"
        || (str_eq r "assistant"
            || (str_eq r "tool" || (str_eq r "function" || str_eq r "developer"))))

-- Roles whose messages may have no content.
abbrev pub may_be_empty : String → Bool
may_be_empty r = str_eq r "assistant" || str_eq r "tool"

unfoldable pub check_messages : ℕ → List ChatMessage → Option Param
check_messages i [] = none
check_messages i (m ∷ ms) =
    let rest = check_messages (i + 1) ms in
    if not (valid_chat_role m.role)
    then some (role i)
    else if not m.has_content && not (may_be_empty m.role)
    then some (content i)
    else rest

abbrev pub no_messages : List ChatMessage → Bool
no_messages [] = true
no_messages (_ ∷ _) = false

-- validateChatRequest: the parameter that is wrong, if one is
unfoldable pub validate_chat_request : ChatRequest → Option Param
unfolding check_messages trim_space
validate_chat_request req =
    let checked = check_messages 0 req.messages in
    if is_blank (trim_space req.model)
    then some model
    else if no_messages req.messages
    then some messages
    else checked

-- openaiErrorType
unfoldable pub openai_error_type : ℕ → String
openai_error_type status =
    if status == 400 || (status == 413 || (status == 415 || status == 422))
    then "invalid_request_error"
    else if status == 401
    then "authentication_error"
    else if status == 403
    then "permission_error"
    else if status == 404
    then "invalid_request_error"
    else if status == 405
    then "method_not_allowed_error"
    else if status == 429
    then "rate_limit_error"
    else if status == 503
    then "service_unavailable_error"
    else "server_error"

-- The envelope of an error, without its message; `none` is null.
pub record ApiError : Type 0 where
  pub status : ℕ
  pub typ : String
  pub param : Option Param
  pub code : Option String

-- writeOpenAIError
unfoldable pub openai_error : ℕ → Option Param → Option String → ApiError
unfolding openai_error_type
openai_error status param code = record {
  status = status;
  typ = openai_error_type status;
  param = param;
  code = code;
}

-- What comes of reading the body: it is larger than maxRequestBodySize, cannot be read, is no JSON
-- of a request, or is one.
pub data Body : Type 0 where
  too_large unreadable unparsable : Body
  parsed : ChatRequest → Body

abbrev pub checked : ChatRequest → Option Param → ApiError ⊎ ChatRequest
checked req (some param) = inl (openai_error 400 (some param) none)
checked req none = inr req

unfoldable pub read_body : Body → ApiError ⊎ ChatRequest
unfolding openai_error validate_chat_request
read_body too_large = inl (openai_error 413 none none)
read_body unreadable = inl (openai_error 400 none none)
read_body unparsable = inl (openai_error 400 none (some "invalid_json"))
read_body (parsed req) = checked req (validate_chat_request req)

-- The first part of handleChatCompletions; `content_type` is the header in lower case
unfoldable pub intake : Bytes → Body → ApiError ⊎ ChatRequest
unfolding read_body trim_space openai_error
intake content_type body =
    let r = read_body body in
    if not (is_blank content_type)
      && not (has_prefix (bytes_of "application/json") (trim_space content_type))
    then inl (openai_error 415 none none)
    else r

-- `time.Duration(1<<uint(attempt-1))` times the base, as the 64 bits of the product
unfoldable pub raw_delay : ℕ → ℕ → ℕ
raw_delay base attempt = base * (2 ^ (attempt - 1) % 2 ^ 64) % 2 ^ 64

-- The 64 bits as a signed number, no longer than the longest delay
unfoldable pub capped : ℕ → ℕ → ℤ
capped max_delay raw =
    if leb (2 ^ 63) raw
    then negsuc (2 ^ 64 - raw - 1)
    else if ltb max_delay raw
    then pos max_delay
    else pos raw

-- calculateRetryDelay, for an attempt from 1 on
unfoldable pub calculate_retry_delay : ℕ → ℕ → ℕ → ℤ
unfolding capped raw_delay
calculate_retry_delay base max_delay attempt = capped max_delay (raw_delay base attempt)
