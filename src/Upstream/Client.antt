-- ===== src/Upstream/Client.antt =====
-- internal/upstream/client.go: the Zen client. A text is a list of its bytes, in ASCII where its case
-- matters; what the upstream answers is an argument.
pub mod Dialed
use opencode_multi_agents.Prelude.{
  ℕ, ◌+◌, String, Bool, true, false, ◌&&◌, ◌||◌, not, Option, none, some, List, [], ◌∷◌, ◌++◌, map,
  leb, ltb, ◌==◌, str_eq, if◌then◌else◌, length, drop, take,
}
use opencode_multi_agents.Prelude.Map.{Map, lookup, insert}
use opencode_multi_agents.Prelude.Text.{bytes_of, has_prefix}
use opencode_multi_agents.Prelude.Bytes.{Bytes, is_blank, trim_space, contains}
use opencode_multi_agents.Proxy.Socks5.{trim_prefix, socks5h_scheme, socks5_scheme}
use opencode_multi_agents.Gateway.Auth.{Auth}

-- `strings.ToLower`
abbrev pub lower_byte : ℕ → ℕ
lower_byte c = if leb b'A' c && leb c b'Z' then c + 32 else c

abbrev pub to_lower : Bytes → Bytes
to_lower s = map lower_byte s

abbrev pub contains_any : List Bytes → Bytes → Bool
contains_any [] s = false
contains_any (part ∷ parts) s = contains part s || contains_any parts s

abbrev pub keywords : List Bytes
keywords =
    bytes_of "rate limit"
    ∷ bytes_of "rate_limit"
    ∷ bytes_of "too many requests"
    ∷ bytes_of "quota exceeded"
    ∷ bytes_of "quota_exceeded"
    ∷ bytes_of "limit exceeded"
    ∷ bytes_of "limit_exceeded"
    ∷ bytes_of "requests per"
    ∷ bytes_of "try again later"
    ∷ bytes_of "slow down"
    ∷ []

-- isRateLimitError
unfoldable pub is_rate_limit_error : ℕ → Bytes → Bool
unfolding contains
is_rate_limit_error status body = status == 429 || contains_any keywords (to_lower body)

pub record Response : Type 0 where
  pub status : ℕ
  pub retry_after : Bytes
  pub body : Bytes

-- What Do returns: an error, a rate limit with the Retry-After header, or a response.
pub data Reply : Type 0 where
  failed : Reply
  limited : Bytes → Reply
  responded : Response → Reply

-- What becomes of a response; the body that was read is put back.
unfoldable pub classify : Response → Reply
unfolding is_rate_limit_error
classify resp =
    if resp.status == 429
    then limited resp.retry_after
    else if leb 400 resp.status && is_rate_limit_error resp.status (to_lower resp.body)
    then limited resp.retry_after
    else responded resp

unfoldable pub received : Option Response → Reply
unfolding classify
received none = failed
received (some resp) = classify resp

pub record Request : Type 0 where
  pub method : String
  pub url : Bytes
  pub headers : List (Bytes × Bytes)
  pub body : Bytes

abbrev pub auth_headers : Auth → List (Bytes × Bytes)
auth_headers auth = if is_blank auth.value then [] else (auth.header, auth.value) ∷ []

abbrev pub stream_headers : Bool → List (Bytes × Bytes)
stream_headers stream =
    if stream then (bytes_of "Accept", bytes_of "text/event-stream") ∷ [] else []

abbrev pub chat_request : Bytes → Bytes → Auth → Bool → Request
chat_request base body auth stream = record {
  method = "POST";
  url = base ++ bytes_of "/chat/completions";
  headers =
      (bytes_of "Content-Type", bytes_of "application/json")
      ∷ (auth_headers auth ++ stream_headers stream);
  body = body;
}

abbrev pub models_request : Bytes → Auth → Request
models_request base auth = record {
  method = "GET";
  url = base ++ bytes_of "/models";
  headers = (bytes_of "Accept", bytes_of "application/json") ∷ auth_headers auth;
  body = [];
}

-- The address that NewSOCKS5Dialer dials
unfoldable pub dialed_addr : Bytes → Bytes
dialed_addr socks5_addr = trim_prefix socks5_scheme (trim_prefix socks5h_scheme socks5_addr)

-- An HTTP client is the address of the proxy that it dials.
pub record Client : Type 0 where
  pub base : Bytes
  pub http_cache : Map Bytes

abbrev pub cached : String → Bytes → Client → Option Bytes → Bytes × Client
cached id addr c none = (addr, record c { http_cache = insert id addr c.http_cache })
cached id addr c (some client) = (client, c)

-- getClient; a SOCKS5 dialer without credentials is always made
unfoldable pub get_client : String → Bytes → Client → Bytes × Client
unfolding dialed_addr
get_client id socks5_addr c = cached id (dialed_addr socks5_addr) c (lookup id c.http_cache)

-- `exchange` is what comes of a request through a proxy: none is an error
module _ (exchange : Bytes → Request → Option Response) where
  -- Do
  unfoldable pub do_chat : String → Bytes → Bytes → Auth → Bool → Client → Reply × Client
  unfolding get_client received
  do_chat id socks5_addr body auth stream c =
      let r = get_client id socks5_addr c in
      (received (exchange r.0 (chat_request c.base body auth stream)), r.1)

  -- DoModels
  unfoldable pub do_models : String → Bytes → Auth → Client → Reply × Client
  unfolding get_client received
  do_models id socks5_addr auth c =
      let r = get_client id socks5_addr c in
      (received (exchange r.0 (models_request c.base auth)), r.1)

abbrev pub v1 : Bytes
v1 = bytes_of "/v1"

-- `strings.HasSuffix(s, suffix)`
unfoldable pub has_suffix : Bytes → Bytes → Bool
has_suffix suffix [] = has_prefix suffix []
has_suffix suffix (c ∷ s) =
    let rest = has_suffix suffix s in
    rest || (length suffix == length (c ∷ s) && has_prefix suffix (c ∷ s))

-- `strings.TrimSuffix(s, "/")`
unfoldable pub trim_slash : Bytes → Bytes
trim_slash [] = []
trim_slash (c ∷ []) = if c == b'/' then [] else c ∷ []
trim_slash (c ∷ d ∷ s) = c ∷ trim_slash (d ∷ s)

-- normalizeBase
unfoldable pub normalize_base : Bytes → Bytes
unfolding has_suffix trim_slash trim_space
normalize_base base =
    let trimmed = trim_slash (trim_space base) in
    if has_suffix v1 trimmed then trimmed else trimmed ++ v1
