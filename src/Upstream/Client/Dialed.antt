-- ===== src/Upstream/Client/Dialed.antt =====
-- The client that a proxy's requests go through, and the address that it dials.
use opencode_multi_agents.Prelude.{
  ℕ, ◌≡◌, refl, ap, ◌∙◌, String, Bool, false, ◌&&◌, Option, none, some, [], ◌∷◌, ◌++◌, arith, leb,
  if◌then◌else◌,
}
use opencode_multi_agents.Prelude.Map.{lookup, lookup-insert_self}
use opencode_multi_agents.Prelude.Bytes.{Bytes}
use opencode_multi_agents.Prelude.Text.{has_prefix}
use opencode_multi_agents.Proxy.Socks5.{socks5_scheme, parse_socks5_addr}
use opencode_multi_agents.Proxy.Socks5.Addresses.{
  Lacks, with_credentials, parse_socks5_addr_credentials,
}
use opencode_multi_agents.Gateway.Auth.{Auth}
use opencode_multi_agents.Upstream.Client.{
  Response, limited, responded, Request, is_rate_limit_error, classify, received, chat_request,
  dialed_addr, Client, cached, get_client, do_chat, lower_byte, to_lower, contains_any, keywords,
}

cached-kept :
    (id : String) (first other : Bytes) (c : Client) (o : Option Bytes)
    → lookup id c.http_cache ≡ o
    → let r = cached id first c o in get_client id other r.1 ≡ r
unfolding get_client
cached-kept id first other c none e =
    ap (cached id (dialed_addr other) (cached id first c none).1)
      (lookup-insert_self id first c.http_cache)
cached-kept id first other c (some client) e = ap (cached id (dialed_addr other) c) e

-- A proxy keeps the client that its first request made, and with it the address that it dials,
-- whatever address the proxy has later.
pub get_client_again :
    (id : String) (first other : Bytes) (c : Client)
    → let r = get_client id first c in get_client id other r.1 ≡ r
unfolding get_client
get_client_again id first other c =
    cached-kept id (dialed_addr first) other c (lookup id c.http_cache) refl

-- Of an address with a user and a password, the health check of an external proxy dials the host,
-- and a request the rest as it stands, the user and the password included.
pub dialed_addr_credentials :
    (user password host : Bytes)
    → Lacks b':' user
    → Lacks b'@' host
    → has_prefix socks5_scheme (with_credentials user password host) ≡ false
    → let addr = socks5_scheme ++ with_credentials user password host in
      ((parse_socks5_addr addr).host ≡ host)
      × (dialed_addr addr ≡ with_credentials user password host)
unfolding dialed_addr has_prefix
dialed_addr_credentials user password host u h once =
    (ap (λ a. a.host) (parse_socks5_addr_credentials user password host u h once).1, refl)

lower_byte_twice : (c : ℕ) → lower_byte (lower_byte c) ≡ lower_byte c
lower_byte_twice c = ground arith

to_lower_twice : (s : Bytes) → to_lower (to_lower s) ≡ to_lower s
to_lower_twice [] = refl
to_lower_twice (c ∷ s) = let b = lower_byte_twice c in let rest = to_lower_twice s in cc

classify-cases :
    (resp : Response)
    → classify resp ≡ (
        if (leb 400 resp.status && is_rate_limit_error resp.status resp.body)
        then limited resp.retry_after
        else responded resp)
unfolding classify is_rate_limit_error
classify-cases resp =
    let twice = ap (contains_any keywords) (to_lower_twice (to_lower resp.body)) in
    let once = ap (contains_any keywords) (to_lower_twice resp.body) in ground (arith, twice, once)

-- A rate limit is reported for a response with the status 429, and for one of 400 or more that says
-- so in its body; every other response is handed on as it came.
pub do_chat-cases :
    (exchange : Bytes → Request → Option Response) (id : String) (addr body : Bytes) (auth : Auth)
    (stream : Bool) (c : Client) (resp : Response)
    → exchange (get_client id addr c).0 (chat_request c.base body auth stream) ≡ some resp
    → let r = (do_chat exchange id addr body auth stream c).0 in
      let says = is_rate_limit_error resp.status resp.body in
      r ≡ (if (leb 400 resp.status && says) then limited resp.retry_after else responded resp)
unfolding do_chat received classify
do_chat-cases exchange id addr body auth stream c resp e = ap received e ∙ classify-cases resp
