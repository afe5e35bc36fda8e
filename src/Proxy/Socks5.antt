-- ===== src/Proxy/Socks5.antt =====
-- internal/proxy/socks5_manager.go: parseSOCKS5Addr and the bytes of the SOCKS5 handshake. A text is
-- a list of its bytes here; a write to the connection is taken to succeed.
pub mod Addresses
pub mod Handshake
use opencode_multi_agents.Prelude.{
  ℕ, zero, suc, ◌+◌, ◌-◌, ◌*◌, ◌/◌, ◌%◌, ◌^◌, Bool, true, false, not, Option, none, some, List, [],
  ◌∷◌, ◌++◌, ◌==◌, leb, if◌then◌else◌, length, take, drop, get_elem?,
}
use opencode_multi_agents.Prelude.Bytes.{Bytes}
use opencode_multi_agents.Prelude.Text.{bytes_of, has_prefix, cut_colon}

-- proxy.Auth
pub record Credentials : Type 0 where
  pub user : Bytes
  pub password : Bytes

pub record Socks5Addr : Type 0 where
  pub host : Bytes
  pub auth : Option Credentials
  pub remote_dns : Bool

-- `strings.TrimPrefix(s, prefix)`
abbrev pub trim_prefix : Bytes → Bytes → Bytes
trim_prefix prefix s = if has_prefix prefix s then drop (length prefix) s else s

-- What stands before and after the last '@'; `none` without one.
unfoldable pub cut_last_at : Bytes → Option (Bytes × Bytes)
cut_last_at [] = none
cut_last_at (c ∷ s) = elim (cut_last_at s) [
  | some r ↦ some (c ∷ r.0, r.1)
  | none ↦ if c == b'@' then some ([], s) else none
]

abbrev pub credentials_of : Option (Bytes × Bytes) → Option Credentials
credentials_of none = none
credentials_of (some (user, password)) = some (record { user = user; password = password })

-- The address without its scheme.
unfoldable pub split_addr : Bool → Bytes → Option (Bytes × Bytes) → Socks5Addr
split_addr remote_dns raw none = record { host = raw; auth = none; remote_dns = remote_dns }
split_addr remote_dns raw (some (cred, host)) = record {
  host = host;
  auth = credentials_of (cut_colon cred);
  remote_dns = remote_dns;
}

abbrev pub socks5h_scheme : Bytes
socks5h_scheme = bytes_of "socks5h://"

abbrev pub socks5_scheme : Bytes
socks5_scheme = bytes_of "socks5://"

-- parseSOCKS5Addr
unfoldable pub parse_socks5_addr : Bytes → Socks5Addr
unfolding split_addr cut_last_at
parse_socks5_addr raw =
    let rest = trim_prefix socks5_scheme (trim_prefix socks5h_scheme raw) in
    split_addr (has_prefix socks5h_scheme raw) rest (cut_last_at rest)

-- The methods that are offered.
unfoldable pub greeting : Option Credentials → Bytes
greeting none = 5 ∷ 1 ∷ 0 ∷ []
greeting (some auth) = 5 ∷ 2 ∷ 0 ∷ 2 ∷ []

-- `byte(len(s))` and the bytes of `s`
abbrev pub counted : Bytes → Bytes
counted s = length s % 256 ∷ s

-- The request of socks5Auth
unfoldable pub auth_request : Credentials → Bytes
auth_request auth = 1 ∷ (counted auth.user ++ counted auth.password)

-- The CONNECT request: the port is cut to 16 bits.
unfoldable pub connect_request : Bytes → ℕ → Bytes
connect_request host port = 5 ∷ 1 ∷ 0 ∷ 3 ∷ (counted host ++ port % 65536 / 256 ∷ port % 256 ∷ [])

-- `io.ReadFull` of n bytes, and what the server sends after them
unfoldable pub read_full : ℕ → Bytes → Option (Bytes × Bytes)
read_full n s = if leb n (length s) then some (take n s, drop n s) else none

-- What has been written, and what of the server's bytes is left; `none` is an error.
abbrev pub Exchange : Type 0
Exchange = Bytes × Option Bytes

abbrev pub then_write : Bytes → Exchange → Exchange
then_write s e = (s ++ e.0, e.1)

abbrev refused : Exchange
refused = ([], none)

abbrev pub byte_at : ℕ → Bytes → ℕ
byte_at n s = elim (get_elem? s n) [ none ↦ 0 | some b ↦ b ]

-- The response to socks5Auth, and what comes after it
unfoldable pub after_auth : (Bytes → Exchange) → Option (Bytes × Bytes) → Exchange
after_auth next none = refused
after_auth next (some (resp, rest)) = if byte_at 1 resp == 0 then next rest else refused

unfoldable pub with_auth : Option Credentials → (Bytes → Exchange) → Bytes → Exchange
unfolding after_auth read_full
with_auth none next rest = refused
with_auth (some auth) next rest =
    then_write (auth_request auth) (after_auth next (read_full 2 rest))

-- The server's choice of a method, and what comes after it
unfoldable pub after_choice :
    Option Credentials → (Bytes → Exchange) → Option (Bytes × Bytes) → Exchange
unfolding with_auth
after_choice auth next none = refused
after_choice auth next (some (resp, rest)) =
    if not (byte_at 0 resp == 5)
    then refused
    else if byte_at 1 resp == 2
    then with_auth auth next rest
    else if byte_at 1 resp == 0
    then next rest
    else refused

-- The bind address, by its type; a stream that ends early is not noticed.
unfoldable pub skip_address : ℕ → Bytes → Bytes
skip_address typ rest =
    if typ == 1
    then drop 6 rest
    else if typ == 3
    then drop (1 + byte_at 0 rest + 2) rest
    else if typ == 4
    then drop 18 rest
    else rest

unfoldable pub after_connect : Option (Bytes × Bytes) → Exchange
unfolding skip_address
after_connect none = refused
after_connect (some (resp, rest)) =
    if byte_at 1 resp == 0 then ([], some (skip_address (byte_at 3 resp) rest)) else refused

-- From the CONNECT request on; `target` is what SplitHostPort and LookupPort make of the address
unfoldable pub connect : Option (Bytes × ℕ) → Bytes → Exchange
unfolding after_connect connect_request read_full
connect none rest = refused
connect (some (host, port)) rest =
    then_write (connect_request host port) (after_connect (read_full 4 rest))

-- socks5Handshake, over what the server sends
unfoldable pub socks5_handshake : Option Credentials → Option (Bytes × ℕ) → Bytes → Exchange
unfolding after_choice connect greeting read_full
socks5_handshake auth target server =
    then_write (greeting auth) (after_choice auth (connect target) (read_full 2 server))
