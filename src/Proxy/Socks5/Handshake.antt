-- ===== src/Proxy/Socks5/Handshake.antt =====
-- The SOCKS5 handshake, byte by byte.
use opencode_multi_agents.Prelude.{
  ℕ, ◌+◌, ◌*◌, ◌/◌, ◌%◌, ◌<◌, ◌≤◌, ◌≡◌, refl, ap, ◌∙◌, false, Option, none, some, [], ◌∷◌, ◌++◌,
  ◌==◌, arith, length, take, drop, append-nil, length-take, ◌⊎◌, inl, inr,
}
use opencode_multi_agents.Prelude.Bytes.{Bytes}
use opencode_multi_agents.Proxy.Socks5.{
  Credentials, greeting, connect_request, read_full, byte_at, after_choice, after_connect, connect,
  socks5_handshake,
}

-- A CONNECT request as RFC 1928 reads it: the length of the name, the name, and the port.
abbrev pub read_port : Bytes → Option ℕ
read_port (high ∷ low ∷ []) = some (high * 256 + low)
read_port _ = none

abbrev pub read_name : Bytes → Option (Bytes × Option ℕ)
read_name [] = none
read_name (n ∷ s) = some (take n s, read_port (drop n s))

-- A longer name does not fit the byte of its length: the server reads a shorter name.
pub connect_request_long :
    (host : Bytes) (port : ℕ)
    → 256 ≤ length host
    → (name : Bytes) (o : Option ℕ)
    → read_name (drop 4 (connect_request host port)) ≡ some (name, o)
    → length name < length host
unfolding connect_request
connect_request_long host port h name o e =
    let n = length host % 256 in
    let all = host ++ port % 65536 / 256 ∷ port % 256 ∷ [] in
    let same : take n all ≡ name = cc in omega (arith, h, length-take n all, ap length same)

after_connect-writes : (o : Option (Bytes × Bytes)) → (after_connect o).0 ≡ []
unfolding after_connect
after_connect-writes none = refl
after_connect-writes (some (resp, rest)) = ground arith

plain_choice :
    (auth : Option Credentials) (host : Bytes) (port : ℕ) (resp rest : Bytes)
    → (byte_at 1 resp == 2) ≡ false
    → let e = after_choice auth (connect (some (host, port))) (some (resp, rest)) in
      (e.0 ≡ []) ⊎ (e.0 ≡ connect_request host port)
unfolding after_choice connect
plain_choice auth host port resp rest h =
    let quiet = after_connect-writes (read_full 4 rest) in
    let n = append-nil (connect_request host port) in ground (arith, h, quiet, n)

-- Unless the server chooses the method of names and passwords, these are not sent: what is written is
-- the greeting, and then the CONNECT request or nothing, whatever else the server answers.
pub socks5_handshake_plain :
    (auth : Option Credentials) (host : Bytes) (port : ℕ) (server : Bytes)
    → (byte_at 1 server == 2) ≡ false
    → let e = socks5_handshake auth (some (host, port)) server in
      (e.0 ≡ greeting auth) ⊎ (e.0 ≡ (greeting auth ++ connect_request host port))
unfolding socks5_handshake after_choice read_full
socks5_handshake_plain auth host port [] h = inl (append-nil (greeting auth))
socks5_handshake_plain auth host port (v ∷ []) h = inl (append-nil (greeting auth))
socks5_handshake_plain auth host port (v ∷ m ∷ rest) h =
    let n = append-nil (greeting auth) in
    let there : read_full 2 (v ∷ m ∷ rest) ≡ some (v ∷ m ∷ [], rest) = ground arith in
    let step = ap (λ o. (after_choice auth (connect (some (host, port))) o).0) there in
    elim (plain_choice auth host port (v ∷ m ∷ []) rest h) [
      | inl e ↦ inl (ap (λ s. greeting auth ++ s) (step ∙ e) ∙ n)
      | inr e ↦ inr (ap (λ s. greeting auth ++ s) (step ∙ e))
    ]
