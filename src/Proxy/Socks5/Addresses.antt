-- ===== src/Proxy/Socks5/Addresses.antt =====
-- parseSOCKS5Addr on a well-formed address.
use opencode_multi_agents.Prelude.{
  ℕ, ◌≡◌, ◌≢◌, refl, ap, ◌∙◌, Bool, true, false, Option, none, some, [], ◌∷◌, ◌++◌, arith, All,
  length, drop,
}
use opencode_multi_agents.Prelude.Text.{has_prefix, cut_colon}
use opencode_multi_agents.Prelude.Bytes.{Bytes}
use opencode_multi_agents.Proxy.Socks5.{
  Credentials, trim_prefix, cut_last_at, credentials_of, split_addr, socks5h_scheme, socks5_scheme,
  parse_socks5_addr,
}

-- A byte does not occur.
abbrev pub Lacks : ℕ → Bytes → Type 0
Lacks b s = All (λ c. c ≢ b) s

has_prefix-append : (p s : Bytes) → has_prefix p (p ++ s) ≡ true
unfolding has_prefix
has_prefix-append [] s = refl
has_prefix-append (c ∷ p) s = ground (arith, has_prefix-append p s)

drop-append : (p s : Bytes) → drop (length p) (p ++ s) ≡ s
drop-append [] s = refl
drop-append (c ∷ p) s = drop-append p s

trim_prefix-append : (p s : Bytes) → trim_prefix p (p ++ s) ≡ s
trim_prefix-append p s =
    let h = has_prefix-append p s in let d = drop-append p s in ground (arith, h, d)

cut_colon-append :
    (user password : Bytes)
    → Lacks b':' user
    → cut_colon (user ++ b':' ∷ password) ≡ some (user, password)
unfolding cut_colon
cut_colon-append [] password h = refl
cut_colon-append (c ∷ user) password h = ground (arith, h.0, cut_colon-append user password h.1)

cut_last_at-none : (s : Bytes) → Lacks b'@' s → cut_last_at s ≡ none
unfolding cut_last_at
cut_last_at-none [] h = refl
cut_last_at-none (c ∷ s) h = ground (arith, h.0, cut_last_at-none s h.1)

cut_last_at-append :
    (cred host : Bytes) → Lacks b'@' host → cut_last_at (cred ++ b'@' ∷ host) ≡ some (cred, host)
unfolding cut_last_at
cut_last_at-append [] host h = ground (arith, cut_last_at-none host h)
cut_last_at-append (c ∷ cred) host h = ground (arith, cut_last_at-append cred host h)

-- user ":" password "@" host
abbrev pub with_credentials : Bytes → Bytes → Bytes → Bytes
with_credentials user password host = (user ++ b':' ∷ password) ++ b'@' ∷ host

split_addr-credentials :
    (remote_dns : Bool) (raw user password host : Bytes)
    → Lacks b':' user
    → Lacks b'@' host
    → split_addr remote_dns raw (cut_last_at (with_credentials user password host)) ≡ (record {
      host = host;
      auth = some (record { user = user; password = password });
      remote_dns = remote_dns;
    })
unfolding split_addr
split_addr-credentials remote_dns raw user password host u h =
    let cut = cut_last_at-append (user ++ b':' ∷ password) host h in
    let colon = cut_colon-append user password u in
    ap (split_addr remote_dns raw) cut
    ∙ ap (λ o. record { host = host; auth = credentials_of o; remote_dns = remote_dns }) colon

-- An address with a scheme, a user without a colon, a password, and a host without an "@" comes
-- apart into just these, whatever the password has in it; names are resolved by the proxy under
-- socks5h:// only. Under socks5h:// the rest must not start with the other scheme again.
pub parse_socks5_addr_credentials :
    (user password host : Bytes)
    → Lacks b':' user
    → Lacks b'@' host
    → has_prefix socks5_scheme (with_credentials user password host) ≡ false
    → let auth : Option Credentials = some (record { user = user; password = password }) in
      (parse_socks5_addr (socks5h_scheme ++ with_credentials user password host)
        ≡ (record { host = host; auth = auth; remote_dns = true }))
      × (parse_socks5_addr (socks5_scheme ++ with_credentials user password host)
          ≡ (record { host = host; auth = auth; remote_dns = false }))
unfolding parse_socks5_addr has_prefix
parse_socks5_addr_credentials user password host u h once =
    let raw = with_credentials user password host in
    let rest : trim_prefix socks5_scheme (trim_prefix socks5h_scheme (socks5h_scheme ++ raw))
        ≡ raw =
      ground (arith, once) in
    (
      ap (λ (r : Bytes). split_addr true r (cut_last_at r)) rest
          ∙ split_addr-credentials true raw user password host u h,
      split_addr-credentials false raw user password host u h,
    )
