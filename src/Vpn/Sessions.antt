-- ===== src/Vpn/Sessions.antt =====
-- internal/protonvpn/client.go: EnsureSession, ImportBrowserCookies, Login, GetCertificate, and
-- store.go: the tables that they use. A statement of the database is taken to succeed, and the clock
-- not to move during a call; times are in nanoseconds, those of a certificate in seconds.
pub mod Logins
pub mod Certificates
use opencode_multi_agents.Prelude.{
  ℕ, zero, suc, ◌+◌, ◌*◌, ◌^◌, String, Bool, true, false, ◌&&◌, ◌||◌, not, Option, none, some, List,
  [], ◌∷◌, ltb, str_eq, if◌then◌else◌,
}
use opencode_multi_agents.Prelude.Bytes.{Bytes, is_blank}
use opencode_multi_agents.Vpn.Cookies.{Cookie, parse_cookie_string, auth_uid}

pub record Session : Type 0 where
  pub uid : Bytes
  pub user_id : Bytes
  pub cookies : List Cookie
  pub expires_at : ℕ

-- A row of `certificates`: `columns` are those that nothing reads.
pub record Certificate : Type 0 where
  pub columns : String
  pub peer_ip : String
  pub peer_public_key : String
  pub ipv4 : String
  pub dns : List String
  pub refresh_time : ℕ
  pub expiration_time : ℕ

-- The table `certificates` has the newest row first. A key is what GenerateKey made.
pub record Store : Type 0 where
  pub credentials : Option (String × String)
  pub session : Option Session
  pub certificates : List Certificate
  pub ed25519_key : Option Bytes

pub record Client : Type 0 where
  pub store : Store
  pub username : String
  pub password : String
  pub session_cookies_raw : Bytes

-- What requestCertificate returns: a certificate, an error with "2500" or "fingerprint conflict" in
-- it, or another one.
pub data Reply : Type 0 where
  granted : Certificate → Reply
  conflict : Reply
  refused : Reply

-- The server that a certificate is asked for.
pub record Peer : Type 0 where
  pub server_name : String
  pub server_ip : String
  pub server_pub_key : String

-- The API of ProtonVPN and the key generator, by the number of the call.
pub record Proton : Type 0 where
  pub srp_login : String → String → Option Session
  pub valid : ℕ → Session → Bool
  pub certify : ℕ → Session → Bytes → Peer → Reply
  pub generate : ℕ → Option Bytes

abbrev pub set_session : Option Session → Client → Client
set_session s c = record c { store = record (c.store) { session = s } }

abbrev pub set_key : Option Bytes → Client → Client
set_key k c = record c { store = record (c.store) { ed25519_key = k } }

-- Store.SetCertificate: a new row
abbrev pub set_certificate : Certificate → Client → Client
set_certificate cert c = record c {
  store = record (c.store) { certificates = cert ∷ c.store.certificates };
}

abbrev pub seconds : ℕ
seconds = 10 ^ 9

-- Store.GetCertificate: the newest that has not expired
unfoldable pub stored_certificate : ℕ → List Certificate → Option Certificate
stored_certificate now [] = none
stored_certificate now (cert ∷ certs) =
    let rest = stored_certificate now certs in
    if ltb now (cert.expiration_time * seconds) then some cert else rest

-- A day.
abbrev pub cookie_lifetime : ℕ
cookie_lifetime = 24 * 3600 * seconds

-- ImportBrowserCookies: whether it succeeded
unfoldable pub import_browser_cookies : ℕ → Bytes → Client → Bool × Client
import_browser_cookies now cookie_str c =
    let cookies = parse_cookie_string cookie_str in
    let uid = auth_uid cookies in
    if is_blank uid then (false, c) else (
      true,
      record (set_session
          (some (record {
            uid = uid;
            user_id = uid;
            cookies = cookies;
            expires_at = now + cookie_lifetime;
          }))
          c) { session_cookies_raw = cookie_str },
    )

module _ (api : Proton) (now : ℕ) where
  unfoldable pub logged_in : String → String → Option Session → Client → Bool × Client
  logged_in username password none c = (false, c)
  logged_in username password (some session) c = (
    true,
    record c {
      store = record (c.store) { credentials = some (username, password); session = some session };
    },
  )

  -- Login
  unfoldable pub login : String → String → Client → Bool × Client
  unfolding logged_in
  login username password c = logged_in username password (api.srp_login username password) c

  unfoldable pub stored_login : Option (String × String) → Client → Bool × Client
  unfolding login
  stored_login none c = (false, c)
  stored_login (some (username, password)) c = login username password c

  -- loginWithCredentials
  unfoldable pub login_with_credentials : Client → Bool × Client
  unfolding stored_login login
  login_with_credentials c =
      if not (str_eq c.username "") && not (str_eq c.password "")
      then login c.username c.password c
      else stored_login c.store.credentials c

  -- A session that is stored, has not expired, and that the API accepts.
  unfoldable pub session_usable : Option Session → Bool
  session_usable none = false
  session_usable (some s) = ltb now s.expires_at && api.valid 0 s

  unfoldable pub accepted : Option Session → Bool
  accepted none = false
  accepted (some s) = api.valid 1 s

  -- The cookies once more, and their check
  unfoldable pub reimport : Client → Bool × Client
  unfolding accepted import_browser_cookies
  reimport c =
      let r = import_browser_cookies now c.session_cookies_raw c in
      (r.0 && accepted r.1.store.session, r.1)

  abbrev pub five_minutes : ℕ
  five_minutes = 5 * 60 * seconds

  unfoldable pub lasting : Option Session → Bool
  lasting none = false
  lasting (some s) = ltb (now + five_minutes) s.expires_at

  -- EnsureSession: whether it succeeded
  unfoldable pub ensure_session : Client → Bool × Client
  unfolding session_usable reimport lasting login_with_credentials
  ensure_session c =
      let again = reimport c in
      let logged = login_with_credentials c in
      if not (is_blank c.session_cookies_raw)
      then (if session_usable c.store.session then (true, c) else again)
      else (if lasting c.store.session then (true, c) else logged)

  unfoldable pub generated : Option Bytes → Client → Option Bytes × Client
  generated none c = (none, c)
  generated (some key) c = (some key, set_key (some key) c)

  unfoldable pub key_of : ℕ → Option Bytes → Client → Option Bytes × Client
  unfolding generated
  key_of n (some key) c = (some key, c)
  key_of n none c = generated (api.generate n) c

  -- GetOrCreateEd25519Key, with the number of the key that is made if there is none
  unfoldable pub get_or_create_ed25519_key : ℕ → Client → Option Bytes × Client
  unfolding key_of
  get_or_create_ed25519_key n c = key_of n c.store.ed25519_key c

  -- A certificate or an error, the requests for one, each with the key and the server, and the client.
  abbrev pub Issued : Type 0
  Issued = Option Certificate × List (Bytes × Peer) × Client

  abbrev pub stored_reply : Reply → List (Bytes × Peer) → Client → Issued
  stored_reply (granted cert) keys c = (some cert, keys, set_certificate cert c)
  stored_reply _ keys c = (none, keys, c)

  module _ (peer : Peer) where
    -- The second request.
    unfoldable pub ask_again : Session → Bytes → Option Bytes × Client → Issued
    ask_again session old (none, c) = (none, (old, peer) ∷ [], c)
    ask_again session old (some key, c) =
        stored_reply (api.certify 1 session key peer) ((old, peer) ∷ (key, peer) ∷ []) c

    unfoldable pub certified : Session → Bytes → Reply → Client → Issued
    unfolding ask_again get_or_create_ed25519_key
    certified session key conflict c =
        ask_again session key (get_or_create_ed25519_key 1 (set_key none c))
    certified session key reply c = stored_reply reply ((key, peer) ∷ []) c

    unfoldable pub ask : Session → Option Bytes × Client → Issued
    unfolding certified
    ask session (none, c) = (none, [], c)
    ask session (some key, c) = certified session key (api.certify 0 session key peer) c

    unfoldable pub with_session : Option Session → Client → Issued
    unfolding ask get_or_create_ed25519_key
    with_session none c = (none, [], c)
    with_session (some session) c = ask session (get_or_create_ed25519_key 0 c)

    unfoldable pub renew : Client → Issued
    unfolding ensure_session with_session
    renew c =
        let e = ensure_session c in
        let r = with_session e.1.store.session e.1 in if e.0 then r else (none, [], e.1)

    unfoldable pub or_renew : Option Certificate → Client → Issued
    unfolding renew
    or_renew none c = renew c
    or_renew (some cert) c =
        let r = renew c in if ltb now (cert.refresh_time * seconds) then (some cert, [], c) else r

    -- GetCertificate
    unfoldable pub get_certificate : Client → Issued
    unfolding or_renew stored_certificate
    get_certificate c = or_renew (stored_certificate now c.store.certificates) c
