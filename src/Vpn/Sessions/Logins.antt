-- ===== src/Vpn/Sessions/Logins.antt =====
-- EnsureSession: a session is stored when it succeeds.
use opencode_multi_agents.Prelude.{
  ℕ, ◌≡◌, refl, String, Bool, true, false, ◌&&◌, not, Option, none, some, List, str_eq,
  if◌then◌else◌, if_both, arith,
}
use opencode_multi_agents.Prelude.Bytes.{Bytes, is_blank}
use opencode_multi_agents.Vpn.Cookies.{parse_cookie_string, auth_uid}
use opencode_multi_agents.Vpn.Sessions.{
  Session, Certificate, Client, Proton, import_browser_cookies, logged_in, login, stored_login,
  login_with_credentials, session_usable, reimport, lasting, ensure_session,
}

abbrev pub is_there {ℓ} : {A : Type ℓ} → Option A → Bool
is_there none = false
is_there (some a) = true

abbrev pub certs_of : Client → List Certificate
certs_of c = c.store.certificates

module _ (api : Proton) (now : ℕ) where
  -- A session, and the same certificates as before.
  abbrev pub Logged : Client → Bool × Client → Type 0
  Logged c r = (r.0 ≡ true → is_there r.1.store.session ≡ true) × (certs_of r.1 ≡ certs_of c)

  logged_in-Logged :
      (username password : String) (s : Option Session) (c : Client)
      → Logged c (logged_in api now username password s c)
  unfolding logged_in
  logged_in-Logged username password none c = ((λ e. cc), refl)
  logged_in-Logged username password (some s) c = ((λ e. refl), refl)

  stored_login-Logged :
      (o : Option (String × String)) (c : Client) → Logged c (stored_login api now o c)
  unfolding stored_login login
  stored_login-Logged none c = ((λ e. cc), refl)
  stored_login-Logged (some (username, password)) c =
      logged_in-Logged username password (api.srp_login username password) c

  login_with_credentials-Logged : (c : Client) → Logged c (login_with_credentials api now c)
  unfolding login_with_credentials login
  login_with_credentials-Logged c =
      if_both (Logged c) (not (str_eq c.username "") && not (str_eq c.password ""))
        (logged_in-Logged c.username c.password (api.srp_login c.username c.password) c)
        (stored_login-Logged c.store.credentials c)

  import_browser_cookies-Logged :
      (cookie_str : Bytes) (c : Client) → Logged c (import_browser_cookies now cookie_str c)
  unfolding import_browser_cookies
  import_browser_cookies-Logged cookie_str c =
      if_both (Logged c) (is_blank (auth_uid (parse_cookie_string cookie_str))) ((λ e. cc), refl)
        ((λ e. refl), refl)

  reimport-Logged : (c : Client) → Logged c (reimport api now c)
  unfolding reimport
  reimport-Logged c =
      let h = import_browser_cookies-Logged c.session_cookies_raw c in
      ((λ e. h.0 (ground (arith, e))), h.1)

  session_usable-there : (s : Option Session) → session_usable api now s ≡ true → is_there s ≡ true
  unfolding session_usable
  session_usable-there none e = e
  session_usable-there (some s) e = refl

  lasting-there : (s : Option Session) → lasting api now s ≡ true → is_there s ≡ true
  unfolding lasting
  lasting-there none e = e
  lasting-there (some s) e = refl

  kept-Logged :
      (b : Bool) (c : Client) (r : Bool × Client)
      → (b ≡ true → is_there c.store.session ≡ true)
      → Logged c r
      → Logged c (if b then (true, c) else r)
  kept-Logged true c r h k = ((λ e. h refl), refl)
  kept-Logged false c r h k = k

  -- When EnsureSession succeeds, a session is stored, whichever way it came; and it changes no
  -- certificate.
  pub ensure_session-Logged : (c : Client) → Logged c (ensure_session api now c)
  unfolding ensure_session
  ensure_session-Logged c =
      let s = c.store.session in
      if_both (Logged c) (not (is_blank c.session_cookies_raw))
        (kept-Logged (session_usable api now s) c (reimport api now c) (session_usable-there s)
          (reimport-Logged c))
        (kept-Logged (lasting api now s) c (login_with_credentials api now c) (lasting-there s)
          (login_with_credentials-Logged c))
