-- ===== src/Vpn/Sessions/Certificates.antt =====
-- GetCertificate: what it stores, and how often it asks.
use opencode_multi_agents.Prelude.{
  ℕ, ◌*◌, ◌≡◌, refl, ap, ◌∙◌, ◌⊎◌, inl, inr, Option, none, some, List, [], true, false, ◌∷◌, ltb,
  if_both,
}
use opencode_multi_agents.Prelude.Bytes.{Bytes}
use opencode_multi_agents.Vpn.Sessions.{
  Session, Certificate, Client, Peer, Reply, granted, conflict, refused, Proton, set_key, seconds,
  stored_certificate, ensure_session, generated, key_of, get_or_create_ed25519_key, Issued,
  stored_reply, ask_again, certified, ask, with_session, renew, or_renew, get_certificate,
}
use opencode_multi_agents.Vpn.Sessions.Logins.{certs_of, ensure_session-Logged}

module _ (api : Proton) (now : ℕ) where
  -- At most two requests, each for this server, and the second only after a conflict of the first one's
  -- key.
  abbrev pub Asked : Peer → List (Bytes × Peer) → Type 0
  Asked peer [] = Unit {0}
  Asked peer (first ∷ []) = first.1 ≡ peer
  Asked peer (first ∷ second ∷ []) =
      (first.1 ≡ peer)
      × (second.1 ≡ peer)
      × ((session : Session) × (api.certify 0 session first.0 peer ≡ conflict))
  Asked peer (first ∷ second ∷ third ∷ more) = false ≡ true

  -- The API has granted the certificate for this server.
  abbrev pub Granted : Peer → Certificate → Type 0
  Granted peer cert =
      (n : ℕ) × (session : Session) × (key : Bytes) × (api.certify n session key peer
        ≡ granted cert)

  -- A new certificate is the newest stored, and granted, or there is none.
  abbrev Renewed : Peer → Client → Issued api now → Type 0
  Renewed peer c (none, requests, after) = Asked peer requests
  Renewed peer c (some cert, requests, after) =
      Asked peer requests × (certs_of after ≡ (cert ∷ certs_of c)) × Granted peer cert

  generated-certs :
      (o : Option Bytes) (c : Client) → certs_of (generated api now o c).1 ≡ certs_of c
  unfolding generated
  generated-certs none c = refl
  generated-certs (some key) c = refl

  key_of-certs :
      (n : ℕ) (o : Option Bytes) (c : Client) → certs_of (key_of api now n o c).1 ≡ certs_of c
  unfolding key_of
  key_of-certs n (some key) c = refl
  key_of-certs n none c = generated-certs (api.generate n) c

  stored_reply-Renewed :
      (peer : Peer) (n : ℕ) (session : Session) (key : Bytes) (reply : Reply)
      (requests : List (Bytes × Peer)) (c before : Client)
      → api.certify n session key peer ≡ reply
      → Asked peer requests
      → certs_of c ≡ certs_of before
      → Renewed peer before (stored_reply api now reply requests c)
  stored_reply-Renewed peer n session key (granted cert) requests c before r h e =
      (h, ap (λ cs. cert ∷ cs) e, (n, session, key, r))
  stored_reply-Renewed peer n session key conflict requests c before r h e = h
  stored_reply-Renewed peer n session key refused requests c before r h e = h

  ask_again-Renewed :
      (peer : Peer) (session : Session) (old : Bytes) (r : Option Bytes × Client) (before : Client)
      → api.certify 0 session old peer ≡ conflict
      → certs_of r.1 ≡ certs_of before
      → Renewed peer before (ask_again api now peer session old r)
  unfolding ask_again
  ask_again-Renewed peer session old (none, c) before was e = refl
  ask_again-Renewed peer session old (some key, c) before was e =
      stored_reply-Renewed peer 1 session key (api.certify 1 session key peer)
        ((old, peer) ∷ (key, peer) ∷ []) c before refl (refl, refl, (session, was)) e

  certified-Renewed :
      (peer : Peer) (session : Session) (key : Bytes) (reply : Reply) (c before : Client)
      → api.certify 0 session key peer ≡ reply
      → certs_of c ≡ certs_of before
      → Renewed peer before (certified api now peer session key reply c)
  unfolding certified get_or_create_ed25519_key
  certified-Renewed peer session key conflict c before r e =
      ask_again-Renewed peer session key (key_of api now 1 none (set_key none c)) before r
        (key_of-certs 1 none (set_key none c) ∙ e)
  certified-Renewed peer session key (granted cert) c before r e =
      stored_reply-Renewed peer 0 session key (granted cert) ((key, peer) ∷ []) c before r refl e
  certified-Renewed peer session key refused c before r e =
      stored_reply-Renewed peer 0 session key refused ((key, peer) ∷ []) c before r refl e

  ask-Renewed :
      (peer : Peer) (session : Session) (r : Option Bytes × Client) (before : Client)
      → certs_of r.1 ≡ certs_of before
      → Renewed peer before (ask api now peer session r)
  unfolding ask
  ask-Renewed peer session (none, c) before e = tt
  ask-Renewed peer session (some key, c) before e =
      certified-Renewed peer session key (api.certify 0 session key peer) c before refl e

  with_session-Renewed :
      (peer : Peer) (s : Option Session) (c before : Client)
      → certs_of c ≡ certs_of before
      → Renewed peer before (with_session api now peer s c)
  unfolding with_session get_or_create_ed25519_key
  with_session-Renewed peer none c before e = tt
  with_session-Renewed peer (some session) c before e =
      ask-Renewed peer session (key_of api now 0 c.store.ed25519_key c) before
        (key_of-certs 0 c.store.ed25519_key c ∙ e)

  renew-Renewed : (peer : Peer) (c : Client) → Renewed peer c (renew api now peer c)
  unfolding renew
  renew-Renewed peer c =
      let e = ensure_session api now c in
      if_both (Renewed peer c) e.0
        (with_session-Renewed peer e.1.store.session e.1 c (ensure_session-Logged api now c).1) tt

  -- What GetCertificate leaves: the stored certificate, with nothing asked for or changed; or a new one
  -- that the API has granted for the server, and that is stored before all others; or none.
  abbrev pub Held : Peer → Client → Issued api now → Type 0
  Held peer c (none, requests, after) = Asked peer requests
  Held peer c (some cert, requests, after) =
      Asked peer requests
      × (((requests ≡ []) × (after ≡ c) × (stored_certificate now (certs_of c) ≡ some cert))
          ⊎ ((certs_of after ≡ (cert ∷ certs_of c)) × Granted peer cert))

  Renewed-Held : (peer : Peer) (c : Client) (r : Issued api now) → Renewed peer c r → Held peer c r
  Renewed-Held peer c (none, requests, after) h = h
  Renewed-Held peer c (some cert, requests, after) h = (h.0, inr (h.1, h.2))

  or_renew-Held :
      (peer : Peer) (o : Option Certificate) (c : Client)
      → stored_certificate now (certs_of c) ≡ o
      → Held peer c (or_renew api now peer o c)
  unfolding or_renew
  or_renew-Held peer none c e = Renewed-Held peer c (renew api now peer c) (renew-Renewed peer c)
  or_renew-Held peer (some old) c e =
      if_both (Held peer c) (ltb now (old.refresh_time * seconds)) (tt, inl (refl, refl, e))
        (Renewed-Held peer c (renew api now peer c) (renew-Renewed peer c))

  -- At most two certificates are asked for, both for the given server, and the second only after the
  -- first one's key was in conflict. A certificate that comes back is either the stored one, with
  -- nothing asked for or changed, or one that the API has granted for that server, which is now stored
  -- before all others.
  pub get_certificate-Held :
      (peer : Peer) (c : Client) → Held peer c (get_certificate api now peer c)
  unfolding get_certificate
  get_certificate-Held peer c =
      or_renew-Held peer (stored_certificate now c.store.certificates) c refl
