-- ===== src/Upstream/Server/Keys.antt =====
-- Where the client's key goes, and what a stream hides.
use opencode_multi_agents.Prelude.{
  ◌==◌, ◌≡◌, refl, ap, sym, ◌∙◌, String, Bool, true, false, not, Option, some, List, [], ◌∷◌, arith,
  if◌then◌else◌, Bool-cases, inl, inr, ◌⊎◌,
}
use opencode_multi_agents.Prelude.Bytes.{Bytes, is_blank, cut_at}
use opencode_multi_agents.Gateway.Auth.{Auth}
use opencode_multi_agents.Upstream.Client.{Request, Response, Client, get_client}
use opencode_multi_agents.Upstream.Server.{
  ServerBody, ServerJson, session_request, do_chat_completion, do_adapt, ok, rate_limit, with_id,
  session_received, message_request, message_received, named_model, piped, buffered, Completed,
  limited,
}
use opencode_multi_agents.Upstream.Messages.{ServerConfig, resolve_model, to_auth, notice}

blank_nil : (s : Bytes) → is_blank s ≡ true → s ≡ []
blank_nil [] h = refl
blank_nil (c ∷ s) h = cc

-- The model that is resolved from an empty text is the configured one.
resolve_model-nil : (cfg : ServerConfig) → (resolve_model cfg []).1 ≡ cfg.server_model
unfolding resolve_model cut_at
resolve_model-nil cfg = elim (Bool-cases (is_blank cfg.server_model)) [
  | inl e ↦ rw e (sym (blank_nil cfg.server_model e))
  | inr e ↦ rw e refl
]

-- The client's key is put under the name of the configured model, even an empty one, and never under
-- the provider's.
pub to_auth-model :
    (cfg : ServerConfig) (auth : Auth) (provider key : Bytes)
    → (to_auth cfg auth).put ≡ some (provider, key)
    → provider ≡ cfg.server_model
unfolding to_auth
to_auth-model cfg auth provider key e = ground (arith, e, resolve_model-nil cfg)

module _ (json : ServerJson) (basic_header : Bytes × Bytes → Bytes × Bytes)
    (exchange : Bytes → Request → Option Response) (cfg : ServerConfig) where
  received_limited :
      (client base : Bytes) (auth : Auth) (stream : Bool) (body : ServerBody) (o : Option Response)
      (resp : Response)
      → o ≡ some resp
      → resp.status ≡ 429
      → (session_received json basic_header exchange cfg client base auth stream body o).1
        ≡ limited resp.retry_after
  received_limited client base auth stream body o resp e s =
      let test : (resp.status == 429) ≡ true = ground (arith, s) in
      ap
        (λ (o : Option Response).
          (session_received json basic_header exchange cfg client base auth stream body o).1)
        e
      ∙ ap (λ (r : List Request × Completed). r.1)
          (ap
            (λ (b : Bool).
              if b
              then ([], limited resp.retry_after)
              else if not (resp.status == 200)
              then ([], Completed.failed)
              else with_id json basic_header exchange cfg client base auth stream body
                  (json.read_session resp.body))
            test)

  message_limited :
      (client base : Bytes) (auth : Auth) (stream : Bool) (body : ServerBody) (id : Bytes)
      (resp : Response)
      → is_blank id ≡ false
      → exchange client (message_request json basic_header exchange cfg base auth id body)
        ≡ some resp
      → resp.status ≡ 429
      → (with_id json basic_header exchange cfg client base auth stream body (some id)).1
        ≡ limited resp.retry_after
  message_limited client base auth stream body id resp there e s =
      let test : (resp.status == 429) ≡ true = ground (arith, s) in
      rw there (
        ap
          (λ (o : Option Response).
            message_received json basic_header exchange cfg stream id
              (named_model json basic_header exchange cfg body.model) o)
          e
        ∙ ground (arith, test))

  session_opened :
      (client base : Bytes) (auth : Auth) (stream : Bool) (body : ServerBody) (o : Option Response)
      (opened : Response) (id : Bytes)
      → o ≡ some opened
      → opened.status ≡ 200
      → json.read_session opened.body ≡ some id
      → (session_received json basic_header exchange cfg client base auth stream body o).1
        ≡ (with_id json basic_header exchange cfg client base auth stream body (some id)).1
  session_opened client base auth stream body o opened id e s r =
      let limit : (opened.status == 429) ≡ false = ground (arith, s) in
      let fine : (opened.status == 200) ≡ true = ground (arith, s) in
      ap
        (λ (o : Option Response).
          (session_received json basic_header exchange cfg client base auth stream body o).1)
        e
      ∙ rw (limit, fine)
          (ap
            (λ (o : Option Bytes).
              (with_id json basic_header exchange cfg client base auth stream body o).1)
            r)

  -- The server answers the request for a session, or the message in the session that it opened, with a
  -- rate limit.
  abbrev pub Limits : Bytes → Bytes → Auth → ServerBody → Response → Type 0
  Limits client base auth body resp =
      (resp.status ≡ 429)
      × ((exchange client (session_request json basic_header exchange cfg base auth) ≡ some resp)
          ⊎ ((opened : Response) × (id : Bytes) × (exchange client
                  (session_request json basic_header exchange cfg base auth)
                ≡ some opened)
              × (opened.status ≡ 200)
              × (json.read_session opened.body ≡ some id)
              × (is_blank id ≡ false)
              × (exchange client (message_request json basic_header exchange cfg base auth id body)
                  ≡ some resp)))

  Limits-limited :
      (client base : Bytes) (auth : Auth) (stream : Bool) (body : ServerBody) (resp : Response)
      → Limits client base auth body resp
      → (session_received json basic_header exchange cfg client base auth stream body
          (exchange client (session_request json basic_header exchange cfg base auth))).1
        ≡ limited resp.retry_after
  Limits-limited client base auth stream body resp (s, inl e) =
      received_limited client base auth stream body _ resp e s
  Limits-limited client base auth stream body resp (s, inr (opened, id, e, fine, r, there, m)) =
      session_opened client base auth stream body _ opened id e fine r
      ∙ message_limited client base auth stream body id resp there m s

  -- A rate limit of the server, on the request for a session or on the message, is reported with its
  -- Retry-After by a request without a stream, and hidden by one with a stream: that answers with
  -- status 200, and an event with the text of the error.
  pub do_adapt_limited :
      (id : String) (addr : Bytes) (body : ServerBody) (auth : Auth) (c : Client) (resp : Response)
      → Limits (get_client id addr c).0 c.base auth body resp
      → ((do_adapt json basic_header exchange cfg id addr body auth false c).1
          ≡ rate_limit resp.retry_after)
        × ((do_adapt json basic_header exchange cfg id addr body auth true c).1 ≡ ok (notice ∷ []))
  unfolding do_adapt do_chat_completion
  do_adapt_limited id addr body auth c resp h =
      let client = (get_client id addr c).0 in
      (
        ap (buffered json basic_header exchange cfg)
            (Limits-limited client c.base auth false body resp h),
        ap (λ r. ok (piped json basic_header exchange cfg r))
            (Limits-limited client c.base auth true body resp h),
      )
