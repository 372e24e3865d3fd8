-- ===== src/Sdk/Client/Laws/Requests.antt =====
-- Which requests the methods send, and what they leave alone.
use volq_auth.Base.{
  ap, trim, trim_idempotent, ◌≡◌, true, none, some, List, [], ◌∷◌, ◌++◌, ◌<>◌, String, Result-cases,
  inl, inr, Option-cases, arith, append_assoc, append-nil, if◌then◌else◌,
}
use volq_auth.Base.Value.{str, field, Value, Fields, truthy}
use volq_auth.Sdk.Client.{Client, init, fetch}
use volq_auth.Sdk.Client.Interface.{Platform, World, Response, HttpRequest}
use volq_auth.Sdk.Client.Laws.Exchange.{
  Reply-cases, sealed, sealed_request, exchange_lem, settle_state, sealed-sent,
}
use volq_auth.Sdk.Client.Laws.Init.{init_lem, init_request, opens, after_init}
use volq_auth.Sdk.Client.Methods.{
  attempt, license_fields, user_fields, license_path, login_path, exchange, with_session,
  authenticate_license, authenticate_user, get_variable, request_variable, open_variable,
  settle_variable, variable_body,
}

module _ (p : Platform) where
  exchange_sent :
      (path : String) (credentials : Fields → Fields) (s : Client × World)
      → (exchange p path credentials s).1.1 ≡ (sealed p path credentials s).1
  exchange_sent path credentials s =
      elim (Reply-cases (p.respond (sealed p path credentials s).1.sent)) [
        | inl (m, e) ↦ ground (arith, exchange_lem p path credentials s)
        | inr (r, e) ↦ ground (
          arith,
          exchange_lem p path credentials s,
          settle_state p r (sealed p path credentials s),
        )
      ]

  attempt_sent :
      (fallback path : String) (credentials : Fields → Fields) (s : Client × World)
      → (attempt p fallback path credentials s).1.1.sent
        ≡ s.1.sent ++ sealed_request p path credentials s ∷ []
  attempt_sent fallback path credentials s =
      ground (arith, exchange_sent path credentials s, sealed-sent p path credentials s)

  -- What a login sends: the handshake if there is no session, and the sealed credentials unless that
  -- handshake fails.
  abbrev pub login_requests : String → (Fields → Fields) → Client × World → List HttpRequest
  login_requests path credentials s =
      if truthy s.0.session_id
      then sealed_request p path credentials s ∷ []
      else elim (opens (p.respond (after_init p s.0 s.1).sent)) [
        | none ↦ init_request p s.0 s.1 ∷ []
        | some sid ↦
            init_request p s.0 s.1
            ∷ sealed_request p path credentials
                (record (s.0) { session_id = sid }, after_init p s.0 s.1)
            ∷ []
      ]

  with_session_sent :
      (fallback path : String) (credentials : Fields → Fields) (s : Client × World)
      → (with_session p (attempt p fallback path credentials) s).1.1.sent
        ≡ s.1.sent ++ login_requests path credentials s
  unfolding with_session
  with_session_sent fallback path credentials s =
      elim (Option-cases (opens (p.respond (after_init p s.0 s.1).sent))) [
        | inl e ↦ ground (arith, attempt_sent fallback path credentials s, init_lem p s.0 s.1)
        | inr (sid, e) ↦ ground (
          arith,
          attempt_sent fallback path credentials s,
          init_lem p s.0 s.1,
          attempt_sent fallback path credentials (init p s).1,
          append_assoc s.1.sent (init_request p s.0 s.1 ∷ []) (
              sealed_request p path credentials
                (record (s.0) { session_id = sid }, after_init p s.0 s.1)
              ∷ []),
        )
      ]

  -- A login sends the handshake first where there is no session, and its own request only to a session:
  -- with one at hand that request alone, after a failed handshake the handshake alone.
  pub authenticate_sends :
      (license_key username password : String) (s : Client × World)
      → ((authenticate_license p license_key s).1.1.sent
          ≡ s.1.sent ++ login_requests license_path (license_fields license_key) s)
        × ((authenticate_user p username password s).1.1.sent
            ≡ s.1.sent ++ login_requests login_path (user_fields username password) s)
  unfolding authenticate_license authenticate_user
  authenticate_sends license_key username password s = (
    with_session_sent "Authentication error" license_path (license_fields license_key) s,
    with_session_sent "Login error" login_path (user_fields username password) s,
  )

  fetch_client : (path body : String) (s : Client × World) → (fetch p path body s).1.0 ≡ s.0
  unfolding fetch
  fetch_client path body (c, w) = ground arith

  open_variable_state : (v : Value) (s : Client × World) → (open_variable p v s).1 ≡ s
  unfolding open_variable
  open_variable_state v s = ground arith

  settle_variable_state : (r : Response) (s : Client × World) → (settle_variable p r s).1 ≡ s
  unfolding settle_variable
  settle_variable_state r s = elim (Result-cases r.json) [
    | inl (v, e) ↦ ground (arith, open_variable_state v s)
    | inr (m, e) ↦ ground arith
  ]

  -- What a read of a variable sends: one request with a token, nothing without.
  abbrev pub variable_requests : String → Client → List HttpRequest
  variable_requests var_key c =
      if truthy c.session_token
      then record { url = c.base_url <> "/api/v1/client/var"; body = variable_body p var_key c }
        ∷ []
      else []

  fetched : String → Client × World → Client × World
  fetched var_key (c, w) = (c, record w { sent = w.sent ++ variable_requests var_key c })

  request_variable_state :
      (var_key : String) (c : Client) (w : World)
      → truthy c.session_token ≡ true
      → (request_variable p var_key (c, w)).1 ≡ fetched var_key (c, w)
  unfolding request_variable fetch fetched
  request_variable_state var_key c w h =
      elim (Reply-cases (p.respond (fetched var_key (c, w)).1.sent)) [
        | inl (m, e) ↦ ground arith
        | inr (r, e) ↦ ground (arith, settle_variable_state r (fetched var_key (c, w)))
      ]

  -- A read of a variable never changes the client, its session and its token included, nor the stored
  -- values; it sends one request for the variable if there is a token, and nothing if there is none.
  pub get_variable_lem :
      (var_key : String) (c : Client) (w : World)
      → (get_variable p var_key (c, w)).1
        ≡ (c, record w { sent = w.sent ++ variable_requests var_key c })
  unfolding get_variable fetched
  get_variable_lem var_key c w =
      ground (arith, request_variable_state var_key c w, append-nil w.sent)

-- White space around a license key or a user name makes no difference: a login with the trimmed text is
-- the same login, in its answer, its requests and what it leaves.
pub authenticate-trim :
    (p : Platform) (license_key username password : String) (s : Client × World)
    → (authenticate_license p (trim license_key) s ≡ authenticate_license p license_key s)
      × (authenticate_user p (trim username) password s ≡ authenticate_user p username password s)
unfolding authenticate_license authenticate_user
authenticate-trim p license_key username password s = (
  ap
      (λ t.
        with_session p (attempt p "Authentication error" license_path (field "license_key" (str t)))
          s)
      (trim_idempotent license_key),
  ap
      (λ t.
        with_session p
          (attempt p "Login error" login_path
            (λ rest. field "username" (str t) (field "password" (str password) rest)))
          s)
      (trim_idempotent username),
)
