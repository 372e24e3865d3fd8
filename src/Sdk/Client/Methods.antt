-- ===== src/Sdk/Client/Methods.antt =====
-- The public methods of the client that exchange payloads: `authenticateLicense`,
-- `authenticateUser` and `getVariable`.
use volq_auth.Base.{if◌then◌else◌, String, trim, pure, from_result, try_catch, gets, lift, ◌>>=◌}
use volq_auth.Base.Value.{Value, null, num, pos, str, obj, Fields, end, field, truthy, or_else}
use volq_auth.Sdk.Client.{Client, Run, no_session, caught, get_hwid, fetch, now, read, init, settle}
use volq_auth.Sdk.Client.Interface.{Platform, World, Response, is_ok}
use volq_auth.Sdk.Client.Encoding.{generate_nonce, to_base64, from_base64}

-- The envelope: who is speaking, and the payload.
unfoldable pub envelope : Platform → String → Value → Fields → String
envelope p who id payload =
    p.stringify
      (obj (field who id (field "payload" (str (to_base64 p (p.stringify (obj payload)))) end)))

abbrev pub license_fields : String → Fields → Fields
license_fields license_key = field "license_key" (str (trim license_key))

abbrev pub user_fields : String → String → Fields → Fields
user_fields username password rest =
    field "username" (str (trim username)) (field "password" (str password) rest)

abbrev pub license_path : String
license_path = "/api/v1/client/license"

abbrev pub login_path : String
login_path = "/api/v1/client/login"

module _ (p : Platform) where
  -- The body of the request of both methods, which differ in their first fields.
  unfoldable pub seal : (Fields → Fields) → Client × World → String × (Client × World)
  unfolding get_hwid now envelope
  seal credentials s =
      let (hwid, (c, w)) = get_hwid p s in
      let (nonce, w1) = generate_nonce p w in
      let (timestamp, w2) = now p w1 in
      let body = envelope p "session_id" c.session_id (
        credentials (
          field "hwid" (str hwid)
            (field "nonce" (str nonce) (field "timestamp" (num (pos timestamp)) end)))) in
      (body, (c, w2))

  -- The `try` block of both methods.
  unfoldable pub exchange : String → (Fields → Fields) → Run Value
  exchange path credentials = do
    body ← lift (seal credentials)
    resp ← fetch p path body
    settle p resp

  -- The guard of both methods: a session, opened if there is none.
  unfoldable pub with_session :
      (Client × World → Value × (Client × World)) → Client × World → Value × (Client × World)
  with_session call s =
      let (initialized, s') = init p s in
      if truthy s.0.session_id then call s else if initialized then call s' else (no_session, s')

  -- The `try` block with its handler, which answers with the message or the given words.
  abbrev pub attempt :
      String → String → (Fields → Fields) → Client × World → Value × (Client × World)
  attempt fallback path credentials =
      try_catch (exchange path credentials) (λ message s. (caught fallback message, s))

  unfoldable pub authenticate_license : String → Client × World → Value × (Client × World)
  unfolding with_session
  authenticate_license license_key =
      with_session (attempt "Authentication error" license_path (license_fields license_key))

  unfoldable pub authenticate_user : String → String → Client × World → Value × (Client × World)
  unfolding with_session
  authenticate_user username password =
      with_session (attempt "Login error" login_path (user_fields username password))

  -- `decrypted.var_value || null`, from the payload of a good reply
  unfoldable pub open_variable : Value → Run Value
  open_variable answer = do
    payload ← read p "payload" answer
    text ← from_result (from_base64 p payload)
    decrypted ← from_result (p.parse text)
    value ← read p "var_value" decrypted
    pure (or_else value null)

  -- The reply to a request for a variable; an error status gives `null` before the body is read.
  unfoldable pub settle_variable : Response → Run Value
  settle_variable resp =
      if is_ok resp.status
      then (do answer ← from_result resp.json; open_variable answer)
      else pure null

  abbrev pub variable_body : String → Client → String
  variable_body var_key c =
      envelope p "session_token" c.session_token (field "var_key" (str var_key) end)

  unfoldable pub request_variable : String → Run Value
  request_variable var_key = do
    c ← gets (λ (c, w). c)
    resp ← fetch p "/api/v1/client/var" (variable_body var_key c)
    settle_variable resp

  unfoldable pub get_variable : String → Client × World → Value × (Client × World)
  get_variable var_key s =
      if truthy s.0.session_token
      then try_catch (request_variable var_key) (λ message s'. (null, s')) s
      else (null, s)
