-- ===== src/Sdk/Client/Laws/Token.antt =====
-- The session token changes exactly when the server's answer is a success.
use volq_auth.Base.{
  ℕ, ◌≡◌, Bool, if◌then◌else◌, String, Result, ok, throw, Result-cases, inl, inr, arith,
}
use volq_auth.Base.Value.{
  Value, undefined, null, bool, num, str, arr, obj, Fields, lookup_field, is_text,
}
use volq_auth.Sdk.Client.{Client, init, accept, refuse, settle}
use volq_auth.Sdk.Client.Laws.Exchange.{Reply-cases, sealed, exchange_lem}
use volq_auth.Sdk.Client.Laws.Init.{init_lem}
use volq_auth.Sdk.Client.Methods.{
  attempt, license_fields, user_fields, license_path, login_path, seal, exchange, with_session,
  authenticate_license, authenticate_user,
}
use volq_auth.Sdk.Client.Interface.{Platform, World, Response}

-- A field of a value: `undefined` where there is none.
abbrev pub field_of : String → Value → Value
field_of name undefined = undefined
field_of name null = undefined
field_of name (bool b) = undefined
field_of name (num n) = undefined
field_of name (str s) = undefined
field_of name (arr xs) = undefined
field_of name (obj fs) = lookup_field name fs

-- An answer whose status is "success".
abbrev pub succeeded : Value → Bool
succeeded v = is_text (field_of "status" v) "success"

-- The token after an answer.
abbrev pub token_after : Value → Value → Value
token_after answer old = if succeeded answer then field_of "session_token" answer else old

-- The token that a call without exceptions leaves.
abbrev pub Follows : Client × World → Value × (Client × World) → Type 0
Follows s (v, (c, w)) = c.session_token ≡ token_after v s.0.session_token

-- The token that a call which began at `c` leaves, by how it ended.
abbrev left_token : Client → Result String Value → Value
left_token c (ok v) = token_after v c.session_token
left_token c (throw e) = c.session_token

module _ (p : Platform) where
  accept_token :
      (v : Value) (c : Client) (w : World)
      → (accept p v (c, w)).1.0.session_token ≡ left_token c (accept p v (c, w)).0
  unfolding accept
  accept_token v c w = ground arith

  refuse_token :
      (n : ℕ) (v : Value) (c : Client) (w : World)
      → (refuse p n v (c, w)).1.0.session_token ≡ left_token c (refuse p n v (c, w)).0
  unfolding refuse lookup_field
  refuse_token n v c w = ground arith

  pub settle_token :
      (r : Response) (c : Client) (w : World)
      → (settle p r (c, w)).1.0.session_token ≡ left_token c (settle p r (c, w)).0
  unfolding settle
  settle_token r c w = elim (Result-cases r.json) [
    | inl (v, e) ↦ ground (arith, accept_token v c w, refuse_token r.status v c w)
    | inr (m, e) ↦ ground arith
  ]

  pub seal_token :
      (credentials : Fields → Fields) (s : Client × World)
      → (seal p credentials s).1.0.session_token ≡ s.0.session_token
  unfolding seal
  seal_token credentials (c, w) = ground arith

  exchange_token :
      (path : String) (credentials : Fields → Fields) (s : Client × World)
      → (exchange p path credentials s).1.0.session_token
        ≡ left_token s.0 (exchange p path credentials s).0
  exchange_token path credentials s =
      let (c, w) = sealed p path credentials s in
      elim (Reply-cases (p.respond w.sent)) [
        | inl (m, e) ↦ ground (arith, exchange_lem p path credentials s, seal_token credentials s)
        | inr (r, e) ↦
            ground (
              arith,
              exchange_lem p path credentials s,
              seal_token credentials s,
              settle_token r c w,
            )
      ]

  pub init_token : (s : Client × World) → (init p s).1.0.session_token ≡ s.0.session_token
  init_token (c, w) = ground (arith, init_lem p c w)

  attempt_token :
      (fallback path : String) (credentials : Fields → Fields) (s : Client × World)
      → Follows s (attempt p fallback path credentials s)
  unfolding lookup_field
  attempt_token fallback path credentials s = ground (arith, exchange_token path credentials s)

  with_session_token :
      (fallback path : String) (credentials : Fields → Fields) (s : Client × World)
      → Follows s (with_session p (attempt p fallback path credentials) s)
  unfolding with_session lookup_field
  with_session_token fallback path credentials s = ground (
    arith,
    attempt_token fallback path credentials s,
    attempt_token fallback path credentials (init p s).1,
    init_token s,
  )

  -- Both ways to log in keep the token that the client had, unless the answer that they return has the
  -- status "success"; then the client's token is the answer's, also if that is `undefined`.
  pub authenticate_token :
      (license_key username password : String) (s : Client × World)
      → Follows s (authenticate_license p license_key s)
        × Follows s (authenticate_user p username password s)
  unfolding authenticate_license authenticate_user
  authenticate_token license_key username password s = (
    with_session_token "Authentication error" license_path (license_fields license_key) s,
    with_session_token "Login error" login_path (user_fields username password) s,
  )
