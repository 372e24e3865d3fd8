-- ===== src/Sdk/Client.antt =====
-- sdks/react/src/client.ts: the class `VolqAuthClient`, its requests and its session.
pub mod Interface
pub mod Encoding
pub mod Methods
pub mod Laws
use volq_auth.Base.{
  ℕ, ◌+◌, Bool, true, false, Option, none, some, or_default, List, [], ◌∷◌, ◌++◌, if◌then◌else◌,
  String, ◌<>◌, is_empty, trim, text_or, strip_slashes, Result, ok, throw, Action, pure, raise,
  from_result, try_catch, gets, modify, lift, ◌>>=◌, ◌>>◌,
}
use volq_auth.Base.Digits.{to_string}
use volq_auth.Base.Storage.{Storage}
use volq_auth.Base.Value.{
  Value, undefined, null, num, pos, str, obj, end, field, truthy, or_else, is_text, member,
}
use volq_auth.Sdk.Hwid.{get_browser_hwid}
use Interface.{Platform, HttpRequest, Response, Reply, failed, answered, is_ok, World}
use Encoding.{generate_nonce, random_key, to_base64, from_base64, bytes_to_base64}

-- `VolqAuthConfig`, without `autoInit`, which only the provider reads
pub record Config : Type 0 where
  pub app_id : String
  pub app_version : Option String
  pub master_public_key : Option String
  pub base_url : Option String

pub record Client : Type 0 where
  pub app_id : String
  pub app_version : String
  pub master_public_key : String
  pub base_url : String
  pub session_id : Value
  pub session_token : Value
  pub cached_hwid : Option String

-- the constructor
unfoldable pub new_client : Config → Client
unfolding strip_slashes
new_client config = record {
  app_id = config.app_id;
  app_version = text_or config.app_version "1.0.0";
  master_public_key = text_or config.master_public_key "";
  base_url = strip_slashes (text_or config.base_url "http://localhost:8080");
  session_id = null;
  session_token = null;
  cached_hwid = none;
}

unfoldable pub set_session_token : Value → Client → Client
set_session_token token c = record c { session_token = token }

abbrev pub Run : Type 0 → Type 0
Run A = Action (Client × World) String A

-- `{ status: 'error', message }`
abbrev pub auth_error : Value → Value
auth_error message = obj (field "status" (str "error") (field "message" message end))

-- `err.message || fallback`
abbrev pub caught : String → String → Value
caught fallback message = auth_error (str (if is_empty message then fallback else message))

abbrev pub no_session : Value
no_session = auth_error (str "Failed to initialize session with VOLQ-Auth server.")

module _ (p : Platform) where
  unfoldable pub get_hwid : Client × World → String × (Client × World)
  get_hwid (c, w) =
      let (fresh, m) = get_browser_hwid p.device w.storage in
      let found : String × (Client × World) =
        (fresh, (record c { cached_hwid = some fresh }, record w { storage = m })) in
      elim c.cached_hwid [ none ↦ found | some h ↦ if is_empty h then found else (h, (c, w)) ]

  -- `fetch` of a POST with a JSON body: the request is on its way also when the call fails.
  unfoldable pub fetch : String → String → Run Response
  fetch path body (c, w) =
      let req : HttpRequest = record { url = c.base_url <> path; body = body } in
      let w' : World = record w { sent = w.sent ++ req ∷ [] } in
      elim (p.respond w'.sent) [
        | failed message ↦ (throw message, (c, w'))
        | answered r ↦ (ok r, (c, w'))
      ]

  unfoldable pub now : World → ℕ × World
  now w = (p.clock w.reads, record w { reads = w.reads + 1 })

  -- A step on the world alone.
  abbrev on_world : {A : Type 0} → (World → A × World) → Run A
  on_world f = lift (λ (c, w). let (a, w') = f w in (a, (c, w')))

  abbrev pub read : String → Value → Run Value
  read name v = from_result (member (p.no_member name) name v)

  unfoldable init_body : Run Bool
  unfolding fetch now
  init_body = do
    nonce ← on_world (generate_nonce p)
    timestamp ← on_world now
    key ← on_world (random_key p)
    c ← gets (λ (c, w). c)
    resp ← fetch "/api/v1/client/init" (
        p.stringify (
          obj (
            field "app_id" (str c.app_id) (
              field "client_pub_key" (str (bytes_to_base64 p key))
                (field "nonce" (str nonce) (field "timestamp" (num (pos timestamp)) end))))))
    if is_ok resp.status
        then (do
          answer ← from_result resp.json
          sid ← read "session_id" answer
          modify (λ (c, w). (record c { session_id = sid }, w))
          pure true)
        else pure false

  -- `init`
  unfoldable pub init : Client × World → Bool × (Client × World)
  unfolding init_body
  init = try_catch init_body (λ message s. (false, s))

  -- The part of `authenticateLicense` and `authenticateUser` after a good reply: the payload is
  -- decoded, and the token of a success is kept.
  unfoldable pub accept : Value → Run Value
  accept answer = do
    payload ← read "payload" answer
    text ← from_result (from_base64 p payload)
    decrypted ← from_result (p.parse text)
    status ← read "status" decrypted
    if is_text status "success"
        then (do
          token ← read "session_token" decrypted
          modify (λ (c, w). (record c { session_token = token }, w))
          pure decrypted)
        else pure decrypted

  -- The part after a reply with an error status.
  unfoldable pub refuse : ℕ → Value → Run Value
  refuse status answer = do
    message ← read "error" answer
    pure (auth_error (or_else message (str ("HTTP " <> to_string 10 status))))

  unfoldable pub settle : Response → Run Value
  settle resp = do
    answer ← from_result resp.json
    if is_ok resp.status then accept answer else refuse resp.status answer
