-- ===== src/Sdk/Client/Laws/Init.antt =====
-- `init`: one request, and a session exactly when the reply gives one.
use volq_auth.Base.{
  ◌≡◌, refl, ◌+◌, true, false, Option, none, some, [], ◌∷◌, ◌++◌, ◌<>◌, if◌then◌else◌, ok, throw,
  arith,
}
use volq_auth.Base.Value.{
  Value, undefined, null, bool, num, pos, str, arr, obj, end, field, lookup_field, truthy, Fields,
}
use volq_auth.Sdk.Client.{Client, init}
use volq_auth.Sdk.Client.Interface.{
  Platform, World, Reply, answered, failed, is_ok, HttpRequest, Response,
}
use volq_auth.Sdk.Client.Encoding.{generate_nonce, random_key, bytes_to_base64}

-- The session id in the body of a reply; a body that is `undefined` or `null` has none to read.
abbrev pub session_of : Value → Option Value
session_of undefined = none
session_of null = none
session_of (bool b) = some undefined
session_of (num n) = some undefined
session_of (str s) = some undefined
session_of (arr xs) = some undefined
session_of (obj fs) = some (lookup_field "session_id" fs)

-- The session id that a reply to the handshake opens, if it opens one.
abbrev pub opens : Reply → Option Value
opens (failed message) = none
opens (answered r) =
    if is_ok r.status then elim r.json [ ok body ↦ session_of body | throw e ↦ none ] else none

module _ (p : Platform) where
  random_key-sent : (w : World) → (random_key p w).1.sent ≡ w.sent
  unfolding random_key
  random_key-sent w = ground arith

  generate_nonce-sent : (w : World) → (generate_nonce p w).1.sent ≡ w.sent
  unfolding generate_nonce
  generate_nonce-sent w = refl

  -- The world when the handshake's request is built: a nonce, a time and a key have been drawn.
  abbrev pub prepared : World → World
  prepared w =
      let w' = (generate_nonce p w).1 in (random_key p (record w' { reads = w'.reads + 1 })).1

  -- The handshake's request.
  abbrev pub init_request : Client → World → HttpRequest
  init_request c w =
      let (nonce, w') = generate_nonce p w in
      let key = (random_key p (record w' { reads = w'.reads + 1 })).0 in
      record {
        url = c.base_url <> "/api/v1/client/init";
        body = p.stringify (
            obj (
              field "app_id" (str c.app_id) (
                field "client_pub_key" (str (bytes_to_base64 p key)) (
                  field "nonce" (str nonce)
                    (field "timestamp" (num (pos (p.clock w'.reads))) end)))));
      }

  abbrev pub after_init : Client → World → World
  after_init c w = record (prepared w) { sent = w.sent ++ init_request c w ∷ [] }

  -- `init` against its description: one request, and by the reply either `false` and the client as it
  -- was, or `true` and the client with the session id of the reply.
  pub init_lem :
      (c : Client) (w : World)
      → init p (c, w) ≡ elim (opens (p.respond (after_init c w).sent)) [
        | none ↦ (false, (c, after_init c w))
        | some sid ↦ (true, (record c { session_id = sid }, after_init c w))
      ]
  unfolding init
  init_lem c w = ground (
    arith,
    random_key-sent (record ((generate_nonce p w).1) { reads = (generate_nonce p w).1.reads + 1 }),
    generate_nonce-sent w,
  )

  -- Each call of `init` sends one request, whatever the reply.
  init_sends : (c : Client) (w : World) → (init p (c, w)).1.1.sent ≡ w.sent ++ init_request c w ∷ []
  init_sends c w = ground (arith, init_lem c w)

  -- A reply of status 2xx whose object has no session id still makes `init` report success, and
  -- the client is left with no session id that its methods would take for one.
  init_without_id :
      (c : Client) (w : World) (r : Response) (fs : Fields)
      → p.respond (w.sent ++ init_request c w ∷ []) ≡ answered r
      → is_ok r.status ≡ true
      → r.json ≡ ok (obj fs)
      → lookup_field "session_id" fs ≡ undefined
      → ((init p (c, w)).0 ≡ true) × (truthy (init p (c, w)).1.0.session_id ≡ false)
  init_without_id c w r fs replied okay body missing = ground (arith, init_lem c w)
