-- ===== src/Sdk/Client/Laws/Exchange.antt =====
-- The exchange of a sealed request, stated once for both ways to log in.
use volq_auth.Base.{
  ℕ, ◌≡◌, refl, [], ◌∷◌, ◌++◌, ◌<>◌, String, throw, ◌⊎◌, inl, inr, Result-cases, arith,
}
use volq_auth.Base.Value.{Value, Fields}
use volq_auth.Sdk.Client.{Client, settle, accept, refuse, fetch}
use volq_auth.Sdk.Client.Methods.{seal, exchange}
use volq_auth.Sdk.Client.Interface.{Platform, World, Response, Reply, failed, answered, HttpRequest}
use volq_auth.Sdk.Client.Encoding.{generate_nonce}

pub Reply-cases :
    (r : Reply) → ((m : String) × (r ≡ failed m)) ⊎ ((a : Response) × (r ≡ answered a))
Reply-cases (failed m) = inl (m, refl)
Reply-cases (answered a) = inr (a, refl)

module _ (p : Platform) (path : String) (credentials : Fields → Fields) where
  -- The request of an exchange that begins at `s`.
  abbrev pub sealed_request : Client × World → HttpRequest
  sealed_request s =
      let (body, (c, w)) = seal p credentials s in record { url = c.base_url <> path; body = body }

  -- The state when the reply comes in.
  abbrev pub sealed : Client × World → Client × World
  sealed s =
      let (body, (c, w)) = seal p credentials s in
      (c, record w { sent = w.sent ++ sealed_request s ∷ [] })

  pub exchange_lem :
      (s : Client × World)
      → exchange p path credentials s ≡ elim (p.respond (sealed s).1.sent) [
        | failed m ↦ (throw m, sealed s)
        | answered r ↦ settle p r (sealed s)
      ]
  unfolding exchange fetch
  exchange_lem s = ground arith

module _ (p : Platform) where
  seal-sent :
      (credentials : Fields → Fields) (s : Client × World)
      → (seal p credentials s).1.1.sent ≡ s.1.sent
  unfolding seal generate_nonce
  seal-sent credentials (c, w) = ground arith

  -- Sealing changes the cached identifier of the client alone.
  seal_client :
      (credentials : Fields → Fields) (s : Client × World)
      → (seal p credentials s).1.0
        ≡ record (s.0) { cached_hwid = (seal p credentials s).1.0.cached_hwid }
  unfolding seal
  seal_client credentials (c, w) = ground arith

  pub sealed-sent :
      (path : String) (credentials : Fields → Fields) (s : Client × World)
      → (sealed p path credentials s).1.sent ≡ s.1.sent ++ sealed_request p path credentials s ∷ []
  sealed-sent path credentials s = rw (seal-sent credentials s)

  -- Settling a reply sends nothing and touches no field of the client but the token.
  accept_state :
      (v : Value) (s : Client × World)
      → (accept p v s).1 ≡ (record (s.0) { session_token = (accept p v s).1.0.session_token }, s.1)
  unfolding accept
  accept_state v s = ground arith

  refuse_state : (n : ℕ) (v : Value) (s : Client × World) → (refuse p n v s).1 ≡ s
  unfolding refuse
  refuse_state n v s = ground arith

  pub settle_state :
      (r : Response) (s : Client × World)
      → (settle p r s).1 ≡ (record (s.0) { session_token = (settle p r s).1.0.session_token }, s.1)
  unfolding settle
  settle_state r s = elim (Result-cases r.json) [
    | inl (v, e) ↦ ground (arith, accept_state v s, refuse_state r.status v s)
    | inr (m, e) ↦ ground arith
  ]
