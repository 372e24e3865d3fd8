-- ===== src/Dashboard/Api/Laws.antt =====
-- What a call does to the browser, on every outcome.
use volq_auth.Base.{
  ◌≡◌, Bool, false, ◌&&◌, ◌||◌, none, some, [], ◌∷◌, ◌++◌, if◌then◌else◌, String, ◌===◌, Result, ok,
  throw, Result-cases, inl, inr, arith,
}
use volq_auth.Base.Storage.{get_item, remove_item, get_item-remove_item}
use volq_auth.Base.Value.{Value}
use volq_auth.Dashboard.Api.{
  Method, Body, ApiError, Browser, Server, token_key, user_key, expels, on_error, outcome, outgoing,
  dispatched, call,
}

pub on_error_storage :
    (e : ApiError) (c : Browser) (key : String)
    → get_item key (on_error e c).storage ≡ (
        if expels e c && (token_key === key || user_key === key)
        then none
        else get_item key c.storage)
unfolding on_error
on_error_storage e c key = ground (
  arith,
  get_item-remove_item user_key key (remove_item token_key c.storage),
  get_item-remove_item token_key key c.storage,
)

on_error_href :
    (e : ApiError) (c : Browser)
    → (on_error e c).href ≡ (if expels e c then some "/login" else c.href)
unfolding on_error
on_error_href e c = ground arith

-- A call of a browser, before it is made.
module _ (server : Server) (method : Method) (path : String) (body : Value) (b : Browser) where
  -- What the server and axios make of the call.
  abbrev pub answered : Result ApiError Body
  answered = outcome server (server.respond (dispatched method path body b).sent)

  -- Whether the call ends the session: it is rejected with a 401 in a window off the login page.
  abbrev pub expelled : Bool
  expelled = elim answered [ ok answer ↦ false | throw e ↦ expels e b ]

  -- The interceptors keep the outcome: every response and every error reaches the caller as it came, and
  -- each call sends its request once, with the token of the moment.
  pub call_outcome :
      ((call server method path body b).0 ≡ answered)
      × ((call server method path body b).1.sent ≡ b.sent ++ outgoing method path body b ∷ [])
  unfolding call on_error
  call_outcome = elim (Result-cases answered) [
    | inl (a, e) ↦ (ground arith, ground arith)
    | inr (x, e) ↦ (ground arith, ground arith)
  ]

  -- After a call each stored value is what it was, but for the token and the user after a 401 off the
  -- login page: those are gone. The browser is sent to the login page then and only then.
  pub call_session :
      (key : String)
      → (get_item key (call server method path body b).1.storage ≡ (
          if expelled && (token_key === key || user_key === key)
          then none
          else get_item key b.storage))
        × ((call server method path body b).1.href ≡ (if expelled then some "/login" else b.href))
  unfolding call
  call_session key = elim (Result-cases answered) [
    | inl (a, e) ↦ (ground arith, ground arith)
    | inr (x, e) ↦ (
      ground (arith, on_error_storage x (dispatched method path body b) key),
      ground (arith, on_error_href x (dispatched method path body b)),
    )
  ]
