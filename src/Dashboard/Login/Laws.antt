-- ===== src/Dashboard/Login/Laws.antt =====
-- The login page, whatever the server answers.
use volq_auth.Base.{
  ℕ, ◌≡◌, refl, true, false, ◌||◌, none, some, String, ◌<>◌, ◌===◌, is_empty, is_empty_append, ok,
  throw, if◌then◌else◌, arith,
}
use volq_auth.Base.Value.{Value, Fields, undefined, str, obj, truthy, or_else, lookup_field}
use volq_auth.Dashboard.Types.{UserProfile}
use volq_auth.Dashboard.Api.{
  Server, Browser, Body, ApiError, session, json, post, call, token_key, user_key,
}
use volq_auth.Dashboard.Api.Laws.{answered, call_outcome}
use volq_auth.Dashboard.Auth
use volq_auth.Dashboard.Auth.{ProfileCodec}
use volq_auth.Dashboard.Auth.Session.{login_user, refresh_apps_user}
use volq_auth.Dashboard.Page.{Page, request}
use volq_auth.Dashboard.Login.{
  Login, data_member, has_status, status_of, gateway_text, text_of, error_value, credentials_in,
  endpoint, login_body, started, handle_submit,
}

-- Whatever the error, the page has something to show for it.
error_value-truthy : (show : Value → String) (e : ApiError) → truthy (error_value show e) ≡ true
unfolding error_value
error_value-truthy show e =
    let detail = or_else (data_member "error" e) (data_member "message" e) in
    ground (
      arith,
      is_empty_append "Backend Error (" (status_of e <> "): " <> text_of show detail) refl,
      is_empty_append "Gateway Error ("
          (status_of e
            <> "): Dashboard proxy could not connect to Go backend. Please check"
            <> " NEXT_PUBLIC_API_URL in Railway (visit /api/health to inspect connection).")
          refl,
    )

-- What the handler shows, said without its dead parts: in the branch of the statuses 500, 502 and 504 the
-- body has no error that counts.
error_value_lem :
    (show : Value → String) (e : ApiError) (status : ℕ) (body : Body)
    → e.response ≡ some (status, body)
    → truthy (data_member "error" e) ≡ false
    → e.code === "ERR_NETWORK" ≡ false
    → error_value show e ≡ (
        if has_status 500 e || (has_status 502 e || has_status 504 e)
        then (if truthy (data_member "message" e)
            then str (
                "Backend Error (" <> status_of e <> "): " <> text_of show (data_member "message" e))
            else str (gateway_text e))
        else if is_empty e.message
        then str "Authentication failed. Please check your credentials."
        else str e.message)
unfolding error_value
error_value_lem show e status body r n c = ground arith

-- The state of the page and the browser after the request of a submitted form.
abbrev pub after_request : Server → Page Login → Page Login
after_request server (p, (auth, b)) =
    (started p, (auth, (call server post (endpoint p) (login_body p) b).1))

-- A form whose request fails, or is answered with an empty body, leaves the context of the session as it
-- was and the browser as the request left it, stays on the page, and ends with an error on show and no
-- longer loading.
pub handle_submit_refused :
    (server : Server) (codec : ProfileCodec) (show : Value → String) (p : Login) (auth : Auth.Auth)
    (b : Browser) (e : ApiError)
    → credentials_in show (answered server post (endpoint p) (login_body p) b) ≡ throw e
    → let t = handle_submit server codec show (p, (auth, b)) in
      (truthy t.0.error ≡ true)
      × (t.0.error ≡ error_value show e)
      × (t.0.loading ≡ false)
      × (t.0.pushed ≡ p.pushed)
      × (t.1 ≡ (auth, (call server post (endpoint p) (login_body p) b).1))
unfolding handle_submit request
handle_submit_refused server codec show p auth b e h =
    rw ((call_outcome server post (endpoint p) (login_body p) b).0, h)
      (error_value-truthy show e, refl, refl, refl, refl)

-- A form whose request is answered with a token and a developer signs that developer in and goes to the
-- overview, with no error on show and no longer loading.
pub handle_submit_accepted :
    (server : Server) (codec : ProfileCodec) (show : Value → String) (p : Login) (auth : Auth.Auth)
    (b : Browser) (token : String) (user : UserProfile)
    → answered server post (endpoint p) (login_body p) b ≡ ok (session token user)
    → let t = handle_submit server codec show (p, (auth, b)) in
      (t.1.0.token ≡ some token)
      × (t.1.0.user ≡ some user)
      × (t.0.pushed ≡ some "/")
      × (t.0.loading ≡ false)
      × (truthy t.0.error ≡ false)
unfolding handle_submit request Auth.login
handle_submit_accepted server codec show p auth b token user h =
    rw ((call_outcome server post (endpoint p) (login_body p) b).0, h)
      (
        (login_user server codec token user
            (auth, (call server post (endpoint p) (login_body p) b).1)).0,
        (login_user server codec token user
            (auth, (call server post (endpoint p) (login_body p) b).1)).1,
        refl,
        refl,
        refl,
      )

-- A form whose request is answered with an object that has neither a token nor a developer goes to the overview as well,
-- with no error on show and no longer loading, and the context then has no token and no user, whatever it had before.
pub handle_submit_unsigned :
    (server : Server) (codec : ProfileCodec) (show : Value → String) (p : Login) (auth : Auth.Auth)
    (b : Browser) (fs : Fields)
    → answered server post (endpoint p) (login_body p) b ≡ ok (json (obj fs))
    → lookup_field "token" fs ≡ undefined
    → lookup_field "developer" fs ≡ undefined
    → let t = handle_submit server codec show (p, (auth, b)) in
      (t.1.0.token ≡ none)
      × (t.1.0.user ≡ none)
      × (t.0.pushed ≡ some "/")
      × (t.0.loading ≡ false)
      × (truthy t.0.error ≡ false)
unfolding handle_submit request
handle_submit_unsigned server codec show p auth b fs h no_token no_developer =
    let b' = (call server post (endpoint p) (login_body p) b).1 in
    let kept = refresh_apps_user server (
      record auth { token = none; user = none },
      Auth.store user_key "undefined" (Auth.store token_key "undefined" b'),
    ) in
    rw ((call_outcome server post (endpoint p) (login_body p) b).0, h, no_token)
      (kept.0, kept.1, refl, refl, refl)
