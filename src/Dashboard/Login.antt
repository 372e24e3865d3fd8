-- ===== src/Dashboard/Login.antt =====
-- frontend/src/app/login/page.tsx: signing in and registering.
pub mod Laws
use volq_auth.Base.{
  ℕ, ◌==◌, Bool, true, false, not, ◌||◌, ◌&&◌, List, [], ◌∷◌, Option, none, some, if◌then◌else◌,
  String, ◌<>◌, ◌===◌, is_empty, Result, ok, throw, try_catch, Action, ◌>>=◌, from_result,
}
use volq_auth.Base.Digits.{to_string}
use volq_auth.Base.Value.{
  Value, undefined, null, str, obj, field, end, truthy, or_else, lookup_field,
}
use volq_auth.Dashboard.Types.{UserProfile}
use volq_auth.Dashboard.Api.{Server, Body, ApiError, session, json, post}
use volq_auth.Dashboard.Auth
use volq_auth.Dashboard.Auth.{ProfileCodec}
use volq_auth.Dashboard.Page.{Page, edit, request}
use volq_auth.Dashboard.Form.{Control, text_input, required, press_submit}

pub record Login : Type 0 where
  pub is_register : Bool
  pub username : String
  pub email : String
  pub password : String
  pub loading : Bool
  pub error : Value
  pub pushed : Option String

-- The controls of the form, where `is_email` is the browser's test of an address.
unfoldable pub login_form : (String → Bool) → Login → List (Control Login)
login_form is_email p =
    let name : Control Login =
      text_input "Username" required p.username (λ s p. record p { username = s }) in
    let word : Control Login =
      text_input "Password" required p.password (λ s p. record p { password = s }) in
    let email : Control Login =
      text_input "Email Address" (λ s. required s && is_email s) p.email
        (λ s p. record p { email = s }) in
    if p.is_register then name ∷ email ∷ word ∷ [] else name ∷ word ∷ []

-- The button that changes between signing in and registering.
unfoldable toggle_register : Login → Login
toggle_register p = record p { is_register = not p.is_register; error = str "" }

abbrev button_text : Login → String
button_text p =
    if p.loading
    then "Authenticating..."
    else if p.is_register
    then "Create Platform Account"
    else "Sign In"

-- `err.response?.data?.k`: only an object has members.
unfoldable pub data_member : String → ApiError → Value
data_member k e = elim e.response [
  | none ↦ undefined
  | some (status, body) ↦ elim body [ json (obj fs) ↦ lookup_field k fs | _ ↦ undefined ]
]

-- `err.response?.status === n`
unfoldable pub has_status : ℕ → ApiError → Bool
has_status n e = elim e.response [ none ↦ false | some (status, body) ↦ status == n ]

-- `${err.response?.status || 500}`; a status is not 0.
unfoldable pub status_of : ApiError → String
status_of e = elim e.response [
  | none ↦ "500"
  | some (status, body) ↦ to_string 10 (if status == 0 then 500 else status)
]

abbrev pub network_text : String
network_text =
    "Network Error: Unable to reach the API server. Please check your internet connection."

abbrev pub gateway_text : ApiError → String
gateway_text e =
    "Gateway Error ("
    <> status_of e
    <> "): Dashboard proxy could not connect to Go backend. Please check"
    <> " NEXT_PUBLIC_API_URL in Railway (visit /api/health to inspect connection)."

abbrev is_missing : ApiError → Bool
is_missing e = elim e.response [ none ↦ true | some r ↦ false ]

-- The text in a template; `show` is `String(v)` of a value that is not a text.
abbrev pub text_of : (Value → String) → Value → String
text_of show (str s) = s
text_of show v = show v

-- What the handler shows for an error.
unfoldable pub error_value : (Value → String) → ApiError → Value
error_value show e =
    let detail = or_else (data_member "error" e) (data_member "message" e) in
    if truthy (data_member "error" e)
    then data_member "error" e
    else if e.code === "ERR_NETWORK" || is_missing e
    then str network_text
    else if has_status 500 e || (has_status 502 e || has_status 504 e)
    then (if truthy detail
        then str ("Backend Error (" <> status_of e <> "): " <> text_of show detail)
        else str (gateway_text e))
    else or_else (str e.message) (str "Authentication failed. Please check your credentials.")

-- What a read of a member of an empty body throws.
abbrev pub type_error : ApiError
type_error = record { response = none; code = ""; message = "Cannot read properties of null" }

-- What `res.data.token` is for the handler, where `show` is `String(v)` of a value that is not a text: the storage
-- holds that text, and the context the value.
abbrev pub token_of : (Value → String) → Value → Option String
token_of show undefined = none
token_of show (str s) = some s
token_of show v = some (show v)

-- `res.data.token` and `res.data.developer`, which throw on an empty body alone. A reply with a developer is a
-- `session`, as the endpoints give it with a token; any other object has no developer, and no other body has either.
abbrev pub credentials :
    (Value → String) → Body → Result ApiError (Option String × Option UserProfile)
credentials show (session token user) = ok (some token, some user)
credentials show (json undefined) = throw type_error
credentials show (json null) = throw type_error
credentials show (json (obj fs)) = ok (token_of show (lookup_field "token" fs), none)
credentials show _ = ok (none, none)

abbrev pub credentials_in :
    (Value → String) → Result ApiError Body → Result ApiError (Option String × Option UserProfile)
credentials_in show (ok body) = credentials show body
credentials_in show (throw e) = throw e

abbrev pub endpoint : Login → String
endpoint p = if p.is_register then "/dashboard/auth/register" else "/dashboard/auth/login"

abbrev pub login_body : Login → Value
login_body p =
    if p.is_register
    then obj (
        field "username" (str p.username)
          (field "email" (str p.email) (field "password" (str p.password) end)))
    else obj (field "username" (str p.username) (field "password" (str p.password) end))

abbrev pub started : Login → Login
started p = record p { loading = true; error = str "" }

abbrev pub accepted : Login → Login
accepted p = record p { pushed = some "/"; loading = false }

abbrev pub refused : Value → Login → Login
refused v p = record p { error = v; loading = false }

module _ (server : Server) (codec : ProfileCodec) (show : Value → String) where
  -- The end of the handler, by what the request came to.
  abbrev pub conclude :
      Result ApiError (Option String × Option UserProfile) → Page Login → Page Login
  conclude (ok (token, user)) (p, s) = (accepted p, Auth.login_with server codec token user s)
  conclude (throw e) (p, s) = (refused (error_value show e) p, s)

  unfoldable pub handle_submit : Page Login → Page Login
  handle_submit (p, s) =
      let (r, s') = request server post (endpoint p) (login_body p) (started p, s) in
      conclude (credentials_in show r) s'

  unfoldable press_login : (String → Bool) → Page Login → Page Login
  press_login is_email = press_submit (login_form is_email) (λ p. p.loading) handle_submit
