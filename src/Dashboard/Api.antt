-- ===== src/Dashboard/Api.antt =====
-- frontend/src/lib/api.ts: the axios instance with its two interceptors, over a browser and a server.
pub mod Laws
use volq_auth.Base.{
  ℕ, ◌==◌, leb, ltb, Bool, true, false, not, ◌&&◌, Option, none, some, List, [], ◌∷◌, ◌++◌,
  if◌then◌else◌, String, ◌<>◌, is_empty, includes, Result, ok, throw, Action,
}
use volq_auth.Base.Storage.{Storage, get_item, remove_item}
use volq_auth.Base.Value.{Value, undefined, null, obj, lookup_field}
use volq_auth.Dashboard.Types.{
  Application, License, AppUser, Variable, FilePayload, Reseller, SecurityLog, UserProfile,
}

pub data Method : Type 0 where
  get post put delete : Method

-- A request as it goes out; `authorization` is the header that the first interceptor may set.
pub record ApiRequest : Type 0 where
  pub method : Method
  pub path : String
  pub body : Value
  pub authorization : Option String

-- The body of a reply, in the shapes that the pages read; `json` is any other one.
pub data Body : Type 0 where
  json : Value → Body
  app_list : List Application → Body
  license_page : Option (List License) → Option ℕ → Body
  user_page : Option (List AppUser) → Option ℕ → Body
  variable_list : List Variable → Body
  file_list : List FilePayload → Body
  reseller_list : List Reseller → Body
  log_list : List SecurityLog → Body
  session : String → UserProfile → Body
  key_list : Option (List String) → Body
  created_app : String → Body

-- What axios makes of a call: no response at all, or a response with its status.
pub data ApiReply : Type 0 where
  no_response : String → String → ApiReply
  responded : ℕ → Body → ApiReply

-- The error that axios rejects with: the response if there is one, a code and a message.
pub record ApiError : Type 0 where
  pub response : Option (ℕ × Body)
  pub code : String
  pub message : String

pub record Browser : Type 0 where
  pub has_window : Bool
  pub storage : Storage
  pub pathname : String
  pub href : Option String
  pub sent : List ApiRequest

-- The server, whose answer may depend on all that was sent, and axios's words for a status that it
-- rejects.
pub record Server : Type 0 where
  pub respond : List ApiRequest → ApiReply
  pub status_code : ℕ → String
  pub status_message : ℕ → String

abbrev pub token_key : String
token_key = "volq_token"

abbrev pub user_key : String
user_key = "volq_user"

-- the request interceptor
unfoldable pub attach_token : Browser → Option String
attach_token b =
    if b.has_window
    then elim (get_item token_key b.storage) [
      | none ↦ none
      | some token ↦ if is_empty token then none else some ("Bearer " <> token)
    ]
    else none

abbrev pub is_unauthorized : ApiError → Bool
is_unauthorized e = elim e.response [ none ↦ false | some (status, body) ↦ status == 401 ]

-- The guard of the redirect: a 401 in a window that is not on the login page.
abbrev pub expels : ApiError → Browser → Bool
expels e b = is_unauthorized e && (b.has_window && not (includes b.pathname "/login"))

-- the response interceptor, which rejects the error again
unfoldable pub on_error : ApiError → Browser → Browser
on_error e b =
    if expels e b
    then record b {
      storage = remove_item user_key (remove_item token_key b.storage);
      href = some "/login";
    }
    else b

-- `validateStatus`: axios resolves a status of 2xx and rejects any other.
abbrev pub resolves : ℕ → Bool
resolves status = leb 200 status && ltb status 300

abbrev pub outcome : Server → ApiReply → Result ApiError Body
outcome server (no_response code message) =
    throw (record { response = none; code = code; message = message })
outcome server (responded status body) =
    if resolves status
    then ok body
    else throw (record {
      response = some (status, body);
      code = server.status_code status;
      message = server.status_message status;
    })

-- The request as it is sent from a browser.
abbrev pub outgoing : Method → String → Value → Browser → ApiRequest
outgoing method path body b = record {
  method = method;
  path = path;
  body = body;
  authorization = attach_token b;
}

abbrev pub dispatched : Method → String → Value → Browser → Browser
dispatched method path body b = record b { sent = b.sent ++ outgoing method path body b ∷ [] }

-- One call through both interceptors.
unfoldable pub call : Server → Method → String → Value → Action Browser ApiError Body
call server method path body b =
    let b' = dispatched method path body b in
    elim (outcome server (server.respond b'.sent)) [
      | ok answer ↦ (ok answer, b')
      | throw e ↦ (throw e, on_error e b')
    ]
