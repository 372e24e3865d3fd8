-- ===== src/Dashboard/Auth.antt =====
-- frontend/src/lib/authContext.tsx: the session of the dashboard and the selected application.
pub mod Selection
pub mod Session
pub mod Overlap
use volq_auth.Base.{
  Bool, true, false, Option, none, some, List, [], ◌∷◌, find, or_default, if◌then◌else◌, String,
  ◌===◌, is_empty, ok, throw,
}
use volq_auth.Base.Storage.{Storage, get_item, set_item, remove_item}
use volq_auth.Base.Value.{undefined}
use volq_auth.Dashboard.Types.{Application, UserProfile}
use volq_auth.Dashboard.Api.{Server, Browser, Body, json, app_list, get, call, token_key, user_key}

pub record Auth : Type 0 where
  pub user : Option UserProfile
  pub token : Option String
  pub apps : List Application
  pub selected_app : Option Application
  pub is_loading : Bool

abbrev pub selected_key : String
selected_key = "volq_selected_app_id"

-- `JSON.stringify` and `JSON.parse` at the stored profile; `none` is an exception.
pub record ProfileCodec : Type 0 where
  pub print : UserProfile → String
  pub parse : String → Option UserProfile

abbrev pub mounted : Auth
mounted = record { user = none; token = none; apps = []; selected_app = none; is_loading = true }

abbrev pub Session : Type 0
Session = Auth × Browser

abbrev pub store : String → String → Browser → Browser
store key v b = record b { storage = set_item key v b.storage }

abbrev pub forget : String → Browser → Browser
forget key b = record b { storage = remove_item key b.storage }

abbrev pub has_id : String → Application → Bool
has_id id a = a.id === id

-- The application whose id is stored, if a text that is not empty is stored and the list has it.
abbrev pub restored : Browser → List Application → Option Application
restored b apps = elim (get_item selected_key b.storage) [
  | none ↦ none
  | some id ↦ if is_empty id then none else find (has_id id) apps
]

-- The first application becomes the selected one where none is selected.
unfoldable pub select_first : List Application → Session → Session
select_first [] s = s
select_first (a ∷ apps) (auth, b) = elim auth.selected_app [
  | none ↦ (record auth { selected_app = some a }, store selected_key a.id b)
  | some old ↦ (auth, b)
]

-- The part of `refreshApps` after the reply.
unfoldable pub load_apps : List Application → Session → Session
load_apps apps (auth, b) = elim (restored b apps) [
  | some a ↦ (record auth { apps = apps; selected_app = some a }, b)
  | none ↦ select_first apps (record auth { apps = apps }, b)
]

-- The list in the body of a reply. The endpoint answers with a list, an empty one where there are no applications; what
-- the source does with a body of another shape, which it puts into the state before it reads it, is not modelled, and here
-- such a body changes nothing.
abbrev pub app_list_of : Body → Option (List Application)
app_list_of (app_list apps) = some apps
app_list_of _ = none

abbrev pub stored_user : ProfileCodec → Option UserProfile → String
stored_user codec none = "undefined"
stored_user codec (some user) = codec.print user

module _ (server : Server) where
  unfoldable pub refresh_apps : Session → Session
  refresh_apps (auth, b) =
      let (result, b') = call server get "/dashboard/apps" undefined b in
      elim result [
        | throw e ↦ (auth, b')
        | ok body ↦ elim (app_list_of body) [
          | none ↦ (auth, b')
          | some apps ↦ load_apps apps (auth, b')
        ]
      ]

  -- The effect after the first render. An exception of `JSON.parse` ends it with the token set.
  unfoldable pub restore_session : ProfileCodec → Session → Session
  restore_session codec (auth, b) =
      let idle : Session = (record auth { is_loading = false }, b) in
      elim (get_item token_key b.storage) [
        | none ↦ idle
        | some token ↦ elim (get_item user_key b.storage) [
          | none ↦ idle
          | some stored ↦
              if is_empty token
              then idle
              else if is_empty stored
              then idle
              else elim (codec.parse stored) [
                | none ↦ (record auth { token = some token }, b)
                | some user ↦
                    let (auth', b') =
                      refresh_apps (record auth { token = some token; user = some user }, b) in
                    (record auth' { is_loading = false }, b')
              ]
        ]
      ]

  -- `login`, whose arguments may be `undefined`, which is stored as that word.
  abbrev pub login_with : ProfileCodec → Option String → Option UserProfile → Session → Session
  login_with codec token user (auth, b) = refresh_apps (
    record auth { token = token; user = user },
    store user_key (stored_user codec user) (store token_key (or_default token "undefined") b),
  )

  unfoldable pub login : ProfileCodec → String → UserProfile → Session → Session
  login codec token user = login_with codec (some token) (some user)

-- `handleSetSelectedApp`
unfoldable pub set_selected_app : Option Application → Session → Session
set_selected_app none (auth, b) = (record auth { selected_app = none }, forget selected_key b)
set_selected_app (some a) (auth, b) =
    (record auth { selected_app = some a }, store selected_key a.id b)

unfoldable pub logout : Session → Session
logout (auth, b) = (
  record auth { token = none; user = none; apps = []; selected_app = none },
  record (forget selected_key (forget user_key (forget token_key b))) { href = some "/login" },
)
