-- ===== src/Dashboard/Auth/Selection.antt =====
-- The selected application and its id in the storage.
use volq_auth.Base.{
  ◌≡◌, refl, Option, none, some, List, [], ◌∷◌, find, find_sound, String, ok, Result-cases,
  Option-cases, inl, inr, arith, eq_iff,
}
use volq_auth.Base.Storage.{Storage, get_item, get_item-set_item}
use volq_auth.Base.Value.{Value, undefined}
use volq_auth.Dashboard.Types.{Application, UserProfile}
use volq_auth.Dashboard.Api.{Method, Server, Browser, app_list, get, call, token_key, user_key}
use volq_auth.Dashboard.Api.Laws.{answered, call_outcome, call_session}
use volq_auth.Dashboard.Auth.{
  Auth, Session, ProfileCodec, selected_key, has_id, restored, select_first, load_apps, app_list_of,
  refresh_apps, restore_session, login, set_selected_app, logout, store,
}

abbrev selected_id : Option Application → Option String
selected_id none = none
selected_id (some a) = some a.id

abbrev backing : Option Application → Storage → Option String
backing none m = none
backing (some a) m = get_item selected_key m

-- If an application is selected, its id is the stored one.
abbrev pub IsStored : Session → Type 0
IsStored (auth, b) = selected_id auth.selected_app ≡ backing auth.selected_app b.storage

pub call_selected :
    (server : Server) (method : Method) (path : String) (body : Value) (b : Browser)
    → get_item selected_key (call server method path body b).1.storage
      ≡ get_item selected_key b.storage
call_selected server method path body b =
    ground (arith, (call_session server method path body b selected_key).0)

pub restored_sound :
    (b : Browser) (apps : List Application) (a : Application)
    → restored b apps ≡ some a
    → get_item selected_key b.storage ≡ some a.id
restored_sound b apps a h = elim (Option-cases (get_item selected_key b.storage)) [
  | inl e ↦ ground arith
  | inr (id, e) ↦ ground (arith, find_sound (has_id id) apps a, eq_iff a.id id)
]

select_first-IsStored :
    (apps : List Application) (s : Session) → IsStored s → IsStored (select_first apps s)
unfolding select_first
select_first-IsStored [] s h = h
select_first-IsStored (a ∷ apps) (auth, b) h =
    ground (arith, get_item-set_item selected_key selected_key a.id b.storage)

load_apps-IsStored :
    (apps : List Application) (s : Session) → IsStored s → IsStored (load_apps apps s)
unfolding load_apps
load_apps-IsStored apps (auth, b) h = elim (Option-cases (restored b apps)) [
  | inl e ↦ ground (arith, select_first-IsStored apps (record auth { apps = apps }, b) h)
  | inr (a, e) ↦ ground (arith, restored_sound b apps a e)
]

kept_by_call :
    (server : Server) (auth : Auth) (b : Browser)
    → IsStored (auth, b)
    → IsStored (auth, (call server get "/dashboard/apps" undefined b).1)
kept_by_call server auth b h =
    ground (arith, call_selected server get "/dashboard/apps" undefined b)

pub refresh_apps-IsStored :
    (server : Server) (s : Session) → IsStored s → IsStored (refresh_apps server s)
unfolding refresh_apps
refresh_apps-IsStored server (auth, b) h =
    let (result, b') = call server get "/dashboard/apps" undefined b in
    let kept : IsStored (auth, b') = kept_by_call server auth b h in
    elim (Result-cases result) [
      | inl (body, e) ↦ elim (Option-cases (app_list_of body)) [
        | inl shape ↦ ground arith
        | inr (apps, shape) ↦ ground (arith, load_apps-IsStored apps (auth, b') kept)
      ]
      | inr (x, e) ↦ ground arith
    ]

pub set_selected_app-IsStored :
    (o : Option Application) (s : Session) → IsStored (set_selected_app o s)
unfolding set_selected_app
set_selected_app-IsStored none (auth, b) = refl
set_selected_app-IsStored (some a) (auth, b) =
    ground (arith, get_item-set_item selected_key selected_key a.id b.storage)

login-IsStored :
    (server : Server) (codec : ProfileCodec) (token : String) (user : UserProfile) (s : Session)
    → IsStored s
    → IsStored (login server codec token user s)
unfolding login
login-IsStored server codec token user (auth, b) h =
    let b1 = store token_key token b in
    let b2 = store user_key (codec.print user) b1 in
    refresh_apps-IsStored server (record auth { token = some token; user = some user }, b2)
      (ground (
        arith,
        get_item-set_item user_key selected_key (codec.print user) b1.storage,
        get_item-set_item token_key selected_key token b.storage,
      ))

restore_session-IsStored :
    (server : Server) (codec : ProfileCodec) (s : Session)
    → IsStored s
    → IsStored (restore_session server codec s)
unfolding restore_session
restore_session-IsStored server codec (auth, b) h =
    elim (Option-cases (get_item token_key b.storage)) [
      | inl e ↦ ground arith
      | inr (token, e) ↦ elim (Option-cases (get_item user_key b.storage)) [
        | inl e' ↦ ground arith
        | inr (stored, e') ↦ elim (Option-cases (codec.parse stored)) [
          | inl bad ↦ ground arith
          | inr (user, good) ↦ ground (
            arith,
            refresh_apps-IsStored server (record auth { token = some token; user = some user }, b)
                h,
          )
        ]
      ]
    ]

logout-IsStored : (s : Session) → IsStored (logout s)
unfolding logout
logout-IsStored (auth, b) = refl

-- What the dashboard can do to its session.
pub data Event : Type 0 where
  refreshed restored_session logged_out : Event
  logged_in : String → UserProfile → Event
  chosen : Option Application → Event

pub handle : Server → ProfileCodec → Event → Session → Session
handle server codec refreshed s = refresh_apps server s
handle server codec restored_session s = restore_session server codec s
handle server codec logged_out s = logout s
handle server codec (logged_in token user) s = login server codec token user s
handle server codec (chosen o) s = set_selected_app o s

pub handle_all : Server → ProfileCodec → List Event → Session → Session
handle_all server codec [] s = s
handle_all server codec (e ∷ es) s = handle_all server codec es (handle server codec e s)

handle-IsStored :
    (server : Server) (codec : ProfileCodec) (e : Event) (s : Session)
    → IsStored s
    → IsStored (handle server codec e s)
unfolding handle
handle-IsStored server codec refreshed s h = refresh_apps-IsStored server s h
handle-IsStored server codec restored_session s h = restore_session-IsStored server codec s h
handle-IsStored server codec logged_out s h = logout-IsStored s
handle-IsStored server codec (logged_in token user) s h = login-IsStored server codec token user s h
handle-IsStored server codec (chosen o) s h = set_selected_app-IsStored o s

-- From the first render on, whatever the dashboard does to its session and whatever the server answers,
-- the id of the application that is selected, if one is, is the stored one.
handle_all-IsStored :
    (server : Server) (codec : ProfileCodec) (es : List Event) (s : Session)
    → IsStored s
    → IsStored (handle_all server codec es s)
unfolding handle_all
handle_all-IsStored server codec [] s h = h
handle_all-IsStored server codec (e ∷ es) s h =
    handle_all-IsStored server codec es (handle server codec e s)
      (handle-IsStored server codec e s h)

-- An application that is selected and is not in a new list of applications, as after its deletion, stays
-- selected, and stays stored.
load_apps_stale :
    (apps : List Application) (auth : Auth) (b : Browser) (old : Application)
    → IsStored (auth, b)
    → auth.selected_app ≡ some old
    → find (has_id old.id) apps ≡ none
    → ((load_apps apps (auth, b)).0.selected_app ≡ some old)
      × ((load_apps apps (auth, b)).0.apps ≡ apps)
      × ((load_apps apps (auth, b)).1 ≡ b)
unfolding load_apps select_first
load_apps_stale [] auth b old h sel gone = ground arith
load_apps_stale (a ∷ apps) auth b old h sel gone = ground arith

-- The same, loaded from the server.
pub refresh_apps_stale :
    (server : Server) (apps : List Application) (auth : Auth) (b : Browser) (old : Application)
    → IsStored (auth, b)
    → auth.selected_app ≡ some old
    → answered server get "/dashboard/apps" undefined b ≡ ok (app_list apps)
    → find (has_id old.id) apps ≡ none
    → ((refresh_apps server (auth, b)).0.selected_app ≡ some old)
      × ((refresh_apps server (auth, b)).0.apps ≡ apps)
unfolding refresh_apps
refresh_apps_stale server apps auth b old h sel listed missing =
    let b' = (call server get "/dashboard/apps" undefined b).1 in
    let (kept, new, same) =
      load_apps_stale apps auth b' old (kept_by_call server auth b h) sel missing in
    let came = (call_outcome server get "/dashboard/apps" undefined b).0 in
    (ground (arith, came, kept), ground (arith, came, new))
