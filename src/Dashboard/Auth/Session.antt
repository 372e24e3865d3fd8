-- ===== src/Dashboard/Auth/Session.antt =====
-- Signing in, coming back, signing out.
use volq_auth.Base.{
  ◌≡◌, ◌≢◌, refl, true, false, none, some, List, [], ◌∷◌, String, is_empty, includes, Result-cases,
  Option-cases, Bool-cases, inl, inr, arith, eq_iff,
}
use volq_auth.Base.Storage.{
  get_item, set_item, remove_item, get_item-set_item, get_item-remove_item,
}
use volq_auth.Base.Value.{undefined}
use volq_auth.Dashboard.Types.{Application, UserProfile}
use volq_auth.Dashboard.Api.{
  Server, Browser, get, call, token_key, user_key, attach_token, is_unauthorized,
}
use volq_auth.Dashboard.Api.Laws.{call_session, expelled, answered}
use volq_auth.Dashboard.Auth.{
  Session, ProfileCodec, mounted, selected_key, select_first, load_apps, app_list_of, refresh_apps,
  restore_session, login, logout, store,
}

-- After a logout the storage holds no token, user or selection, the context none either, and the next
-- request carries no authorization.
pub logout_lem :
    (s : Session)
    → (get_item token_key (logout s).1.storage ≡ none)
      × (get_item user_key (logout s).1.storage ≡ none)
      × (get_item selected_key (logout s).1.storage ≡ none)
      × (attach_token (logout s).1 ≡ none)
      × ((logout s).0.token ≡ none)
      × ((logout s).0.user ≡ none)
      × ((logout s).0.selected_app ≡ none)
unfolding logout attach_token
logout_lem (auth, b) =
    let m1 = remove_item token_key b.storage in
    let m2 = remove_item user_key m1 in
    let gone_token : get_item token_key (remove_item selected_key m2) ≡ none = ground (
      arith,
      get_item-remove_item selected_key token_key m2,
      get_item-remove_item user_key token_key m1,
      get_item-remove_item token_key token_key b.storage,
    ) in
    (
      gone_token,
      ground (
        arith,
        get_item-remove_item selected_key user_key m2,
        get_item-remove_item user_key user_key m1,
      ),
      ground (arith, get_item-remove_item selected_key selected_key m2),
      ground (arith, gone_token),
      refl,
      refl,
      refl,
    )

select_first_user :
    (apps : List Application) (s : Session)
    → ((select_first apps s).0.token ≡ s.0.token) × ((select_first apps s).0.user ≡ s.0.user)
unfolding select_first
select_first_user [] s = (refl, refl)
select_first_user (a ∷ apps) (auth, b) = ground arith

load_apps_user :
    (apps : List Application) (s : Session)
    → ((load_apps apps s).0.token ≡ s.0.token) × ((load_apps apps s).0.user ≡ s.0.user)
unfolding load_apps
load_apps_user apps (auth, b) =
    ground (arith, select_first_user apps (record auth { apps = apps }, b))

-- Loading the applications leaves the token and the user of the context alone.
pub refresh_apps_user :
    (server : Server) (s : Session)
    → ((refresh_apps server s).0.token ≡ s.0.token) × ((refresh_apps server s).0.user ≡ s.0.user)
unfolding refresh_apps
refresh_apps_user server (auth, b) =
    let (result, b') = call server get "/dashboard/apps" undefined b in
    elim (Result-cases result) [
      | inl (body, e) ↦ elim (Option-cases (app_list_of body)) [
        | inl shape ↦ ground arith
        | inr (apps, shape) ↦ ground (arith, load_apps_user apps (auth, b'))
      ]
      | inr (x, e) ↦ ground arith
    ]

pub login_user :
    (server : Server) (codec : ProfileCodec) (token : String) (user : UserProfile) (s : Session)
    → ((login server codec token user s).0.token ≡ some token)
      × ((login server codec token user s).0.user ≡ some user)
unfolding login
login_user server codec token user (auth, b) = refresh_apps_user server (
  record auth { token = some token; user = some user },
  store user_key (codec.print user) (store token_key token b),
)

-- The storage after the applications are loaded, at any key but the one of the selection.
load_apps_storage :
    (key : String) (apps : List Application) (s : Session)
    → selected_key ≢ key
    → get_item key (load_apps apps s).1.storage ≡ get_item key s.1.storage
unfolding load_apps select_first
load_apps_storage key [] (auth, b) h = ground arith
load_apps_storage key (a ∷ apps) (auth, b) h =
    ground (arith, get_item-set_item selected_key key a.id b.storage, eq_iff selected_key key)

not_expelled :
    (server : Server) (b : Browser)
    → includes b.pathname "/login" ≡ true
    → expelled server get "/dashboard/apps" undefined b ≡ false
not_expelled server b at_login =
    elim (Result-cases (answered server get "/dashboard/apps" undefined b)) [
      | inl (a, e) ↦ ground arith
      | inr (x, e) ↦ elim (Bool-cases (is_unauthorized x)) [
        | inl u ↦ ground arith
        | inr u ↦ ground arith
      ]
    ]

refresh_apps_storage :
    (server : Server) (key : String) (s : Session)
    → includes s.1.pathname "/login" ≡ true
    → selected_key ≢ key
    → get_item key (refresh_apps server s).1.storage ≡ get_item key s.1.storage
unfolding refresh_apps
refresh_apps_storage server key (auth, b) at_login h =
    let (result, b') = call server get "/dashboard/apps" undefined b in
    let e0 = (call_session server get "/dashboard/apps" undefined b key).0 in
    let kept : get_item key b'.storage ≡ get_item key b.storage =
      ground (arith, e0, not_expelled server b at_login) in
    elim (Result-cases result) [
      | inl (body, e) ↦ elim (Option-cases (app_list_of body)) [
        | inl shape ↦ ground arith
        | inr (apps, shape) ↦ ground (arith, load_apps_storage key apps (auth, b') h)
      ]
      | inr (x, e) ↦ ground arith
    ]

-- A page that finds a token and a profile in the storage has them in its context.
restore_session_lem :
    (server : Server) (codec : ProfileCodec) (token stored : String) (user : UserProfile)
    (b : Browser)
    → get_item token_key b.storage ≡ some token
    → get_item user_key b.storage ≡ some stored
    → is_empty token ≡ false
    → is_empty stored ≡ false
    → codec.parse stored ≡ some user
    → let again = restore_session server codec (mounted, b) in
      (again.0.token ≡ some token) × (again.0.user ≡ some user) × (again.0.is_loading ≡ false)
unfolding restore_session
restore_session_lem server codec token stored user b et eu nt ns back =
    let (ht, hu) =
      refresh_apps_user server (record (mounted) { token = some token; user = some user }, b) in
    (ground (arith, ht), ground (arith, hu), ground arith)

-- A sign-in on the login page lasts: when the page is loaded anew over the storage that it left, the
-- context has the same token and the same user again, if the token and the printed profile are not empty
-- and the profile is parsed back.
pub restore_session-login :
    (server : Server) (codec : ProfileCodec) (token : String) (user : UserProfile) (s : Session)
    → includes s.1.pathname "/login" ≡ true
    → is_empty token ≡ false
    → is_empty (codec.print user) ≡ false
    → codec.parse (codec.print user) ≡ some user
    → let again = restore_session server codec (mounted, (login server codec token user s).1) in
      (again.0.token ≡ some token) × (again.0.user ≡ some user) × (again.0.is_loading ≡ false)
unfolding login
restore_session-login server codec token user (auth, b) at_login nt np back =
    let m1 = set_item token_key token b.storage in
    let b2 = store user_key (codec.print user) (store token_key token b) in
    let s2 : Session = (record auth { token = some token; user = some user }, b2) in
    restore_session_lem server codec token (codec.print user) user (refresh_apps server s2).1
      (ground (
        arith,
        refresh_apps_storage server token_key s2 at_login
            (ground (arith, eq_iff selected_key token_key)),
        get_item-set_item user_key token_key (codec.print user) m1,
        get_item-set_item token_key token_key token b.storage,
      ))
      (ground (
        arith,
        refresh_apps_storage server user_key s2 at_login
            (ground (arith, eq_iff selected_key user_key)),
        get_item-set_item user_key user_key (codec.print user) m1,
      ))
      nt np back
