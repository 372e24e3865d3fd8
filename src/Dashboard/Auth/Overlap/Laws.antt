-- ===== src/Dashboard/Auth/Overlap/Laws.antt =====
-- The selected application stays the stored one however the refreshes overlap, and what a logout leaves undone.
use mathlib.Core.Path.{subst}
use volq_auth.Base.{
  ◌≡◌, refl, Bool, false, Option, none, some, List, [], ◌∷◌, String, Result, ok, throw, get_elem?,
  remove, Option-cases, inl, inr, arith,
}
use volq_auth.Base.Storage.{get_item, remove_item, get_item-set_item, get_item-remove_item}
use volq_auth.Base.Value.{undefined}
use volq_auth.Dashboard.Types.{Application, UserProfile}
use volq_auth.Dashboard.Api.{
  Browser, Body, ApiError, app_list, get, dispatched, token_key, user_key,
}
use volq_auth.Dashboard.Api.Laws.{on_error_storage}
use volq_auth.Dashboard.Auth.{
  Auth, Session, ProfileCodec, selected_key, restored, app_list_of, logout, store, set_selected_app,
}
use volq_auth.Dashboard.Auth.Selection.{IsStored, restored_sound, set_selected_app-IsStored}
use volq_auth.Dashboard.Auth.Overlap.{
  Refresh, Overlap, begin_refresh, begin_restore, begin_login, select_first, load_apps,
  receive_apps, end_refresh, Event, restoring, leaving, refreshing, logging_in, choosing, replied,
  step, run,
}

select_first-IsStored :
    (captured : Option Application) (apps : List Application) (s : Session)
    → IsStored s
    → IsStored (select_first captured apps s)
unfolding select_first
select_first-IsStored captured [] s h = h
select_first-IsStored none (a ∷ apps) (auth, b) h =
    ground (arith, get_item-set_item selected_key selected_key a.id b.storage)
select_first-IsStored (some old) (a ∷ apps) s h = h

load_apps-IsStored :
    (captured : Option Application) (apps : List Application) (s : Session)
    → IsStored s
    → IsStored (load_apps captured apps s)
unfolding load_apps
load_apps-IsStored captured apps (auth, b) h = elim (Option-cases (restored b apps)) [
  | inl e ↦ ground (arith, select_first-IsStored captured apps (record auth { apps = apps }, b) h)
  | inr (a, e) ↦ ground (arith, restored_sound b apps a e)
]

receive_apps-IsStored :
    (captured : Option Application) (result : Result ApiError Body) (s : Session)
    → IsStored s
    → IsStored (receive_apps captured result s)
unfolding receive_apps
receive_apps-IsStored captured (throw e) (auth, b) h =
    ground (arith, on_error_storage e b selected_key)
receive_apps-IsStored captured (ok body) s h = elim (Option-cases (app_list_of body)) [
  | inl shape ↦ ground arith
  | inr (apps, shape) ↦ ground (arith, load_apps-IsStored captured apps s h)
]

end_refresh-IsStored : (r : Refresh) (s : Session) → IsStored s → IsStored (end_refresh r s)
end_refresh-IsStored r (auth, b) h = ground arith

begin_login-IsStored :
    (codec : ProfileCodec) (token : String) (user : UserProfile) (o : Overlap)
    → IsStored o.session
    → IsStored (begin_login codec token user o).session
unfolding begin_login
begin_login-IsStored codec token user o h = ground (
  arith,
  get_item-set_item user_key selected_key (codec.print user)
      (store token_key token o.session.1).storage,
  get_item-set_item token_key selected_key token o.session.1.storage,
)

begin_restore-IsStored :
    (codec : ProfileCodec) (o : Overlap)
    → IsStored o.session
    → IsStored (begin_restore codec o).session
unfolding begin_restore
begin_restore-IsStored codec o h = ground arith

logout-IsStored : (s : Session) → IsStored (logout s)
unfolding logout
logout-IsStored (auth, b) = refl

step-IsStored :
    (codec : ProfileCodec) (e : Event) (o t : Overlap)
    → IsStored o.session
    → step codec e o ≡ some t
    → IsStored t.session
unfolding step
step-IsStored codec restoring o t h k =
    subst (λ u. IsStored u.session) {x = begin_restore codec o} {y = t} (ground arith)
      (begin_restore-IsStored codec o h)
step-IsStored codec leaving o t h k =
    subst (λ u. IsStored u.session) {x = record o { session = logout o.session }} {y = t}
      (ground arith) (logout-IsStored o.session)
step-IsStored codec refreshing o t h k =
    subst (λ u. IsStored u.session) {x = begin_refresh false o} {y = t} (ground arith) h
step-IsStored codec (logging_in token user) o t h k =
    subst (λ u. IsStored u.session) {x = begin_login codec token user o} {y = t} (ground arith)
      (begin_login-IsStored codec token user o h)
step-IsStored codec (choosing a) o t h k =
    subst (λ u. IsStored u.session) {x = record o { session = set_selected_app a o.session }}
      {y = t} (ground arith) (set_selected_app-IsStored a o.session)
step-IsStored codec (replied i result) o t h k = elim (Option-cases (get_elem? o.pending i)) [
  | inl none_there ↦ absurd (ground arith)
  | inr (r, e) ↦
      let settled = receive_apps r.captured result o.session in
      subst (λ u. IsStored u.session)
        {x = record { session = end_refresh r settled; pending = remove o.pending i }} {y = t}
        (ground arith)
        (end_refresh-IsStored r settled (receive_apps-IsStored r.captured result o.session h))
]

-- However the refreshes of the applications overlap with the logins, the logouts and the choices of an application,
-- and whatever the server answers and when, the id of the selected application, if there is one, stays the stored one.
pub run-IsStored :
    (codec : ProfileCodec) (es : List Event) (o t : Overlap)
    → IsStored o.session
    → run codec es o ≡ some t
    → IsStored t.session
unfolding run
run-IsStored codec [] o t h k = subst (λ u. IsStored u.session) {x = o} {y = t} (ground arith) h
run-IsStored codec (e ∷ es) o t h k = elim (Option-cases (step codec e o)) [
  | inl stuck ↦ absurd (ground arith)
  | inr (m, went) ↦ run-IsStored codec es m t (step-IsStored codec e o m h went) (ground arith)
]

-- A list that comes in where no id is stored and none was selected when it was asked for.
receive_apps-first :
    (a : Application) (apps : List Application) (auth : Auth) (b : Browser)
    (captured : Option Application)
    → captured ≡ none
    → get_item selected_key b.storage ≡ none
    → receive_apps captured (ok (app_list (a ∷ apps))) (auth, b)
      ≡ (record auth { apps = a ∷ apps; selected_app = some a }, store selected_key a.id b)
unfolding receive_apps load_apps select_first
receive_apps-first a apps auth b captured fresh empty = ground arith

logout-forgets : (s : Session) → get_item selected_key (logout s).1.storage ≡ none
unfolding logout
logout-forgets (auth, b) = ground (
  arith,
  get_item-remove_item selected_key selected_key
      (remove_item user_key (remove_item token_key b.storage)),
)

-- A logout does not stop a refresh under way: where no application was selected when it began, and the list comes in
-- after the logout with an application, that list is shown, its first application is selected and its id is stored,
-- though nobody is signed in.
pub logout_refreshed :
    (codec : ProfileCodec) (is_first : Bool) (a : Application) (apps : List Application)
    (auth : Auth) (b : Browser)
    → auth.selected_app ≡ none
    → (t : Overlap) × (run codec
          (leaving ∷ replied 0 (ok (app_list (a ∷ apps))) ∷ [])
          (begin_refresh is_first (record { session = (auth, b); pending = [] }))
        ≡ some t)
      × (t.session.0.user ≡ none)
      × (t.session.0.apps ≡ a ∷ apps)
      × (t.session.0.selected_app ≡ some a)
      × (get_item selected_key t.session.1.storage ≡ some a.id)
unfolding run step logout
logout_refreshed codec is_first a apps auth b fresh =
    let s = logout (auth, dispatched get "/dashboard/apps" undefined b) in
    let first =
      receive_apps-first a apps s.0 s.1 auth.selected_app fresh
        (logout-forgets (auth, dispatched get "/dashboard/apps" undefined b)) in
    let stored = get_item-set_item selected_key selected_key a.id s.1.storage in
    (
      _,
      refl,
      ground (arith, first),
      ground (arith, first),
      ground (arith, first),
      ground (arith, first, stored),
    )
