-- ===== src/Dashboard/Apps/Laws.antt =====
-- The pages of the applications and of the webhook.
use volq_auth.Base.{
  ◌≡◌, Bool, true, false, none, some, List, [], ◌∷◌, find, String, ◌<>◌, Result, ok, throw, arith,
}
use volq_auth.Base.Value.{Value, undefined}
use volq_auth.Dashboard.Types.{Application}
use volq_auth.Dashboard.Api.{
  Method, Server, Browser, Body, ApiError, app_list, get, put, delete, call,
}
use volq_auth.Dashboard.Api.Laws.{answered, call_outcome}
use volq_auth.Dashboard.Auth.{Auth, has_id}
use volq_auth.Dashboard.Auth.Selection.{
  IsStored, call_selected, refresh_apps-IsStored, set_selected_app-IsStored, refresh_apps_stale,
}
use volq_auth.Dashboard.Page.{Page, request, on_ok, revise}
use volq_auth.Dashboard.Apps.{
  Event, toggled, selected, deleted, run_apps, toggle_pause_app, delete_app, select_app, reload,
}

module _ {P : Type 0} (server : Server) where
  request-IsStored :
      (method : Method) (path : String) (body : Value) (s : Page P)
      → IsStored s.1
      → IsStored (request server method path body s).1.1
  unfolding request
  request-IsStored method path body (p, (auth, b)) h =
      ground (arith, call_selected server method path body b)

  reload_after :
      (o : Result ApiError Body × Page P)
      → IsStored o.1.1
      → IsStored (on_ok (λ body. reload server) o).1
  reload_after (ok body, (p, s)) h = refresh_apps-IsStored server s h
  reload_after (throw e, s) h = h

  revise-IsStored :
      (method : Method) (path : String) (body : Value) (s : Page P)
      → IsStored s.1
      → IsStored (revise server method path body (reload server) s).1
  unfolding revise
  revise-IsStored method path body s h =
      reload_after (request server method path body s) (request-IsStored method path body s h)

  delete_app-IsStored :
      (confirmed : Bool) (id : String) (s : Page P)
      → IsStored s.1
      → IsStored (delete_app server confirmed id s).1
  unfolding delete_app
  delete_app-IsStored true id s h = revise-IsStored delete _ undefined s h
  delete_app-IsStored false id s h = h

  toggle_pause_app-IsStored :
      (a : Application) (s : Page P) → IsStored s.1 → IsStored (toggle_pause_app server a s).1
  unfolding toggle_pause_app
  toggle_pause_app-IsStored a s h = revise-IsStored put _ _ s h

  select_app-IsStored : (a : Application) (s : Page P) → IsStored (select_app a s).1
  unfolding select_app
  select_app-IsStored a (p, s) = set_selected_app-IsStored (some a) s

  -- Whatever is done with the applications of the table and whatever the server answers, the id of the
  -- application that is selected, if one is, is the stored one.
  pub run_apps-IsStored :
      (es : List Event) (s : Page P) → IsStored s.1 → IsStored (run_apps server es s).1
  unfolding run_apps
  run_apps-IsStored [] s h = h
  run_apps-IsStored (toggled a ∷ es) s h =
      run_apps-IsStored es (toggle_pause_app server a s) (toggle_pause_app-IsStored a s h)
  run_apps-IsStored (selected a ∷ es) s h =
      run_apps-IsStored es (select_app a s) (select_app-IsStored a s)
  run_apps-IsStored (deleted confirmed id ∷ es) s h =
      run_apps-IsStored es (delete_app server confirmed id s) (delete_app-IsStored confirmed id s h)

-- The browser after the request that deletes the application of an id.
abbrev pub after_delete : Server → String → Browser → Browser
after_delete server id b = (call server delete ("/dashboard/apps/" <> id) undefined b).1

-- The deletion of the selected application, accepted by the server and followed by a list without it,
-- leaves it selected.
delete_app_stale :
    {P : Type 0} (server : Server) (p : P) (auth : Auth) (b : Browser) (old : Application)
    (body : Body) (apps : List Application)
    → IsStored (auth, b)
    → auth.selected_app ≡ some old
    → answered server delete ("/dashboard/apps/" <> old.id) undefined b ≡ ok body
    → answered server get "/dashboard/apps" undefined (after_delete server old.id b)
      ≡ ok (app_list apps)
    → find (has_id old.id) apps ≡ none
    → let t = delete_app server true old.id (p, (auth, b)) in
      (t.1.0.selected_app ≡ some old) × (t.1.0.apps ≡ apps)
unfolding delete_app revise request
delete_app_stale server p auth b old body apps h sel gone listed missing =
    let b' = after_delete server old.id b in
    let kept : IsStored (auth, b') =
      ground (arith, call_selected server delete ("/dashboard/apps/" <> old.id) undefined b) in
    rw ((call_outcome server delete ("/dashboard/apps/" <> old.id) undefined b).0, gone)
      (refresh_apps_stale server apps auth b' old kept sel listed missing)
