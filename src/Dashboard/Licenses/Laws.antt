-- ===== src/Dashboard/Licenses/Laws.antt =====
-- The licenses page, whatever happens on it.
use volq_auth.Base.{
  ℕ, ◌≡◌, refl, Bool, true, false, some, or_default, List, [], String, ◌<>◌, starts_with,
  append_text, ok, throw, Result,
}
use volq_auth.Base.Value.{undefined, null, bool, num, str, arr, obj}
use volq_auth.Dashboard.Types.{Application, License, Status}
use volq_auth.Dashboard.Api.{
  Server, ApiRequest, Browser, Body, ApiError, license_page, json, app_list, user_page,
  variable_list, file_list, reseller_list, log_list, session, key_list, created_app, get, put,
  delete, call,
}
use volq_auth.Dashboard.Api.Laws.{answered, call_outcome}
use volq_auth.Dashboard.Auth.{Auth, Session}
use volq_auth.Dashboard.Page.{Page, app_path, edit, fetch, request, on_ok}
use volq_auth.Dashboard.Page.Laws.{
  InApp, under_path, under_deep, with_app_of, fetch-InApp, revise-InApp, with_app-InApp,
}
use volq_auth.Dashboard.Licenses.{
  Licenses, receive, set_loading, load, list_path, license_path, status_body, fetch_licenses,
  reset_hwid, update_status, delete_license, copy_key, copy_expired, export_csv, Event, handle,
  shown, copied_long_ago, exported, filtered, searched, copied, reset, deleted, updated, modal,
}

module _ (server : Server) (a : Application) (old : List ApiRequest) where
  pub fetch_licenses-InApp :
      (s : Page Licenses) → InApp a old s → InApp a old (fetch_licenses server s)
  unfolding fetch_licenses load
  fetch_licenses-InApp s h =
      with_app-InApp server a old _ s
        (fetch-InApp server a old receive (list_path a s.0) (edit (set_loading true) s)
          (under_path a "licenses?status=" _) h)
        h

  under_license :
      (s : Page Licenses) (id rest : String)
      → InApp a old s
      → starts_with (license_path s.1.0.selected_app id <> rest) (app_path (some a) <> "/") ≡ true
  under_license s id rest h = rw (h.0, append_text) (under_deep a "licenses/" _ _)

  reset_hwid-InApp :
      (confirmed : Bool) (id : String) (s : Page Licenses)
      → InApp a old s
      → InApp a old (reset_hwid server confirmed id s)
  unfolding reset_hwid
  reset_hwid-InApp false id s h = h
  reset_hwid-InApp true id s h =
      revise-InApp server a old put _ undefined (fetch_licenses server) s fetch_licenses-InApp
        (under_license s id "/reset-hwid" h) h

  update_status-InApp :
      (id : String) (status : Status) (s : Page Licenses)
      → InApp a old s
      → InApp a old (update_status server id status s)
  unfolding update_status
  update_status-InApp id status s h =
      revise-InApp server a old put _ (status_body status) (fetch_licenses server) s
        fetch_licenses-InApp (under_license s id "/status" h) h

  delete_license-InApp :
      (confirmed : Bool) (id : String) (s : Page Licenses)
      → InApp a old s
      → InApp a old (delete_license server confirmed id s)
  unfolding delete_license
  delete_license-InApp false id s h = h
  delete_license-InApp true id s h =
      revise-InApp server a old delete _ undefined (fetch_licenses server) s fetch_licenses-InApp
        (rw h.0 (under_path a "licenses/" _)) h

  export_csv-InApp :
      (base_url : String) (s : Page Licenses) → InApp a old s → InApp a old (export_csv base_url s)
  unfolding export_csv
  export_csv-InApp base_url s h = with_app-InApp server a old _ s h h

  pub handle-InApp :
      (base_url : String) (e : Event) (s : Page Licenses)
      → InApp a old s
      → InApp a old (handle server base_url e s)
  unfolding handle copy_key copy_expired
  handle-InApp base_url shown s h = fetch_licenses-InApp s h
  handle-InApp base_url copied_long_ago s h = h
  handle-InApp base_url exported s h = export_csv-InApp base_url s h
  handle-InApp base_url (filtered status) s h =
      fetch_licenses-InApp (edit (λ p. record p { status_filter = status }) s) h
  handle-InApp base_url (searched text) s h =
      fetch_licenses-InApp (edit (λ p. record p { search = text }) s) h
  handle-InApp base_url (copied key) s h = h
  handle-InApp base_url (reset confirmed id) s h = reset_hwid-InApp confirmed id s h
  handle-InApp base_url (deleted confirmed id) s h = delete_license-InApp confirmed id s h
  handle-InApp base_url (updated id status) s h = update_status-InApp id status s h
  handle-InApp base_url (modal shows) s h = h

-- What a load of the list comes to: the reply's list and count if it has them; none and 0 for a reply of
-- another shape; and the old ones after an error, or after an empty body.
abbrev pub loaded : Result ApiError Body → Licenses → List License × ℕ
loaded (ok (license_page licenses total)) p = (or_default licenses [], or_default total 0)
loaded (ok (user_page users total)) p = ([], or_default total 0)
loaded (ok (json undefined)) p = (p.licenses, p.total)
loaded (ok (json null)) p = (p.licenses, p.total)
loaded (ok _) p = ([], 0)
loaded (throw e) p = (p.licenses, p.total)

loaded_by :
    (r : Result ApiError Body) (p : Licenses) (s : Session)
    → let q = (on_ok (λ body. edit (receive body)) (r, (set_loading true p, s))).0 in
      (q.licenses, q.total) ≡ loaded r p
loaded_by (ok (license_page licenses total)) p s = refl
loaded_by (ok (json undefined)) p s = refl
loaded_by (ok (json null)) p s = refl
loaded_by (ok (json (bool b))) p s = refl
loaded_by (ok (json (num n))) p s = refl
loaded_by (ok (json (str t))) p s = refl
loaded_by (ok (json (arr xs))) p s = refl
loaded_by (ok (json (obj fs))) p s = refl
loaded_by (ok (app_list xs)) p s = refl
loaded_by (ok (user_page xs n)) p s = refl
loaded_by (ok (variable_list xs)) p s = refl
loaded_by (ok (file_list xs)) p s = refl
loaded_by (ok (reseller_list xs)) p s = refl
loaded_by (ok (log_list xs)) p s = refl
loaded_by (ok (session token user)) p s = refl
loaded_by (ok (key_list ks)) p s = refl
loaded_by (ok (created_app secret)) p s = refl
loaded_by (throw e) p s = refl

load_lem :
    (server : Server) (a : Application) (p : Licenses) (auth : Auth) (b : Browser)
    → let q = (load server a (p, (auth, b))).0 in
      (q.loading ≡ false)
      × ((q.licenses, q.total) ≡ loaded (answered server get (list_path a p) undefined b) p)
unfolding load fetch request
load_lem server a p auth b =
    let path = list_path a p in
    (
      refl,
      rw (← (call_outcome server get path undefined b).0) (
          loaded_by (call server get path undefined b).0 p
            (auth, (call server get path undefined b).1)),
    )

-- With an application selected, a load always ends with the list no longer loading, and with the list and
-- the count that the one request's outcome makes of the old ones.
pub fetch_licenses_lem :
    (server : Server) (a : Application) (p : Licenses) (auth : Auth) (b : Browser)
    → auth.selected_app ≡ some a
    → let q = (fetch_licenses server (p, (auth, b))).0 in
      (q.loading ≡ false)
      × ((q.licenses, q.total) ≡ loaded (answered server get (list_path a p) undefined b) p)
unfolding fetch_licenses
fetch_licenses_lem server a p auth b h =
    rw (with_app_of (load server) (p, (auth, b)) a h) (load_lem server a p auth b)
