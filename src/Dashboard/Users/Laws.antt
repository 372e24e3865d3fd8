-- ===== src/Dashboard/Users/Laws.antt =====
-- The users page, whatever happens on it.
use volq_auth.Base.{Bool, true, false, List, String, append_text}
use volq_auth.Base.Value.{undefined}
use volq_auth.Dashboard.Types.{Application, AppUser}
use volq_auth.Dashboard.Api.{Server, ApiRequest, put, delete}
use volq_auth.Dashboard.Page.{Page, edit}
use volq_auth.Dashboard.Page.Laws.{
  InApp, under_path, under_deep, fetch-InApp, revise-InApp, with_app-InApp,
}
use volq_auth.Dashboard.Users.{
  Users, receive, set_loading, list_path, ban_body, load, fetch_users, toggle_ban, delete_user,
  Event, handle, shown, searched, toggled, deleted,
}

module _ (server : Server) (a : Application) (old : List ApiRequest) where
  pub fetch_users-InApp : (s : Page Users) → InApp a old s → InApp a old (fetch_users server s)
  unfolding fetch_users load
  fetch_users-InApp s h =
      with_app-InApp server a old _ s
        (fetch-InApp server a old receive (list_path a s.0) (edit (set_loading true) s)
          (under_path a "users?search=" _) h)
        h

  toggle_ban-InApp :
      (u : AppUser) (s : Page Users) → InApp a old s → InApp a old (toggle_ban server u s)
  unfolding toggle_ban
  toggle_ban-InApp u s h =
      revise-InApp server a old put _ (ban_body u) (fetch_users server) s fetch_users-InApp
        (rw (h.0, append_text) (under_deep a "users/" _ _)) h

  delete_user-InApp :
      (confirmed : Bool) (id : String) (s : Page Users)
      → InApp a old s
      → InApp a old (delete_user server confirmed id s)
  unfolding delete_user
  delete_user-InApp false id s h = h
  delete_user-InApp true id s h =
      revise-InApp server a old delete _ undefined (fetch_users server) s fetch_users-InApp
        (rw h.0 (under_path a "users/" _)) h

  pub handle-InApp : (e : Event) (s : Page Users) → InApp a old s → InApp a old (handle server e s)
  unfolding handle
  handle-InApp shown s h = fetch_users-InApp s h
  handle-InApp (searched text) s h = fetch_users-InApp (edit (λ p. record p { search = text }) s) h
  handle-InApp (toggled u) s h = toggle_ban-InApp u s h
  handle-InApp (deleted confirmed id) s h = delete_user-InApp confirmed id s h
