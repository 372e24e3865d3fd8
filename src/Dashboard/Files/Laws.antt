-- ===== src/Dashboard/Files/Laws.antt =====
-- The files page, whatever happens on it.
use volq_auth.Base.{Bool, true, false, List, String, append_text}
use volq_auth.Base.Value.{undefined}
use volq_auth.Dashboard.Types.{Application}
use volq_auth.Dashboard.Api.{Server, ApiRequest, post, delete}
use volq_auth.Dashboard.Page.{Page, edit}
use volq_auth.Dashboard.Page.Laws.{
  InApp, under_path, under_leaf, fetch-InApp, revise-InApp, with_app-InApp,
}
use volq_auth.Dashboard.Form.Laws.{press_submit-keeps}
use volq_auth.Dashboard.Files.{
  Files, receive, set_loading, close_form, file_body, fetch_files, create_in, create_file,
  delete_file, Event, handle, shown, created, deleted, entered, form_shown, file_form,
}

module _ (server : Server) (a : Application) (old : List ApiRequest) where
  pub fetch_files-InApp : (s : Page Files) → InApp a old s → InApp a old (fetch_files server s)
  unfolding fetch_files
  fetch_files-InApp s h =
      with_app-InApp server a old _ s
        (fetch-InApp server a old receive _ s (under_leaf a "files") h) h

  create_file-InApp : (s : Page Files) → InApp a old s → InApp a old (create_file server s)
  unfolding create_file create_in
  create_file-InApp s h =
      with_app-InApp server a old (create_in server) s
        (revise-InApp server a old post _ (file_body s.0)
          (λ t. fetch_files server (edit close_form t)) (edit (set_loading true) s)
          (λ t k. fetch_files-InApp (edit close_form t) k) (under_leaf a "files") h)
        h

  delete_file-InApp :
      (confirmed : Bool) (id : String) (s : Page Files)
      → InApp a old s
      → InApp a old (delete_file server confirmed id s)
  unfolding delete_file
  delete_file-InApp false id s h = h
  delete_file-InApp true id s h =
      revise-InApp server a old delete _ undefined (fetch_files server) s fetch_files-InApp
        (rw (h.0, append_text) (under_path a "files" _)) h

  pub handle-InApp : (e : Event) (s : Page Files) → InApp a old s → InApp a old (handle server e s)
  unfolding handle
  handle-InApp shown s h = fetch_files-InApp s h
  handle-InApp created s h =
      press_submit-keeps file_form (λ p. p.loading) (create_file server) (InApp a old) s h
        (create_file-InApp s h)
  handle-InApp (deleted confirmed id) s h = delete_file-InApp confirmed id s h
  handle-InApp (entered i e) s h = h
  handle-InApp (form_shown b) s h = h
