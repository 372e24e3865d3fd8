-- ===== src/Dashboard/Variables/Laws.antt =====
-- The variables page, whatever happens on it.
use volq_auth.Base.{
  ◌≡◌, refl, Bool, true, false, not, List, [], ◌∷◌, if◌then◌else◌, String, ◌===◌, append_text,
  eq_iff, arith,
}
use volq_auth.Base.Value.{undefined}
use volq_auth.Dashboard.Types.{Application, Variable}
use volq_auth.Dashboard.Api.{Server, ApiRequest, post, delete}
use volq_auth.Dashboard.Page.{Page, edit}
use volq_auth.Dashboard.Page.Laws.{
  InApp, under_path, under_leaf, fetch-InApp, revise-InApp, with_app-InApp,
}
use volq_auth.Dashboard.Form.Laws.{press_submit-keeps}
use volq_auth.Dashboard.Variables.{
  Variables, Flags, flag, set_flag, receive, set_loading, close_form, variable_body,
  fetch_variables, save_in, save_variable, delete_variable, toggle_reveal, shown_value, Event,
  handle, shown, saved, deleted, revealed_or_hidden, entered, form_shown, variable_form,
}

flag-set_flag :
    (id j : String) (b : Bool) (fs : Flags)
    → flag (set_flag id b fs) j ≡ (if id === j then b else flag fs j)
unfolding flag set_flag
flag-set_flag id j b [] = refl
flag-set_flag id j b ((i, c) ∷ fs) =
    ground (arith, eq_iff id j, eq_iff i id, eq_iff i j, flag-set_flag id j b fs)

-- A press on the eye of one variable turns the display of that variable over and of no other.
flag-toggle_reveal :
    (id j : String) (p : Variables)
    → flag (toggle_reveal id p).revealed j
      ≡ (if id === j then not (flag p.revealed j) else flag p.revealed j)
unfolding toggle_reveal
flag-toggle_reveal id j p =
    ground (arith, flag-set_flag id j (not (flag p.revealed id)) p.revealed, eq_iff id j)

not-not : (b : Bool) → not (not b) ≡ b
not-not true = refl
not-not false = refl

-- Two presses on the eye of one variable leave every row as it was.
pub shown_value_again :
    (id : String) (p : Variables) (v : Variable)
    → shown_value (toggle_reveal id (toggle_reveal id p)) v ≡ shown_value p v
unfolding shown_value
shown_value_again id p v = ground (
  arith,
  flag-toggle_reveal id v.id (toggle_reveal id p),
  flag-toggle_reveal id v.id p,
  not-not (flag p.revealed v.id),
)

module _ (server : Server) (a : Application) (old : List ApiRequest) where
  pub fetch_variables-InApp :
      (s : Page Variables) → InApp a old s → InApp a old (fetch_variables server s)
  unfolding fetch_variables
  fetch_variables-InApp s h =
      with_app-InApp server a old _ s
        (fetch-InApp server a old receive _ s (under_leaf a "variables") h) h

  save_variable-InApp : (s : Page Variables) → InApp a old s → InApp a old (save_variable server s)
  unfolding save_variable save_in
  save_variable-InApp s h =
      with_app-InApp server a old (save_in server) s
        (revise-InApp server a old post _ (variable_body s.0)
          (λ t. fetch_variables server (edit close_form t)) (edit (set_loading true) s)
          (λ t k. fetch_variables-InApp (edit close_form t) k) (under_leaf a "variables") h)
        h

  delete_variable-InApp :
      (confirmed : Bool) (id : String) (s : Page Variables)
      → InApp a old s
      → InApp a old (delete_variable server confirmed id s)
  unfolding delete_variable
  delete_variable-InApp false id s h = h
  delete_variable-InApp true id s h =
      revise-InApp server a old delete _ undefined (fetch_variables server) s fetch_variables-InApp
        (rw (h.0, append_text) (under_path a "variables" _)) h

  pub handle-InApp :
      (e : Event) (s : Page Variables) → InApp a old s → InApp a old (handle server e s)
  unfolding handle toggle_reveal
  handle-InApp shown s h = fetch_variables-InApp s h
  handle-InApp saved s h =
      press_submit-keeps variable_form (λ p. p.loading) (save_variable server) (InApp a old) s h
        (save_variable-InApp s h)
  handle-InApp (deleted confirmed id) s h = delete_variable-InApp confirmed id s h
  handle-InApp (revealed_or_hidden id) s h = h
  handle-InApp (entered i e) s h = h
  handle-InApp (form_shown b) s h = h
