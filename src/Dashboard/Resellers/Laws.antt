-- ===== src/Dashboard/Resellers/Laws.antt =====
-- The resellers page, whatever happens on it.
use volq_auth.Base.{true, Option, none, some, List, append_text}
use volq_auth.Dashboard.Types.{Application, Reseller}
use volq_auth.Dashboard.Api.{Server, ApiRequest, post}
use volq_auth.Dashboard.Page.{Page, edit}
use volq_auth.Dashboard.Auth.{Session}
use volq_auth.Dashboard.Page.Laws.{
  InApp, under_path, under_leaf, fetch-InApp, revise-InApp, with_app-InApp,
}
use volq_auth.Dashboard.Form.Laws.{press_submit-keeps}
use volq_auth.Dashboard.Resellers.{
  Resellers, receive, set_loading, close_form, close_credits, reseller_body, credits_body,
  fetch_resellers, create_in, create_reseller, adjust_in, adjust_credits, open_credits, Event,
  handle, shown, created, adjusted, picked, entered, entered_credits, form_shown, credits_hidden,
  reseller_form, credits_form,
}

module _ (server : Server) (a : Application) (old : List ApiRequest) where
  pub fetch_resellers-InApp :
      (s : Page Resellers) → InApp a old s → InApp a old (fetch_resellers server s)
  unfolding fetch_resellers
  fetch_resellers-InApp s h =
      with_app-InApp server a old _ s
        (fetch-InApp server a old receive _ s (under_leaf a "resellers") h) h

  create_reseller-InApp :
      (s : Page Resellers) → InApp a old s → InApp a old (create_reseller server s)
  unfolding create_reseller create_in
  create_reseller-InApp s h =
      with_app-InApp server a old (create_in server) s
        (revise-InApp server a old post _ (reseller_body s.0)
          (λ t. fetch_resellers server (edit close_form t)) (edit (set_loading true) s)
          (λ t k. fetch_resellers-InApp (edit close_form t) k)
          (rw append_text (under_path a "resellers" "/create")) h)
        h

  adjust_in-InApp :
      (r : Reseller) (s : Page Resellers) → InApp a old s → InApp a old (adjust_in server r a s)
  unfolding adjust_in
  adjust_in-InApp r s h =
      revise-InApp server a old post _ (credits_body s.0)
        (λ t. fetch_resellers server (edit close_credits t)) (edit (set_loading true) s)
        (λ t k. fetch_resellers-InApp (edit close_credits t) k)
        (rw append_text (under_path a "resellers" _)) h

  chosen-InApp :
      (o : Option Reseller) (p : Resellers) (s : Session)
      → InApp a old (p, s)
      → InApp a old (adjust_credits server (record p { selected_reseller = o }, s))
  unfolding adjust_credits
  chosen-InApp none p s h = h
  chosen-InApp (some r) p s h =
      let t : Page Resellers = (record p { selected_reseller = some r }, s) in
      with_app-InApp server a old (adjust_in server r) t (adjust_in-InApp r t h) h

  pub handle-InApp :
      (e : Event) (s : Page Resellers) → InApp a old s → InApp a old (handle server e s)
  unfolding handle open_credits
  handle-InApp shown s h = fetch_resellers-InApp s h
  handle-InApp created s h =
      press_submit-keeps reseller_form (λ p. p.loading) (create_reseller server) (InApp a old) s h
        (create_reseller-InApp s h)
  handle-InApp adjusted (p, s) h =
      press_submit-keeps credits_form (λ p. p.loading) (adjust_credits server) (InApp a old) (p, s)
        h (chosen-InApp p.selected_reseller p s h)
  handle-InApp (picked r) s h = h
  handle-InApp (entered i e) s h = h
  handle-InApp (entered_credits i e) s h = h
  handle-InApp (form_shown b) s h = h
  handle-InApp credits_hidden s h = h
