-- ===== src/Dashboard/Licenses/Vault/Laws.antt =====
-- The licenses page and its form keep to the selected application.
use mathlib.Core.Path.{subst}
use volq_auth.Base.{sym, some, List, String, Result, ok, throw, Bool-cases, inl, inr}
use volq_auth.Dashboard.Types.{Application}
use volq_auth.Dashboard.Api.{Server, ApiRequest, ApiError, post}
use volq_auth.Dashboard.Page.{Page, edit, request}
use volq_auth.Dashboard.Page.Laws.{InApp, under_leaf, request-InApp}
use volq_auth.Dashboard.Licenses
use volq_auth.Dashboard.Licenses.Laws.{handle-InApp, fetch_licenses-InApp}
use volq_auth.Dashboard.LicenseModal.{generate_body, keys_in, started, with_keys, generate_path}
use volq_auth.Dashboard.Licenses.Vault.{
  Vault, on_page, on_modal, shows_form, can_submit, settle_keys, generate_for, press_generate,
  Event, on_list, entered, generated, copied, closed, handle,
}

module _ (server : Server) (a : Application) (old : List ApiRequest) where
  pub load-InApp :
      (s : Page Vault) → InApp a old s → InApp a old (on_page (Licenses.fetch_licenses server) s)
  load-InApp (v, s) h = fetch_licenses-InApp server a old (v.page, s) h

  settle_keys-InApp :
      (r : Result ApiError (List String)) (s : Page Vault)
      → InApp a old s
      → InApp a old (settle_keys server r s)
  settle_keys-InApp (ok keys) s h = load-InApp (edit (on_modal (with_keys keys)) s) h
  settle_keys-InApp (throw e) s h = h

  generate_for-InApp :
      (s : Page Vault) → InApp a old s → InApp a old (generate_for server (some a) s)
  generate_for-InApp s h =
      let asked =
        request server post (generate_path a) (generate_body s.0.modal)
          (edit (on_modal started) s) in
      settle_keys-InApp (keys_in asked.0) asked.1 (
        request-InApp server a old post _ (generate_body s.0.modal) (edit (on_modal started) s)
          (under_leaf a "licenses/generate") h)

  press_generate-InApp : (s : Page Vault) → InApp a old s → InApp a old (press_generate server s)
  unfolding press_generate
  press_generate-InApp s h = elim (Bool-cases (can_submit s.0)) [
    | inl can ↦
        rw can
          (subst (λ o. InApp a old (generate_for server o s)) (sym h.0) (generate_for-InApp s h))
    | inr cannot ↦ rw cannot h
  ]

  pub handle_vault-InApp :
      (base_url : String) (e : Event) (s : Page Vault)
      → InApp a old s
      → InApp a old (handle server base_url e s)
  unfolding handle
  handle_vault-InApp base_url (on_list e) (v, s) h =
      handle-InApp server a old base_url e (v.page, s) h
  handle_vault-InApp base_url (entered i e) s h = elim (Bool-cases (shows_form s.0)) [
    | inl shown ↦ rw shown h
    | inr hidden ↦ rw hidden h
  ]
  handle_vault-InApp base_url generated s h = press_generate-InApp s h
  handle_vault-InApp base_url copied s h = h
  handle_vault-InApp base_url closed s h = h
