-- ===== src/Dashboard/Licenses/Vault.antt =====
-- frontend/src/app/licenses/page.tsx with the form of frontend/src/components/LicenseModal.tsx that it holds: the
-- handlers of the page, and those of the form, whose `onSuccess` is `fetchLicenses`.
pub mod Laws
use volq_auth.Base.{
  ℕ, Bool, true, false, not, ◌&&◌, Option, none, some, List, [], ◌∷◌, String, if◌then◌else◌, Result,
  ok, throw,
}
use volq_auth.Dashboard.Types.{Application}
use volq_auth.Dashboard.Api.{Server, ApiError, post}
use volq_auth.Dashboard.Page.{Page, edit, request}
use volq_auth.Dashboard.Form.{Entry, enter, all_valid}
use volq_auth.Dashboard.Licenses
use volq_auth.Dashboard.Licenses.{Licenses, fetch_licenses}
use volq_auth.Dashboard.LicenseModal.{
  Modal, license_form, generate_body, keys_in, no_app_text, failure, started, finished, with_keys,
  with_error, generate_path, copy_to_clipboard, clear_keys,
}

pub record Vault : Type 0 where
  pub page : Licenses
  pub modal : Modal

abbrev pub on_page : (Page Licenses → Page Licenses) → Page Vault → Page Vault
on_page f (v, s) = let (l, s') = f (v.page, s) in (record v { page = l }, s')

abbrev pub on_modal : (Modal → Modal) → Vault → Vault
on_modal f v = record v { modal = f v.modal }

abbrev has_none : List String → Bool
has_none [] = true
has_none (key ∷ keys) = false

-- Whether the form is there, and whether its button submits it.
abbrev pub shows_form : Vault → Bool
shows_form v = v.page.modal_open && has_none v.modal.generated_keys

abbrev pub can_submit : Vault → Bool
can_submit v = shows_form v && (not v.modal.loading && all_valid (license_form v.modal))

module _ (server : Server) where
  -- The `try` of `handleSubmit` after its request, with the `finally`.
  abbrev pub settle_keys : Result ApiError (List String) → Page Vault → Page Vault
  settle_keys (ok keys) s =
      edit (on_modal finished)
        (on_page (fetch_licenses server) (edit (on_modal (with_keys keys)) s))
  settle_keys (throw e) s = edit (on_modal finished) (edit (on_modal (with_error (failure e))) s)

  -- `handleSubmit`, by the selected application.
  abbrev pub generate_for : Option Application → Page Vault → Page Vault
  generate_for none s = edit (on_modal (with_error no_app_text)) s
  generate_for (some a) s =
      let (r, t) =
        request server post (generate_path a) (generate_body s.0.modal)
          (edit (on_modal started) s) in
      settle_keys (keys_in r) t

  unfoldable pub press_generate : Page Vault → Page Vault
  press_generate s = if can_submit s.0 then generate_for s.1.0.selected_app s else s

-- What can happen on the page and in its form.
pub data Event : Type 0 where
  on_list : Licenses.Event → Event
  entered : ℕ → Entry → Event
  generated copied closed : Event

-- `Done`
abbrev close_keys : Vault → Vault
close_keys v = record v { modal = clear_keys v.modal; page = record v.page { modal_open = false } }

unfoldable pub handle : Server → String → Event → Page Vault → Page Vault
handle server base_url (on_list e) s = on_page (Licenses.handle server base_url e) s
handle server base_url (entered i e) s =
    if shows_form s.0 then edit (on_modal (enter license_form i e)) s else s
handle server base_url generated s = press_generate server s
handle server base_url copied s = edit (on_modal copy_to_clipboard) s
handle server base_url closed s = edit close_keys s
