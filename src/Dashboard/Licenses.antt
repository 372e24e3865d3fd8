-- ===== src/Dashboard/Licenses.antt =====
-- frontend/src/app/licenses/page.tsx: the licenses of the selected application.
pub mod Laws
pub mod Row
pub mod Vault
use volq_auth.Base.{
  ℕ, Bool, true, false, Option, none, some, List, [], ◌∷◌, or_default, if◌then◌else◌, String, ◌<>◌,
}
use volq_auth.Base.Value.{Value, undefined, null, str, bool, num, pos, obj, field, end, truthy}
use volq_auth.Dashboard.Types.{
  Application, License, Status, unactivated, active, paused, banned, expired,
}
use volq_auth.Dashboard.Api.{Server, Body, license_page, user_page, json, get, put, delete}
use volq_auth.Dashboard.Page.{Page, app_path, edit, with_app, fetch, revise}

-- The state of the page, and what its handlers did to the clipboard and to other windows.
pub record Licenses : Type 0 where
  pub licenses : List License
  pub total : ℕ
  pub status_filter : String
  pub search : String
  pub loading : Bool
  pub modal_open : Bool
  pub copied_key : Option String
  pub clipboard : Option String
  pub opened : Option String

abbrev pub set_loading : Bool → Licenses → Licenses
set_loading b p = record p { loading = b }

-- `setLicenses(res.data.licenses || []); setTotal(res.data.total || 0);`. Reading a member of `null` or
-- `undefined` throws, and the handler catches that too.
abbrev pub receive : Body → Licenses → Licenses
receive (license_page licenses total) p = record p {
  licenses = or_default licenses [];
  total = or_default total 0;
}
receive (user_page users total) p = record p { licenses = []; total = or_default total 0 }
receive (json undefined) p = p
receive (json null) p = p
receive _ p = record p { licenses = []; total = 0 }

abbrev pub list_path : Application → Licenses → String
list_path a p =
    app_path (some a)
    <> "/licenses?status="
    <> p.status_filter
    <> "&search="
    <> p.search
    <> "&limit=100"

abbrev pub license_path : Option Application → String → String
license_path o id = app_path o <> "/licenses/" <> id

abbrev pub status_text : Status → String
status_text unactivated = "unactivated"
status_text active = "active"
status_text paused = "paused"
status_text banned = "banned"
status_text expired = "expired"

abbrev pub status_body : Status → Value
status_body status = obj (field "status" (str (status_text status)) end)

module _ (server : Server) where
  -- `fetchLicenses` after its guard.
  unfoldable pub load : Application → Page Licenses → Page Licenses
  load a s =
      edit (set_loading false) (fetch server receive (list_path a s.0) (edit (set_loading true) s))

  unfoldable pub fetch_licenses : Page Licenses → Page Licenses
  fetch_licenses = with_app load

  -- `confirmed` is what `confirm` returned.
  unfoldable pub reset_hwid : Bool → String → Page Licenses → Page Licenses
  reset_hwid confirmed id s =
      if confirmed
      then revise server put (license_path s.1.0.selected_app id <> "/reset-hwid") undefined
          fetch_licenses s
      else s

  unfoldable pub update_status : String → Status → Page Licenses → Page Licenses
  update_status id status s =
      revise server put (license_path s.1.0.selected_app id <> "/status") (status_body status)
        fetch_licenses s

  unfoldable pub delete_license : Bool → String → Page Licenses → Page Licenses
  delete_license confirmed id s =
      if confirmed
      then revise server delete (license_path s.1.0.selected_app id) undefined fetch_licenses s
      else s

unfoldable pub copy_key : String → Page Licenses → Page Licenses
copy_key key = edit λ p. record p { clipboard = some key; copied_key = some key }

-- The timer of a copy, after 1500 milliseconds.
unfoldable pub copy_expired : Page Licenses → Page Licenses
copy_expired = edit λ p. record p { copied_key = none }

unfoldable pub export_csv : String → Page Licenses → Page Licenses
export_csv base_url =
    with_app λ a.
      edit λ p. record p { opened = some (base_url <> app_path (some a) <> "/licenses/export") }

-- What can happen on the page, in any order.
pub data Event : Type 0 where
  shown copied_long_ago exported : Event
  filtered searched copied : String → Event
  reset deleted : Bool → String → Event
  updated : String → Status → Event
  modal : Bool → Event

-- A new filter or a new search text reloads the list.
unfoldable pub handle : Server → String → Event → Page Licenses → Page Licenses
handle server base_url shown s = fetch_licenses server s
handle server base_url copied_long_ago s = copy_expired s
handle server base_url exported s = export_csv base_url s
handle server base_url (filtered status) s =
    fetch_licenses server (edit (λ p. record p { status_filter = status }) s)
handle server base_url (searched text) s =
    fetch_licenses server (edit (λ p. record p { search = text }) s)
handle server base_url (copied key) s = copy_key key s
handle server base_url (reset confirmed id) s = reset_hwid server confirmed id s
handle server base_url (deleted confirmed id) s = delete_license server confirmed id s
handle server base_url (updated id status) s = update_status server id status s
handle server base_url (modal shows) s = edit (λ p. record p { modal_open = shows }) s
