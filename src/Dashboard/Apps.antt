-- ===== src/Dashboard/Apps.antt =====
-- frontend/src/app/apps/page.tsx: the applications of the developer.
pub mod Laws
use volq_auth.Base.{
  ℕ, Bool, true, false, not, ◌||◌, ◌&&◌, Option, none, some, List, [], ◌∷◌, if◌then◌else◌, String,
  ◌<>◌, ◌===◌, is_empty, Result, ok, throw,
}
use volq_auth.Base.Value.{ℤ, Value, undefined, null, str, num, pos, bool, obj, field, end, or_else}
use volq_auth.Dashboard.Types.{Application}
use volq_auth.Dashboard.Api.{Server, Body, ApiError, json, created_app, post, put, delete}
use volq_auth.Dashboard.Auth.{Session, refresh_apps, set_selected_app}
use volq_auth.Dashboard.Page.{Page, app_path, edit, with_app, request, revise}
use volq_auth.Dashboard.Form.{
  Control, text_input, number_input, check_box, required, optional, press_submit,
}
use volq_auth.Dashboard.Login.{data_member, type_error}

pub record Apps : Type 0 where
  pub modal_open : Bool
  pub name : String
  pub version : String
  pub integrity_hash : String
  pub download_url : String
  pub webhook_url : String
  pub hwid_lock : Bool
  pub cooldown_days : ℤ
  pub loading : Bool
  pub error : Value
  pub created_secret : Option String
  pub copied : Bool
  pub clipboard : Option String

-- The controls of the form, where `is_url` is the browser's test of an address.
unfoldable pub app_form : (String → Bool) → Apps → List (Control Apps)
app_form is_url p =
    text_input "Application Name" required p.name (λ s p. record p { name = s })
    ∷ text_input "Version" optional p.version (λ s p. record p { version = s })
    ∷ number_input "HWID Reset Cooldown (Days)" none none false p.cooldown_days
        (λ z p. record p { cooldown_days = z })
    ∷ text_input "Integrity Hash (SHA-256 of valid client binary)" optional p.integrity_hash
        (λ s p. record p { integrity_hash = s })
    ∷ text_input "Discord / Security Webhook URL" (λ s. is_empty s || is_url s) p.webhook_url
        (λ s p. record p { webhook_url = s })
    ∷ check_box "Enforce Hardware ID (HWID) Locking" p.hwid_lock (λ b p. record p { hwid_lock = b })
    ∷ []

-- The body of the form.
unfoldable pub create_body : Apps → Value
create_body p = obj (
    field "name" (str p.name) (
      field "version" (str p.version) (
        field "integrity_hash" (str p.integrity_hash) (
          field "download_url" (str p.download_url) (
            field "webhook_url" (str p.webhook_url) (
              field "hwid_lock_enabled" (bool p.hwid_lock)
                (field "hwid_cooldown_days" (num p.cooldown_days) end)))))))

-- `res.data.app_secret`, which throws on an empty body
abbrev pub secret_of : Body → Result ApiError (Option String)
secret_of (created_app secret) = ok (some secret)
secret_of (json undefined) = throw type_error
secret_of (json null) = throw type_error
secret_of _ = ok none

abbrev pub secret_in : Result ApiError Body → Result ApiError (Option String)
secret_in (ok body) = secret_of body
secret_in (throw e) = throw e

abbrev pub failure : ApiError → Value
failure e = or_else (data_member "error" e) (str "Failed to create application")

abbrev pub started : Apps → Apps
started p = record p { loading = true; error = str "" }

abbrev pub failed : Value → Apps → Apps
failed v p = record p { error = v; loading = false }

abbrev pub succeeded : Option String → Apps → Apps
succeeded secret p = record p { created_secret = secret; loading = false }

-- The body that pauses an application, or resumes it.
unfoldable pub pause_body : Application → Value
pause_body a = obj (field "is_paused" (bool (not a.is_paused)) end)

module _ {P : Type 0} (server : Server) where
  -- `refreshApps` from a page
  abbrev pub reload : Page P → Page P
  reload (p, s) = (p, refresh_apps server s)

  unfoldable pub toggle_pause_app : Application → Page P → Page P
  toggle_pause_app a s = revise server put (app_path (some a)) (pause_body a) reload s

  unfoldable pub delete_app : Bool → String → Page P → Page P
  delete_app confirmed id s =
      if confirmed then revise server delete ("/dashboard/apps/" <> id) undefined reload s else s

-- `Select`
unfoldable pub select_app : {P : Type 0} → Application → Page P → Page P
select_app a (p, s) = (p, set_selected_app (some a) s)

-- What can be done with the applications of the table.
pub data Event : Type 0 where
  toggled selected : Application → Event
  deleted : Bool → String → Event

unfoldable pub run_apps : {P : Type 0} → Server → List Event → Page P → Page P
run_apps server [] s = s
run_apps server (toggled a ∷ es) s = run_apps server es (toggle_pause_app server a s)
run_apps server (selected a ∷ es) s = run_apps server es (select_app a s)
run_apps server (deleted confirmed id ∷ es) s =
    run_apps server es (delete_app server confirmed id s)

-- `createdSecret ? … : …`
abbrev pub has_secret : Option String → Bool
has_secret none = false
has_secret (some secret) = not (is_empty secret)

module _ (server : Server) where
  -- The `try` of `handleCreateApp` after its request, by what that came to, with the `finally`.
  abbrev pub conclude : Result ApiError (Option String) → Page Apps → Page Apps
  conclude (ok secret) (p, s) = (succeeded secret p, refresh_apps server s)
  conclude (throw e) (p, s) = (failed (failure e) p, s)

  unfoldable pub handle_create_app : Page Apps → Page Apps
  handle_create_app (p, s) =
      let (r, s') = request server post "/dashboard/apps/create" (create_body p) (started p, s) in
      conclude (secret_in r) s'

  -- The button of the form, which is only there while no secret is shown.
  unfoldable pub press_create : (String → Bool) → Page Apps → Page Apps
  press_create is_url s =
      if has_secret s.0.created_secret
      then s
      else press_submit (app_form is_url) (λ p. p.loading) handle_create_app s

-- The button that opens the form.
unfoldable pub open_form : Apps → Apps
open_form p = record p { created_secret = none; modal_open = true }

-- The buttons that leave the form.
unfoldable pub hide_form : Apps → Apps
hide_form p = record p { modal_open = false }

-- The button that copies the secret, which is only there when there is one.
unfoldable pub copy_secret : String → Apps → Apps
copy_secret secret p = record p { clipboard = some secret; copied = true }

-- The timer of that button, after 1500 milliseconds.
unfoldable pub close_copied : Apps → Apps
close_copied p = record p { copied = false; modal_open = false }

-- What the row of an application says.
unfoldable pub lock_text : Application → String
lock_text a = if a.hwid_lock_enabled then "Locked (7d)" else "Disabled"

unfoldable pub state_text : Application → String
state_text a = if a.is_paused then "Maintenance" else "Operational"

-- `selectedApp?.id === app.id`
unfoldable pub is_selected : Option Application → Application → Bool
is_selected none a = false
is_selected (some b) a = b.id === a.id
