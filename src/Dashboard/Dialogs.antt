-- ===== src/Dashboard/Dialogs.antt =====
-- The dialogs of frontend/src/app/{variables,files,resellers,apps}/page.tsx, with the headers of these pages.
pub mod Generate
pub mod Laws
use volq_auth.Base.{
  Bool, true, false, ◌&&◌, Option, none, some, List, [], ◌∷◌, ◌++◌, if◌then◌else◌, String, ◌<>◌,
}
use volq_auth.Base.Value.{Value, str}
use volq_auth.Dashboard.Types.{Reseller}
use volq_auth.Dashboard.Api.{Server}
use volq_auth.Dashboard.Page.{Page, edit}
use volq_auth.Dashboard.Form.{Control, press_submit}
use volq_auth.Dashboard.Dialog.{Header, Button, Dialog, error_notice}
use volq_auth.Dashboard.Variables
use volq_auth.Dashboard.Variables.{Variables, variable_form, save_variable}
use volq_auth.Dashboard.Files
use volq_auth.Dashboard.Files.{Files, file_form, create_file}
use volq_auth.Dashboard.Resellers
use volq_auth.Dashboard.Resellers.{
  Resellers, reseller_form, credits_form, create_reseller, adjust_credits, open_credits,
  hide_credits,
}
use volq_auth.Dashboard.Apps.{
  Apps, app_form, has_secret, press_create, open_form, hide_form, copy_secret,
}

-- The last two buttons of a form: `Cancel`, and the one that submits.
abbrev pub form_buttons :
    {M : Type 0} → (M → M) → Bool → String → String → (Page M → Page M) → List (Button M)
form_buttons hide busy busy_text text press =
    record { text = "Cancel"; disabled = false; press = edit hide }
    ∷ record { text = if busy then busy_text else text; disabled = busy; press = press }
    ∷ []

abbrev pub variables_header : Header
variables_header = record {
  heading = "Encrypted Remote Variables";
  remark = "Securely stream sensitive API keys, strings, and endpoints directly to client memory";
  button_text = "Create Variable";
}

unfoldable pub variable_dialog : Server → Dialog Variables
variable_dialog server = record {
  opener = variables_header.button_text;
  is_shown = λ p. p.modal_open;
  title = λ p. "New Remote Variable";
  notices = λ s. [];
  form = variable_form;
  buttons = λ p.
      form_buttons (Variables.show_form false) p.loading "Saving..." "Save Variable"
        (press_submit variable_form (λ p. p.loading) (save_variable server));
  show = Variables.show_form true;
  hide = Variables.show_form false;
}

abbrev pub files_header : Header
files_header = record {
  heading = "Cloud Payloads & File Distribution";
  remark =
      "Host protected DLLs, assets, and configurations on Cloudflare R2 with zero-disk RAM streaming";
  button_text = "Add File Payload";
}

unfoldable pub file_dialog : Server → Dialog Files
file_dialog server = record {
  opener = files_header.button_text;
  is_shown = λ p. p.modal_open;
  title = λ p. "Register Protected Cloud Payload";
  notices = λ s. [];
  form = file_form;
  buttons = λ p.
      form_buttons (Files.show_form false) p.loading "Saving..." "Register File"
        (press_submit file_form (λ p. p.loading) (create_file server));
  show = Files.show_form true;
  hide = Files.show_form false;
}

abbrev pub resellers_header : Header
resellers_header = record {
  heading = "Reseller & Sub-Admin Subsystem";
  remark =
      "Authorize third-party vendors to generate and sell licenses using a managed credit pool";
  button_text = "Add Reseller Account";
}

unfoldable pub reseller_dialog : Server → Dialog Resellers
reseller_dialog server = record {
  opener = resellers_header.button_text;
  is_shown = λ p. p.modal_open;
  title = λ p. "Create Reseller Account";
  notices = λ s. [];
  form = reseller_form;
  buttons = λ p.
      form_buttons (Resellers.show_form false) p.loading "Creating..." "Create Reseller"
        (press_submit reseller_form (λ p. p.loading) (create_reseller server));
  show = Resellers.show_form true;
  hide = Resellers.show_form false;
}

-- `creditModalOpen && selectedReseller`
abbrev has_reseller : Option Reseller → Bool
has_reseller none = false
has_reseller (some r) = true

abbrev credits_title : Option Reseller → String
credits_title none = "Adjust Credits: "
credits_title (some r) = "Adjust Credits: " <> r.username

-- The dialog that `Adjust Credits` opens in the row of the reseller.
unfoldable pub credits_dialog : Server → Reseller → Dialog Resellers
credits_dialog server r = record {
  opener = "Adjust Credits";
  is_shown = λ p. p.credit_modal_open && has_reseller p.selected_reseller;
  title = λ p. credits_title p.selected_reseller;
  notices = λ s. [];
  form = credits_form;
  buttons = λ p.
      form_buttons hide_credits p.loading "Updating..." "Update Credits"
        (press_submit credits_form (λ p. p.loading) (adjust_credits server));
  show = open_credits r;
  hide = hide_credits;
}

abbrev pub apps_header : Header
apps_header = record {
  heading = "Applications & Workspaces";
  remark = "Manage protected client binaries, Ed25519 signing keys, and auto-updates";
  button_text = "Create Application";
}

abbrev secret_form : (String → Bool) → Apps → List (Control Apps)
secret_form is_url p = if has_secret p.created_secret then [] else app_form is_url p

abbrev secret_notices : Value → Option String → List Value
secret_notices error none = error_notice error
secret_notices error (some secret) =
    if has_secret (some secret)
    then str "Application Created & Ed25519 Keys Generated!"
      ∷ str "Application Secret (Save this now; it will never be displayed again):"
      ∷ str secret
      ∷ []
    else error_notice error

abbrev app_form_buttons : Server → (String → Bool) → Apps → List (Button Apps)
app_form_buttons server is_url p =
    form_buttons hide_form p.loading "Creating..." "Create Application" (press_create server is_url)

abbrev secret_buttons : Server → (String → Bool) → Apps → Option String → List (Button Apps)
secret_buttons server is_url p none = app_form_buttons server is_url p
secret_buttons server is_url p (some secret) =
    if has_secret (some secret)
    then record {
      text = if p.copied then "Copied & Done" else "Copy Secret & Close";
      disabled = false;
      press = edit (copy_secret secret);
    }
      ∷ []
    else app_form_buttons server is_url p

unfoldable pub app_dialog : Server → (String → Bool) → Dialog Apps
app_dialog server is_url = record {
  opener = apps_header.button_text;
  is_shown = λ p. p.modal_open;
  title = λ p. "Create New Application Workspace";
  notices = λ s. secret_notices s.0.error s.0.created_secret;
  form = secret_form is_url;
  buttons = λ p. secret_buttons server is_url p p.created_secret;
  show = open_form;
  hide = hide_form;
}
