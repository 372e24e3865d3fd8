-- ===== src/Dashboard/Tests/Pages/Forms.antt =====
-- The theorems on several pages at once, on the forms, the tables and the snippets, at concrete states.
use volq_auth.Base.{
  refl, map, List, ◌≡◌, ◌⊎◌, Bool, true, false, none, [], ◌∷◌, some, String, starts_with, includes,
}
use volq_auth.Base.Value.{pos}
use volq_auth.Dashboard.Licenses
use volq_auth.Dashboard.Users
use volq_auth.Dashboard.Variables
use volq_auth.Dashboard.Files
use volq_auth.Dashboard.Resellers
use volq_auth.Dashboard.Apps.{app_form}
use volq_auth.Dashboard.Webhooks.{webhook_form}
use volq_auth.Dashboard.Login.{login_form}
use volq_auth.Dashboard.LicenseModal.{initial, license_form, handle_submit, press_generate}
use volq_auth.Dashboard.Form.{counted, IsControlled}
use volq_auth.Dashboard.Forms.{IsOffered, forms-IsControlled, press_generate-IsOffered}
use volq_auth.Dashboard.Logs.{Logs}
use volq_auth.Dashboard.Docs
use volq_auth.Dashboard.Docs.{snippet}
use volq_auth.Dashboard.Docs.Injected.{credentials_of}
use volq_auth.Dashboard.Docs.Laws.{snippet-Injects}
use volq_auth.Dashboard.Pages.{pages-KeepsTo}
use volq_auth.Dashboard.Visit.{Move, acted, chose, move}
use volq_auth.Dashboard.Visit.Laws.{KeepsTo}
use volq_auth.Dashboard.Licenses.Vault
use volq_auth.Dashboard.Types.{Application}
use volq_auth.Dashboard.Auth.{set_selected_app}
use volq_auth.Dashboard.Page.{fetch, request}
use volq_auth.Dashboard.Api.{call, on_error}
use volq_auth.Dashboard.Tests.{app, browser, auth, gone, down}
use volq_auth.Dashboard.Tests.Pages.{table, people, vault}

abbrev pub shelf : Files.Files
shelf = record {
  files = [];
  modal_open = true;
  file_name = "loader.exe";
  storage_key = "builds/loader.exe";
  sha256_hash = "e3b0";
  min_tier = pos 1;
  file_size = 1048576;
  loading = false;
}

abbrev pub partners : Resellers.Resellers
partners = record {
  resellers = [];
  modal_open = true;
  credit_modal_open = false;
  selected_reseller = none;
  username = "shop";
  password = "secret";
  credits = pos 100;
  can_reset_hwid = false;
  credit_adjustment = pos 50;
  loading = false;
}

-- The browser's test, as far as the example goes.
abbrev is_web : String → Bool
is_web s = starts_with s "https://"

-- Another application, which is chosen in the top bar.
abbrev beta : Application
beta = record app { id = "a2"; name = "Beta" }

-- The licenses with the form open.
abbrev with_form : Vault.Vault
with_form = record { page = record table { modal_open = true }; modal = initial }

abbrev vault_moves : List (Move Vault.Event)
vault_moves =
    acted (Vault.on_list Licenses.shown)
    ∷ acted (Vault.entered 1 (counted (pos 5)))
    ∷ chose true beta
    ∷ acted Vault.generated
    ∷ acted (Vault.on_list (Licenses.deleted true "l1"))
    ∷ []

abbrev user_moves : List (Move Users.Event)
user_moves = acted (Users.deleted true "u1") ∷ chose true beta ∷ acted (Users.searched "bo") ∷ []

abbrev variable_moves : List (Move Variables.Event)
variable_moves = acted (Variables.entered 2 (counted (pos 3))) ∷ acted Variables.saved ∷ []

pages-KeepsTo_example :
    KeepsTo
      (Vault.handle gone "/api/v1")
      (Vault.on_page (Licenses.fetch_licenses gone))
      app
      vault_moves
      (with_form, (auth, browser))
    × KeepsTo (Users.handle gone) (Users.fetch_users gone) app user_moves (people, (auth, browser))
    × KeepsTo
        (Variables.handle gone)
        (Variables.fetch_variables gone)
        app
        variable_moves
        (vault, (auth, browser))
    × KeepsTo
        (Files.handle gone)
        (Files.fetch_files gone)
        app
        (acted Files.created ∷ [])
        (shelf, (auth, browser))
    × KeepsTo
        (Resellers.handle gone)
        (Resellers.fetch_resellers gone)
        app
        (chose false app ∷ acted Resellers.created ∷ [])
        (partners, (auth, browser))
pages-KeepsTo_example =
    pages-KeepsTo gone "/api/v1" app (auth, browser) vault_moves user_moves variable_moves
      (acted Files.created ∷ []) (chose false app ∷ acted Resellers.created ∷ []) with_form people
      vault shelf partners refl

-- What is asked of a server that cannot be reached where the other application is chosen and the form is submitted: its
-- list and its keys, and no list again after that fails.
vault_paths :
    map
      (λ q. q.path)
      (move
        (Vault.handle down "/api/v1")
        (Vault.on_page (Licenses.fetch_licenses down))
        (acted Vault.generated)
        (move
          (Vault.handle down "/api/v1")
          (Vault.on_page (Licenses.fetch_licenses down))
          (chose true beta)
          (with_form, (auth, browser)))).1.1.sent
    ≡ "/dashboard/apps/a2/licenses?status=all&search=&limit=100"
      ∷ "/dashboard/apps/a2/licenses/generate" ∷ []
unfolding move set_selected_app Licenses.fetch_licenses Licenses.load Vault.handle fetch request
    call Vault.press_generate license_form on_error
vault_paths = refl

forms-IsControlled_example :
    IsControlled license_form
    × IsControlled Variables.variable_form
    × IsControlled Files.file_form
    × IsControlled Resellers.reseller_form
    × IsControlled Resellers.credits_form
    × IsControlled (app_form is_web)
    × IsControlled (webhook_form is_web)
    × IsControlled (login_form is_web)
forms-IsControlled_example = forms-IsControlled is_web is_web

press_generate-IsOffered_example :
    (press_generate down (λ s. s) (initial, (auth, browser)) ≡ (initial, (auth, browser)))
    ⊎ ((press_generate down (λ s. s) (initial, (auth, browser))
          ≡ handle_submit down (λ s. s) (initial, (auth, browser)))
        × (initial.loading ≡ false)
        × (initial.generated_keys ≡ [])
        × IsOffered initial)
press_generate-IsOffered_example = press_generate-IsOffered down (λ s. s) (initial, (auth, browser))

abbrev pub no_logs : Logs
no_logs = record { logs = []; loading = true }

snippet-Injects_example :
    (includes (snippet Docs.go (some app)) (credentials_of (some app)).app_id ≡ true)
    × (includes (snippet Docs.go (some app)) (credentials_of (some app)).app_version ≡ true)
    × (includes (snippet Docs.go (some app)) (credentials_of (some app)).master_pub_key ≡ true)
snippet-Injects_example = snippet-Injects Docs.go (some app)
