-- ===== src/Dashboard/Tests/Pages.antt =====
-- The theorems on the pages of the dashboard at concrete states.
mod Dialogs
mod Forms
mod Loads
use volq_auth.Base.{
  ◌≤◌, ◌≡◌, ◌≢◌, refl, true, false, none, some, List, [], ◌∷◌, ◌++◌, map, length, select, includes,
}
use volq_auth.Base.Value.{pos, undefined, str, bool, obj, field, end, truthy, lookup_field}
use volq_auth.Dashboard.Types.{active, expired, banned}
use volq_auth.Dashboard.Api.{Server, json, responded, get, post, session, key_list, call, outgoing}
use volq_auth.Dashboard.Api.Laws.{answered}
use volq_auth.Dashboard.Auth.{mounted, logout}
use volq_auth.Dashboard.Page.Laws.{InApp}
use volq_auth.Dashboard.Licenses
use volq_auth.Dashboard.Licenses.{Licenses, fetch_licenses, list_path}
use volq_auth.Dashboard.Licenses.Laws.{loaded, fetch_licenses_lem}
use volq_auth.Dashboard.Licenses.Row.{
  Button, ban, unban, has_button, requested, press_all, IsManual, has_button-changes,
  press_all_active,
}
use volq_auth.Dashboard.Users
use volq_auth.Dashboard.Variables
use volq_auth.Dashboard.Variables.Laws.{shown_value_again}
use volq_auth.Dashboard.Variables.{
  dots, tier_text, access_text, shown_value, flag, set_flag, toggle_reveal,
}
use volq_auth.Dashboard.Tables.{variable_table, variable_row}
use volq_auth.Dashboard.Tables.Laws.{disguised, variable_table-disguised}
use volq_auth.Dashboard.Navigation.{active_links}
use volq_auth.Dashboard.Navigation.Laws.{active_links-le}
use volq_auth.Dashboard.Overview.{Overview, is_tamper, is_alert, is_waiting, guard, fetch_app_stats}
use volq_auth.Dashboard.Overview.Laws.{
  IsCounted, fetch_app_stats-IsCounted, recent_alerts_le, is_alert_misses, guard-logout,
}
use volq_auth.Dashboard.Login.{Login, error_value, login_body, handle_submit}
use volq_auth.Dashboard.Login.Laws.{
  handle_submit_refused, handle_submit_accepted, handle_submit_unsigned,
}
use volq_auth.Dashboard.LicenseModal
use volq_auth.Dashboard.LicenseModal.{Modal, generate_path, generate_body}
use volq_auth.Dashboard.LicenseModal.Laws.{generate_accepted}
use volq_auth.Dashboard.Tests.{
  server_of, app, license, ada, end_user, variable, replay_log, browser, at_login, auth, codec,
  gone, down, down_error, show,
}

abbrev pub table : Licenses
table = record {
  licenses = license ∷ [];
  total = 1;
  status_filter = "all";
  search = "";
  loading = false;
  modal_open = false;
  copied_key = none;
  clipboard = none;
  opened = none;
}

-- The application is selected and nothing has been sent.
abbrev pub people : Users.Users
people = record { users = end_user ∷ []; search = ""; loading = false }

abbrev pub vault : Variables.Variables
vault = record {
  variables = variable ∷ [];
  modal_open = false;
  var_key = "API";
  var_value = "secret";
  min_tier = pos 0;
  is_secret = true;
  loading = false;
  revealed = [];
}

abbrev pub overview : Overview
overview = record {
  stats = record { total_licenses = 0; active_licenses = 0; total_users = 0; recent_alerts = 0 };
  recent_logs = replay_log ∷ [];
  license_modal_open = false;
  copied_field = none;
  clipboard = none;
  pushed = none;
}

counted : IsCounted (overview, (auth, browser))
unfolding is_alert includes
counted = refl

fetch_app_stats-IsCounted_example :
    IsCounted (fetch_app_stats gone "a1" (overview, (auth, browser)))
fetch_app_stats-IsCounted_example =
    fetch_app_stats-IsCounted gone "a1" (overview, (auth, browser)) counted

abbrev form : Login
form = record {
  is_register = false;
  username = "ada";
  email = "";
  password = "secret";
  loading = false;
  error = str "";
  pushed = none;
}

handle_submit_refused_example :
    let t = handle_submit down codec show (form, (mounted, at_login)) in
    (truthy t.0.error ≡ true)
    × (t.0.error ≡ error_value show down_error)
    × (t.0.loading ≡ false)
    × (t.0.pushed ≡ none)
    × (t.1 ≡ (mounted, (call down post "/dashboard/auth/login" (login_body form) at_login).1))
handle_submit_refused_example =
    handle_submit_refused down codec show form mounted at_login down_error refl

-- A server that answers with a success and says no more than that.
abbrev terse : Server
terse = server_of (responded 200 (json (obj (field "ok" (bool true) end))))

handle_submit_unsigned_example :
    let t = handle_submit terse codec show (form, (auth, at_login)) in
    (t.1.0.token ≡ none)
    × (t.1.0.user ≡ none)
    × (t.0.pushed ≡ some "/")
    × (t.0.loading ≡ false)
    × (truthy t.0.error ≡ false)
unfolding lookup_field
handle_submit_unsigned_example =
    handle_submit_unsigned terse codec show form auth at_login (field "ok" (bool true) end) refl
      refl refl

variable_table-disguised_example :
    variable_table
      (record vault { variables = map (disguised vault.revealed (λ v. "other")) vault.variables })
    ≡ variable_table vault
variable_table-disguised_example = variable_table-disguised (λ v. "other") vault

-- The value of the one variable is hidden, and would be shown after a press on its eye.
variable_hidden :
    ((variable_table vault).rows
      ≡ ((variable.var_key ∷ [])
          ∷ (dots ∷ [])
          ∷ ("Protected Session" ∷ [])
          ∷ (tier_text variable ∷ [])
          ∷ ("Delete Variable" ∷ [])
          ∷ [])
        ∷ [])
    × (shown_value (toggle_reveal variable.id vault) variable ≡ variable.var_value)
unfolding variable_table variable_row shown_value flag access_text toggle_reveal set_flag
variable_hidden = (refl, refl)
