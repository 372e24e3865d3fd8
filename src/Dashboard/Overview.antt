-- ===== src/Dashboard/Overview.antt =====
-- frontend/src/app/page.tsx: the overview of the selected application.
pub mod Laws
pub mod Cards
use volq_auth.Base.{
  ℕ, ◌==◌, ltb, Bool, true, false, not, ◌&&◌, ◌||◌, Option, none, some, List, [], ◌∷◌, length,
  select, or_default, if◌then◌else◌, String, ◌<>◌, includes,
}
use volq_auth.Base.Value.{undefined, null}
use volq_auth.Dashboard.Types.{Application, License, SecurityLog, Status, active}
use volq_auth.Dashboard.Api.{Server, Body, json, license_page, user_page, get}
use volq_auth.Dashboard.Auth.{Auth, Session}
use volq_auth.Dashboard.Page.{Page, app_path, edit, for_app, request, on_ok}
use volq_auth.Dashboard.Logs.{logs_of}
use volq_auth.Dashboard.Licenses.Row.{same}

pub record Stats : Type 0 where
  pub total_licenses : ℕ
  pub active_licenses : ℕ
  pub total_users : ℕ
  pub recent_alerts : ℕ

pub record Overview : Type 0 where
  pub stats : Stats
  pub recent_logs : List SecurityLog
  pub license_modal_open : Bool
  pub copied_field : Option String
  pub clipboard : Option String
  pub pushed : Option String

-- `licRes.data.licenses || []` and `licRes.data.total`; `none` where the read throws
abbrev pub licenses_of : Body → Option (List License × ℕ)
licenses_of (license_page licenses total) = some (or_default licenses [], or_default total 0)
licenses_of (user_page users total) = some ([], or_default total 0)
licenses_of (json undefined) = none
licenses_of (json null) = none
licenses_of _ = some ([], 0)

-- `userRes.data.total || 0`
abbrev pub total_of : Body → Option ℕ
total_of (user_page users total) = some (or_default total 0)
total_of (license_page licenses total) = some (or_default total 0)
total_of (json undefined) = none
total_of (json null) = none
total_of _ = some 0

-- The test of the alerts that are counted.
unfoldable pub is_alert : SecurityLog → Bool
is_alert l = includes l.event_type "tamper" || includes l.event_type "mismatch"

-- The test of the rows that are marked.
unfoldable pub is_tamper : SecurityLog → Bool
is_tamper l =
    includes l.event_type "tamper"
    || (includes l.event_type "mismatch" || includes l.event_type "replay")

abbrev pub is_active : License → Bool
is_active l = same l.status active

-- `setStats({ … }); setRecentLogs(logs);`
unfoldable pub set_stats : List License → ℕ → ℕ → List SecurityLog → Overview → Overview
set_stats licenses total users logs p = record p {
  stats = record {
    total_licenses = if total == 0 then length licenses else total;
    active_licenses = length (select is_active licenses);
    total_users = users;
    recent_alerts = length (select is_alert logs);
  };
  recent_logs = logs;
}

module _ (server : Server) (id : String) where
  abbrev pub path_of : String → String
  path_of rest = "/dashboard/apps/" <> id <> rest

  -- The three steps of `fetchAppStats`, the last first. An error in any of them ends it.
  unfoldable pub load_logs : List License → ℕ → ℕ → Page Overview → Page Overview
  load_logs licenses total users s =
      on_ok (λ body. edit (set_stats licenses total users (logs_of body)))
        (request server get (path_of "/logs?limit=5") undefined s)

  unfoldable pub load_users : List License → ℕ → Page Overview → Page Overview
  load_users licenses total s =
      on_ok
        (λ body t. elim (total_of body) [
          | none ↦ t
          | some users ↦ load_logs licenses total users t
        ])
        (request server get (path_of "/users?limit=1") undefined s)

  unfoldable pub fetch_app_stats : Page Overview → Page Overview
  fetch_app_stats s =
      on_ok
        (λ body t. elim (licenses_of body) [
          | none ↦ t
          | some (licenses, total) ↦ load_users licenses total t
        ])
        (request server get (path_of "/licenses?limit=1000") undefined s)

-- The first effect: without a user, once loading is over, the page goes to the login page.
unfoldable pub guard : Page Overview → Page Overview
guard (p, (auth, b)) = elim auth.user [
  | none ↦ (if auth.is_loading then p else record p { pushed = some "/login" }, (auth, b))
  | some user ↦ (p, (auth, b))
]

-- Whether the page shows nothing but that it is authenticating.
unfoldable pub is_waiting : Auth → Bool
is_waiting auth = auth.is_loading || elim auth.user [ none ↦ true | some user ↦ false ]

-- The second effect.
unfoldable pub shown : Server → Page Overview → Page Overview
shown server s = for_app s.1.0.selected_app (λ a. fetch_app_stats server a.id) s

unfoldable pub copy_text : String → String → Overview → Overview
copy_text text field p = record p { clipboard = some text; copied_field = some field }

-- The colour of the card of the alerts.
unfoldable alerts_accent : Stats → String
alerts_accent stats = if ltb 0 stats.recent_alerts then "danger" else "success"

-- The timer of that button, after 2000 milliseconds.
unfoldable pub forget_copied : Overview → Overview
forget_copied p = record p { copied_field = none }

-- The buttons that open and close the form of the licenses, and those that go to another page.
unfoldable show_license_modal : Bool → Overview → Overview
show_license_modal b p = record p { license_modal_open = b }

unfoldable go_to : String → Overview → Overview
go_to path p = record p { pushed = some path }

-- `onSuccess` of the form of the licenses
unfoldable after_generate : Server → Page Overview → Page Overview
after_generate server s = for_app s.1.0.selected_app (λ a. fetch_app_stats server a.id) s
