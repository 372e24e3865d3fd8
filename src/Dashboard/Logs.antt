-- ===== src/Dashboard/Logs.antt =====
-- frontend/src/app/logs/page.tsx: the security log of the selected application.
use volq_auth.Base.{
  Bool, true, false, ◌||◌, some, List, [], if◌then◌else◌, String, ◌<>◌, includes, is_empty,
}
use volq_auth.Dashboard.Types.{SecurityLog}
use volq_auth.Dashboard.Api.{Server, Body, log_list}
use volq_auth.Dashboard.Page.{Page, app_path, edit, with_app, fetch}

pub record Logs : Type 0 where
  pub logs : List SecurityLog
  pub loading : Bool

abbrev pub set_loading : Bool → Logs → Logs
set_loading b p = record p { loading = b }

-- `res.data || []`; the endpoint answers with a list or with nothing.
abbrev pub logs_of : Body → List SecurityLog
logs_of (log_list ls) = ls
logs_of _ = []

abbrev pub receive : Body → Logs → Logs
receive body p = record p { logs = logs_of body }

unfoldable pub fetch_logs : Server → Page Logs → Page Logs
fetch_logs server = with_app λ a s.
    edit (set_loading false)
      (fetch server receive (app_path (some a) <> "/logs?limit=200") (edit (set_loading true) s))

-- The colours of a badge of the log.
pub data Colour : Type 0 where
  danger success brand : Colour

-- `getEventBadge`
unfoldable pub get_event_badge : String → Colour
get_event_badge event_type =
    if includes event_type "tamper"
      || (includes event_type "mismatch"
          || (includes event_type "replay" || includes event_type "decrypt_failed"))
    then danger
    else if includes event_type "login" || includes event_type "redeem"
    then success
    else brand

-- The actor that a row shows.
unfoldable pub actor_text : SecurityLog → String
actor_text l = if is_empty l.actor_identifier then "Unknown" else l.actor_identifier
