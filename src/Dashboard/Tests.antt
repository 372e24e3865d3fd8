-- ===== src/Dashboard/Tests.antt =====
-- The theorems on the dashboard's session at concrete browsers and servers.
mod Overlap
mod Pages
use volq_auth.Base.{
  ℕ, ◌≤◌, ◌≡◌, refl, Bool, true, false, Option, none, some, List, [], ◌∷◌, ◌++◌, length, select,
  String, ◌<>◌, ◌===◌, ◌||◌, ◌&&◌, includes, starts_with, Result, ok, throw, if◌then◌else◌, ◌⊎◌,
  is_empty,
}
use volq_auth.Base.Storage.{get_item}
use volq_auth.Base.Value.{Value, undefined, null, str, obj, field, end, truthy, lookup_field}
use volq_auth.Dashboard.Types.{
  Application, License, AppUser, Variable, SecurityLog, UserProfile, Status, active, expired,
  banned, developer,
}
use volq_auth.Dashboard.Api.{
  Server, Browser, Body, ApiReply, ApiError, responded, no_response, get, post, delete, json,
  app_list, license_page, session, key_list, call, outgoing, token_key, user_key, attach_token,
}
use volq_auth.Dashboard.Api.Laws.{answered, expelled, call_outcome, call_session}
use volq_auth.Dashboard.BaseUrl.{get_base_url, IsWeb, get_base_url_forms}
use volq_auth.Dashboard.NextConfig.{rewrites}
use volq_auth.Dashboard.Health.{
  add_port, has_port, backend_url, IsRooted, add_port-has_port, backend_url-IsRooted,
}
use volq_auth.Dashboard.Auth.{
  Auth, Session, ProfileCodec, mounted, selected_key, login, logout, restore_session, has_id,
}
use volq_auth.Dashboard.Auth.Selection
use volq_auth.Dashboard.Auth.Selection.{IsStored}
use volq_auth.Dashboard.Auth.Session.{logout_lem, restore_session-login}
use volq_auth.Dashboard.Page.{Page}
use volq_auth.Dashboard.Page.Laws.{InApp}
use volq_auth.Dashboard.Apps
use volq_auth.Dashboard.Apps.Laws.{run_apps-IsStored}

abbrev pub server_of : ApiReply → Server
server_of r = record {
  respond = λ sent. r;
  status_code = λ status. "ERR_BAD_REQUEST";
  status_message = λ status. "Request failed";
}

abbrev pub app : Application
app = record {
  id = "a1";
  developer_id = "d1";
  name = "Atom";
  master_public_key = "key";
  version = "1.0.0";
  download_url = "";
  integrity_hash = "";
  is_paused = false;
  hwid_lock_enabled = true;
  hwid_cooldown_days = 3;
  webhook_url = "";
  webhook_enabled = false;
  created_at = "2024-01-01";
  updated_at = "2024-01-01";
}

abbrev pub license : License
license = record {
  id = "l1";
  app_id = "a1";
  subscription_id = none;
  subscription_name = "Pro";
  tier_level = 1;
  license_key = "VOLQ-1";
  duration_seconds = 86400;
  is_lifetime = false;
  hwid_hash = none;
  max_hwids = 1;
  status = expired;
  activated_at = none;
  expires_at = none;
  last_hwid_reset = none;
  banned_reason = none;
  note = "";
  created_at = "2024-01-01";
}

abbrev pub ada : UserProfile
ada = record {
  id = "d1";
  username = "ada";
  email = "ada@example.com";
  role = developer;
  app_id = none;
  credits = none;
}

abbrev pub end_user : AppUser
end_user = record {
  id = "u1";
  app_id = "a1";
  username = "bob";
  license_id = none;
  hwid_hash = none;
  ip_address = none;
  is_banned = false;
  ban_reason = none;
  created_at = "2024-01-01";
  last_login_at = none;
}

abbrev pub variable : Variable
variable = record {
  id = "v1";
  app_id = "a1";
  var_key = "API";
  var_value = "secret";
  min_tier_level = 0;
  is_secret = true;
  created_at = "2024-01-01";
}

abbrev pub replay_log : SecurityLog
replay_log = record {
  id = 1;
  app_id = "a1";
  event_type = "replay.detected";
  actor_identifier = "bob";
  ip_address = "10.0.0.1";
  details = "";
  created_at = "2024-01-01";
}

abbrev pub browser : Browser
browser = record {
  has_window = true;
  storage = (token_key, "t1") ∷ (selected_key, "a1") ∷ [];
  pathname = "/apps";
  href = none;
  sent = [];
}

abbrev pub at_login : Browser
at_login = record (browser) { storage = []; pathname = "/login" }

-- The session of a developer who has selected the application.
abbrev pub auth : Auth
auth = record {
  user = some ada;
  token = some "t1";
  apps = app ∷ [];
  selected_app = some app;
  is_loading = false;
}

abbrev pub codec : ProfileCodec
codec = record { print = λ user. "{}"; parse = λ text. some ada }

abbrev expired_session : Server
expired_session = server_of (responded 401 (json null))

abbrev pub gone : Server
gone = server_of (responded 200 (app_list []))

abbrev pub down : Server
down = server_of (no_response "ERR_NETWORK" "Network Error")

abbrev pub down_error : ApiError
down_error = record { response = none; code = "ERR_NETWORK"; message = "Network Error" }

abbrev pub show : Value → String
show v = "value"

-- An application that is selected is the stored one.
stored : IsStored (auth, browser)
unfolding get_item
stored = refl

call_session_example :
    (get_item token_key (call expired_session get "/dashboard/apps" undefined browser).1.storage ≡ (
      if expelled expired_session get "/dashboard/apps" undefined browser
        && (token_key === token_key || user_key === token_key)
      then none
      else get_item token_key browser.storage))
    × ((call expired_session get "/dashboard/apps" undefined browser).1.href ≡ (
        if expelled expired_session get "/dashboard/apps" undefined browser
        then some "/login"
        else none))
call_session_example =
    call_session expired_session get "/dashboard/apps" undefined browser token_key

restore_session-login_example :
    let again =
      restore_session gone codec (mounted, (login gone codec "t1" ada (mounted, at_login)).1) in
    (again.0.token ≡ some "t1") × (again.0.user ≡ some ada) × (again.0.is_loading ≡ false)
unfolding includes
restore_session-login_example =
    restore_session-login gone codec "t1" ada (mounted, at_login) refl refl refl refl

logout_lem_example :
    (get_item token_key (logout (auth, browser)).1.storage ≡ none)
    × (get_item user_key (logout (auth, browser)).1.storage ≡ none)
    × (get_item selected_key (logout (auth, browser)).1.storage ≡ none)
    × (attach_token (logout (auth, browser)).1 ≡ none)
    × ((logout (auth, browser)).0.token ≡ none)
    × ((logout (auth, browser)).0.user ≡ none)
    × ((logout (auth, browser)).0.selected_app ≡ none)
logout_lem_example = logout_lem (auth, browser)
