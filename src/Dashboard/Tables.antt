-- ===== src/Dashboard/Tables.antt =====
-- The tables of the pages: what each says in the rows of its items, and what it says instead where it has none.
pub mod Laws
use volq_auth.Base.{
  ℕ, Option, none, some, List, [], ◌∷◌, ◌++◌, map, select, if◌then◌else◌, String, ◌<>◌, is_empty,
}
use volq_auth.Base.Digits.{to_string}
use volq_auth.Base.ParseInt.{print_int}
use volq_auth.Dashboard.Types.{
  Application, License, AppUser, Variable, FilePayload, Reseller, SecurityLog,
}
use volq_auth.Dashboard.Licenses.{Licenses, status_text}
use volq_auth.Dashboard.Licenses.Row.{
  Button, pause, resume, ban, unban, has_button, has_reset, duration_text, expiry_text,
}
use volq_auth.Dashboard.Users
use volq_auth.Dashboard.Users.{Users}
use volq_auth.Dashboard.Variables.{Variables, shown_value, access_text, tier_text}
use volq_auth.Dashboard.Files.{Files}
use volq_auth.Dashboard.Resellers.{Resellers, permission_text, status_word}
use volq_auth.Dashboard.Apps.{lock_text, state_text, is_selected}
use volq_auth.Dashboard.Logs.{Logs, actor_text}
use volq_auth.Dashboard.Overview.{Overview}

-- What the browser makes of a time, and the first two characters of a name in capitals.
pub record Formats : Type 0 where
  pub date_text : String → String
  pub time_text : String → String
  pub date_time_text : String → String
  pub initials : String → String
  pub days_text : ℕ → String

-- A cell is the texts that it shows and the titles of its buttons.
abbrev pub Cell : Type 0
Cell = List String

pub record Table : Type 0 where
  pub headings : List String
  pub rows : List (List Cell)
  pub notice : Option String

-- `xs.map(…)`, and the row that stands there where `xs.length === 0`.
abbrev pub table_of {ℓ} : {A : Type ℓ} → List String → (A → List Cell) → String → List A → Table
table_of headings row notice [] = record { headings = headings; rows = []; notice = some notice }
table_of headings row notice (x ∷ xs) = record {
  headings = headings;
  rows = row x ∷ map row xs;
  notice = none;
}

-- `text && <div>{text}</div>`
abbrev when_filled : String → Cell
when_filled s = if is_empty s then [] else s ∷ []

abbrev hash_of : Option String → String
hash_of none = ""
hash_of (some s) = s

abbrev title : Button → String
title pause = "Pause License"
title resume = "Resume License"
title ban = "Ban License"
title unban = "Unban License"

unfoldable pub license_row : Formats → License → List Cell
license_row formats l =
    (l.license_key ∷ "Copy Key" ∷ when_filled l.note)
    ∷ (status_text l.status ∷ [])
    ∷ (l.subscription_name ∷ duration_text formats.days_text l ∷ [])
    ∷ (if has_reset l then hash_of l.hwid_hash ∷ "Reset Hardware Lock" ∷ [] else "Unbound" ∷ [])
    ∷ (expiry_text formats.date_text l ∷ [])
    ∷ (map title (select (has_button l.status) (pause ∷ resume ∷ ban ∷ unban ∷ []))
        ++ "Delete License" ∷ [])
    ∷ []

unfoldable pub license_table : Formats → Licenses → Table
license_table formats p =
    table_of
      ("LICENSE KEY" ∷ "STATUS" ∷ "TIER / DURATION" ∷ "BOUND HWID" ∷ "EXPIRES AT" ∷ "ACTIONS" ∷ [])
      (license_row formats)
      (if p.loading then "Loading licenses..." else "No licenses found for this filter.") p.licenses

unfoldable pub user_row : Formats → AppUser → List Cell
user_row formats u =
    let r : Users.Row = Users.row formats.date_time_text u in
    (formats.initials u.username ∷ u.username ∷ [])
    ∷ (r.status ∷ [])
    ∷ (r.lock ∷ [])
    ∷ (r.address ∷ [])
    ∷ (r.last_seen ∷ [])
    ∷ (r.ban_title ∷ "Delete User" ∷ [])
    ∷ []

unfoldable pub user_table : Formats → Users → Table
user_table formats p =
    table_of ("USERNAME" ∷ "STATUS" ∷ "BOUND HWID" ∷ "LAST LOGIN IP" ∷ "LAST SEEN" ∷ "ACTIONS" ∷ [])
      (user_row formats)
      (if p.loading then "Loading users..." else "No users registered under this application yet.")
      p.users

unfoldable pub variable_row : Variables → Variable → List Cell
variable_row p v =
    (v.var_key ∷ [])
    ∷ (shown_value p v ∷ [])
    ∷ (access_text v ∷ [])
    ∷ (tier_text v ∷ [])
    ∷ ("Delete Variable" ∷ [])
    ∷ []

unfoldable pub variable_table : Variables → Table
variable_table p =
    table_of ("VARIABLE KEY" ∷ "VALUE" ∷ "ACCESS LEVEL" ∷ "MIN TIER" ∷ "ACTIONS" ∷ [])
      (variable_row p) "No remote variables defined. Click \"Create Variable\" to add one."
      p.variables

unfoldable pub file_row : FilePayload → List Cell
file_row f =
    (f.file_name ∷ [])
    ∷ (f.r2_storage_key ∷ [])
    ∷ (f.sha256_hash ∷ [])
    ∷ (("Tier " <> to_string 10 f.min_tier_level <> "+") ∷ [])
    ∷ ("Delete File" ∷ [])
    ∷ []

unfoldable pub file_table : Files → Table
file_table p =
    table_of ("FILE NAME" ∷ "STORAGE KEY (R2)" ∷ "SHA-256 HASH" ∷ "MIN TIER" ∷ "ACTIONS" ∷ [])
      file_row "No files hosted yet. Add your first DLL or payload binary." p.files

unfoldable pub reseller_row : Formats → Reseller → List Cell
reseller_row formats r =
    (formats.initials r.username ∷ r.username ∷ [])
    ∷ ((print_int r.credits <> " Credits") ∷ [])
    ∷ (permission_text r ∷ [])
    ∷ (status_word r ∷ [])
    ∷ ("Adjust Credits" ∷ [])
    ∷ []

unfoldable pub reseller_table : Formats → Resellers → Table
reseller_table formats p =
    table_of
      ("RESELLER USERNAME" ∷ "CREDITS BALANCE" ∷ "HWID RESET PERM" ∷ "STATUS" ∷ "ACTIONS" ∷ [])
      (reseller_row formats)
      "No reseller accounts configured. Click \"Add Reseller Account\" to issue vendor access."
      p.resellers

unfoldable pub app_row : Formats → Option Application → Application → List Cell
app_row formats selected a =
    (a.name ∷ (if is_selected selected a then "Active" ∷ [] else [])
      ++ ("Created " <> formats.date_text a.created_at) ∷ [])
    ∷ (a.id ∷ [])
    ∷ (("v" <> a.version) ∷ [])
    ∷ (lock_text a ∷ [])
    ∷ (state_text a ∷ [])
    ∷ ("Select" ∷ (if a.is_paused then "Resume App" else "Pause App") ∷ "Delete App" ∷ [])
    ∷ []

unfoldable pub app_table : Formats → Option Application → List Application → Table
app_table formats selected apps =
    table_of
      ("NAME / WORKSPACE" ∷ "APPLICATION ID" ∷ "VERSION" ∷ "HWID LOCK" ∷ "STATUS" ∷ "ACTIONS" ∷ [])
      (app_row formats selected)
      "No applications created yet. Click \"Create Application\" to get started." apps

unfoldable pub log_row : Formats → SecurityLog → List Cell
log_row formats l =
    (l.event_type ∷ [])
    ∷ (actor_text l ∷ [])
    ∷ (l.ip_address ∷ [])
    ∷ (l.details ∷ [])
    ∷ (formats.date_time_text l.created_at ∷ [])
    ∷ []

unfoldable pub log_table : Formats → Logs → Table
log_table formats p =
    table_of ("EVENT TYPE" ∷ "ACTOR / LICENSE KEY" ∷ "CLIENT IP" ∷ "DETAILS" ∷ "TIMESTAMP" ∷ [])
      (log_row formats)
      (if p.loading
        then "Fetching audit logs..."
        else "No security events recorded. The system is clean.")
      p.logs

unfoldable pub recent_row : Formats → SecurityLog → List Cell
recent_row formats l =
    (l.event_type ∷ [])
    ∷ (actor_text l ∷ [])
    ∷ (l.ip_address ∷ [])
    ∷ (formats.time_text l.created_at ∷ [])
    ∷ []

unfoldable pub recent_table : Formats → Overview → Table
recent_table formats p =
    table_of ("EVENT TYPE" ∷ "ACTOR / KEY" ∷ "IP ADDRESS" ∷ "TIMESTAMP" ∷ []) (recent_row formats)
      "No security events recorded yet. All systems secure." p.recent_logs
