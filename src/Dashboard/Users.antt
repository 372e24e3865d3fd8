-- ===== src/Dashboard/Users.antt =====
-- frontend/src/app/users/page.tsx: the end users of the selected application.
pub mod Laws
use volq_auth.Base.{
  Bool, true, false, not, Option, none, some, List, [], ◌∷◌, or_default, if◌then◌else◌, String,
  ◌<>◌, is_empty,
}
use volq_auth.Base.Value.{Value, undefined, null, str, bool, obj, field, end}
use volq_auth.Dashboard.Types.{Application, AppUser}
use volq_auth.Dashboard.Api.{Server, Body, user_page, json, get, put, delete}
use volq_auth.Dashboard.Page.{Page, app_path, edit, with_app, fetch, revise}

pub record Users : Type 0 where
  pub users : List AppUser
  pub search : String
  pub loading : Bool

abbrev pub set_loading : Bool → Users → Users
set_loading b p = record p { loading = b }

-- `setUsers(res.data.users || [])`, which throws on an empty body
abbrev pub receive : Body → Users → Users
receive (user_page users total) p = record p { users = or_default users [] }
receive (json undefined) p = p
receive (json null) p = p
receive _ p = record p { users = [] }

abbrev pub list_path : Application → Users → String
list_path a p = app_path (some a) <> "/users?search=" <> p.search <> "&limit=100"

abbrev pub user_path : Option Application → String → String
user_path o id = app_path o <> "/users/" <> id

-- The body of the request that turns the ban of a user over.
unfoldable pub ban_body : AppUser → Value
ban_body u =
    let reason = if not u.is_banned then str "Banned by administrator" else null in
    obj (field "is_banned" (bool (not u.is_banned)) (field "reason" reason end))

module _ (server : Server) where
  unfoldable pub load : Application → Page Users → Page Users
  load a s =
      edit (set_loading false) (fetch server receive (list_path a s.0) (edit (set_loading true) s))

  unfoldable pub fetch_users : Page Users → Page Users
  fetch_users = with_app load

  unfoldable pub toggle_ban : AppUser → Page Users → Page Users
  toggle_ban u s =
      revise server put (user_path s.1.0.selected_app u.id <> "/ban") (ban_body u) fetch_users s

  unfoldable pub delete_user : Bool → String → Page Users → Page Users
  delete_user confirmed id s =
      if confirmed
      then revise server delete (user_path s.1.0.selected_app id) undefined fetch_users s
      else s

-- What the row of a user says: its status, its lock, its address, its last login and the titles of its
-- first button. `time_text` is `toLocaleString` of the parsed time.
pub record Row : Type 0 where
  pub status : String
  pub lock : String
  pub address : String
  pub last_seen : String
  pub ban_title : String

-- `v ? f(v) : d`
abbrev shown_or : Option String → (String → String) → String → String
shown_or none f d = d
shown_or (some v) f d = if is_empty v then d else f v

unfoldable pub row : (String → String) → AppUser → Row
row time_text u = record {
  status = if u.is_banned then "Banned" else "Active";
  lock = shown_or u.hwid_hash (λ v. v) "None";
  address = shown_or u.ip_address (λ v. v) "Never";
  last_seen = shown_or u.last_login_at time_text "Never";
  ban_title = if u.is_banned then "Unban User" else "Ban User";
}

-- What can happen on the page.
pub data Event : Type 0 where
  shown : Event
  searched : String → Event
  toggled : AppUser → Event
  deleted : Bool → String → Event

unfoldable pub handle : Server → Event → Page Users → Page Users
handle server shown s = fetch_users server s
handle server (searched text) s = fetch_users server (edit (λ p. record p { search = text }) s)
handle server (toggled u) s = toggle_ban server u s
handle server (deleted confirmed id) s = delete_user server confirmed id s
