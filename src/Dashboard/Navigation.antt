-- ===== src/Dashboard/Navigation.antt =====
-- frontend/src/components: the side bar, the top bar, the badge of a card and the copying of a code block.
pub mod Laws
use volq_auth.Base.{
  Bool, true, false, not, Option, none, some, List, [], ◌∷◌, ◌++◌, select, if◌then◌else◌, String,
  ◌===◌, ◌<>◌, map, is_empty,
}
use volq_auth.Dashboard.Types.{Application, UserProfile, Role, admin, developer, reseller}
use volq_auth.Dashboard.Auth.{Session, set_selected_app}
use volq_auth.Dashboard.Page.{Page, edit}

-- A link of the side bar, without its icon.
pub record Link : Type 0 where
  pub name : String
  pub href : String

-- A group of `navigationGroups`.
pub record Group : Type 0 where
  pub title : String
  pub items : List Link

abbrev link : String → String → Link
link name href = record { name = name; href = href }

abbrev pub navigation_groups : List Group
navigation_groups =
    record { title = "PLATFORM"; items = link "Dashboard" "/" ∷ link "Applications" "/apps" ∷ [] }
    ∷ record {
      title = "MANAGEMENT";
      items = link "Licenses" "/licenses" ∷ link "End-Users" "/users" ∷ [];
    }
    ∷ record {
      title = "PAYLOADS & STORAGE";
      items =
          link "Variables" "/variables"
          ∷ link "Cloud Files" "/files"
          ∷ link "Webhooks" "/webhooks"
          ∷ [];
    }
    ∷ record {
      title = "ACCESS & AUDIT";
      items =
          link "Resellers" "/resellers"
          ∷ link "Security Logs" "/logs"
          ∷ link "Client SDKs" "/docs"
          ∷ [];
    }
    ∷ []

-- The links of all groups, from the top to the bottom.
abbrev pub links_of : List Group → List Link
links_of [] = []
links_of (g ∷ gs) = g.items ++ links_of gs

-- `pathname === item.href`
abbrev pub is_active : String → Link → Bool
is_active pathname l = pathname === l.href

-- The links that the side bar marks as active.
unfoldable pub active_links : String → List Link
active_links pathname = select (is_active pathname) (links_of navigation_groups)

abbrev pub role_text : Role → String
role_text admin = "admin"
role_text developer = "developer"
role_text reseller = "reseller"

-- The name and the role in the footer.
unfoldable footer : Option UserProfile → String × String
footer none = ("Guest", "Developer")
footer (some u) = (if is_empty u.username then "Guest" else u.username, role_text u.role)

-- The state of the top bar is whether its menu is open.
unfoldable toggle_menu : Page Bool → Page Bool
toggle_menu = edit not

-- A press on an application of the menu.
unfoldable pub choose_app : Application → Page Bool → Page Bool
choose_app a (shows, s) = (false, set_selected_app (some a) s)

-- The link to the applications below them: the menu closes, and the page of the path is shown.
unfoldable follow_apps : Page Bool → Page Bool × String
follow_apps (shows, s) = ((false, s), "/apps")

-- The colour of the dot of an application: whether it is a warning.
abbrev is_warned : Option Application → Bool
is_warned none = false
is_warned (some a) = a.is_paused

-- What the top bar says of the selected application: its name, its version, and whether its dot is a warning.
unfoldable title : Option Application → String × (Option String × Bool)
title none = ("No App Selected", (none, is_warned none))
title (some a) = (a.name, (some ("v" <> a.version), is_warned (some a)))

-- An application in the menu: its name, whether its dot is a warning, and whether it is marked as selected.
abbrev pub entry : Option Application → Application → String × (Bool × Bool)
entry selected_app a = (a.name, (is_warned (some a), is_selected selected_app))
  where
    is_selected : Option Application → Bool
    is_selected none = false
    is_selected (some b) = b.id === a.id

-- The open menu: its entries, or its text where there are none.
unfoldable pub menu : Page Bool → Option (List (String × (Bool × Bool)) × Option String)
menu (shows, s) =
    if shows then some (map (entry s.0.selected_app) s.0.apps, notice s.0.apps) else none
  where
    notice : List Application → Option String
    notice [] = some "No applications created yet"
    notice (a ∷ apps) = none

-- The colours of a card.
pub data Accent : Type 0 where
  success warning danger brand : Accent

-- `getBadgeStyle`
unfoldable pub get_badge_style : String → Accent
get_badge_style accent =
    if accent === "success"
    then success
    else if accent === "warning"
    then warning
    else if accent === "danger"
    then danger
    else brand

-- A block of code: what was copied, and whether it is marked as copied.
pub record CodeBlock : Type 0 where
  pub code : String
  pub copied : Bool
  pub clipboard : Option String

unfoldable handle_copy : CodeBlock → CodeBlock
handle_copy b = record b { clipboard = some b.code; copied = true }

-- The timer of a copy, after 2000 milliseconds.
unfoldable forget_copy : CodeBlock → CodeBlock
forget_copy b = record b { copied = false }
