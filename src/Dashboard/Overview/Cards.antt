-- ===== src/Dashboard/Overview/Cards.antt =====
-- The cards of the overview, and the box with the credentials of the selected application.
use volq_auth.Base.{
  ℕ, ltb, Bool, false, Option, none, some, List, [], ◌∷◌, length, if◌then◌else◌, String, ◌<>◌,
  ◌===◌, is_empty,
}
use volq_auth.Base.Digits.{to_string}
use volq_auth.Dashboard.Types.{Application}
use volq_auth.Dashboard.Navigation.{Accent, get_badge_style}
use volq_auth.Dashboard.Overview.{Stats, Overview}

-- The properties of a `StatCard`.
pub record Card : Type 0 where
  pub title : String
  pub value : ℕ
  pub subtitle : String
  pub accent : Accent

unfoldable cards : List Application → Stats → List Card
cards apps stats =
    record {
      title = "Total Applications";
      value = length apps;
      subtitle = "Scoped workspaces";
      accent = get_badge_style "brand";
    }
    ∷ record {
      title = "Active Licenses";
      value = stats.active_licenses;
      subtitle = to_string 10 stats.total_licenses <> " Total generated";
      accent = get_badge_style "success";
    }
    ∷ record {
      title = "Registered End-Users";
      value = stats.total_users;
      subtitle = "Mode B accounts";
      accent = get_badge_style "brand";
    }
    ∷ record {
      title = "Security Events";
      value = stats.recent_alerts;
      subtitle = "Tamper & replay guard";
      accent = get_badge_style (if ltb 0 stats.recent_alerts then "danger" else "success");
    }
    ∷ []

-- One field of the box: its label, the word beside it, the text below, and whether its button shows the mark of a copy.
pub record Credential : Type 0 where
  pub label : String
  pub text : String
  pub is_copied : Bool

abbrev marked : Option String → String → Bool
marked none field = false
marked (some copied) field = copied === field

pub record Box : Type 0 where
  pub state : String
  pub version : String
  pub fields : List Credential

unfoldable pub credentials : Option Application → Overview → Option Box
credentials none p = none
credentials (some a) p = some (record {
  state = if a.is_paused then "Paused" else "Active";
  version = "v" <> a.version;
  fields =
      record {
        label = "Application ID (UUID)";
        text = a.id;
        is_copied = marked p.copied_field "app_id";
      }
      ∷ record {
        label = "Version & Integrity Hash";
        text =
            if is_empty a.integrity_hash
            then "None (Integrity check disabled)"
            else a.integrity_hash;
        is_copied = false;
      }
      ∷ record {
        label = "Master Public Key (Ed25519)";
        text = a.master_public_key;
        is_copied = marked p.copied_field "pub_key";
      }
      ∷ [];
})

-- The words of the header.
unfoldable pub workspace_text : Option Application → String
workspace_text none = "No app selected"
workspace_text (some a) = a.name
