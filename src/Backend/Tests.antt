-- ===== src/Backend/Tests.antt =====
-- The handlers of the server at concrete requests.
use volq_auth.Base.{◌≡◌, refl, true, false, none, some}
use volq_auth.Base.Value.{pos, str, bool, num, undefined, obj, field, end, lookup_field}
use volq_auth.Dashboard.Apps.{pause_body}
use volq_auth.Dashboard.Webhooks.{Webhooks, webhook_body}
use volq_auth.Dashboard.Types.{Application}
use volq_auth.Backend.Update.{App, read_request, apply_request, update_app, is_tampered}
use volq_auth.Backend.Update.Laws.{paused_by, hooked_by, updates-clear}

abbrev guarded : App
guarded = record {
  id = "a1";
  name = "Atom";
  version = "1.0.0";
  download_url = "https://files.example/atom.exe";
  integrity_hash = "e3b0";
  is_paused = false;
  hwid_lock_enabled = true;
  hwid_cooldown_days = pos 3;
  webhook_url = "https://hooks.example/1";
  webhook_enabled = true;
}

-- The same application, as the dashboard shows it.
abbrev app : Application
app = record {
  id = "a1";
  developer_id = "d1";
  name = "Atom";
  master_public_key = "key";
  version = "1.0.0";
  download_url = "https://files.example/atom.exe";
  integrity_hash = "e3b0";
  is_paused = false;
  hwid_lock_enabled = true;
  hwid_cooldown_days = 3;
  webhook_url = "https://hooks.example/1";
  webhook_enabled = true;
  created_at = "2024-01-01";
  updated_at = "2024-01-01";
}

abbrev hook : Webhooks
hook = record { webhook_url = "https://hooks.example/2"; saved = false; loading = false }

updates-clear_example :
    (update_app (pause_body app) guarded ≡ some (paused_by app guarded))
    × (update_app (webhook_body hook) guarded ≡ some (hooked_by hook guarded))
    × (is_tampered (paused_by app guarded) "ffff" ≡ false)
    × (is_tampered (hooked_by hook guarded) "ffff" ≡ false)
updates-clear_example = updates-clear app hook guarded "ffff"

-- The binary was refused before, and a body that is no object, or has a field of another type, is refused.
guarded_before : is_tampered guarded "ffff" ≡ true
unfolding is_tampered
guarded_before = refl

bad_bodies :
    (update_app undefined guarded ≡ none)
    × (update_app (obj (field "is_paused" (str "yes") end)) guarded ≡ none)
    × (update_app (obj (field "webhook_url" (num (pos 1)) end)) guarded ≡ none)
unfolding update_app read_request lookup_field
bad_bodies = (refl, refl, refl)

renamed :
    update_app
      (obj (
        field "name" (str "Ion") (
          field "hwid_cooldown_days"
            (num (pos 7))
            (field "integrity_hash" (str "e3b0") (field "hwid_lock_enabled" (bool false) end)))))
      guarded
    ≡ some (record guarded {
      name = "Ion";
      hwid_cooldown_days = pos 7;
      hwid_lock_enabled = false;
      download_url = "";
      webhook_url = "";
      webhook_enabled = false;
    })
unfolding update_app read_request lookup_field apply_request
renamed = refl
