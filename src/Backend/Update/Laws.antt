-- ===== src/Backend/Update/Laws.antt =====
-- What the requests of the dashboard change of an application.
use volq_auth.Base.{◌≡◌, refl, false, not, some, String, is_empty, arith}
use volq_auth.Dashboard.Types.{Application}
use volq_auth.Dashboard.Apps.{pause_body}
use volq_auth.Dashboard.Webhooks.{Webhooks, webhook_body}
use volq_auth.Base.Value.{lookup_field}
use volq_auth.Backend.Update.{App, read_request, apply_request, update_app, is_tampered}

-- What the server has of an application after the dashboard paused or resumed it.
abbrev pub paused_by : Application → App → App
paused_by a stored = record stored {
  is_paused = not a.is_paused;
  download_url = "";
  integrity_hash = "";
  webhook_url = "";
  webhook_enabled = false;
}

-- What the server has of it after the form of its webhook was saved.
abbrev pub hooked_by : Webhooks → App → App
hooked_by p stored = record stored {
  download_url = "";
  integrity_hash = "";
  webhook_url = p.webhook_url;
  webhook_enabled = not (is_empty p.webhook_url);
}

-- The server accepts what the dashboard sends where an application is paused or resumed, and where its webhook is
-- saved, and clears more than was asked for: after either, the application has no hash of the client and no address of
-- its download, so that no client is refused for its binary, and after the first it has no webhook. Its id, its name,
-- its version and the lock of the devices stay, and so does its pause where the webhook is saved.
pub updates-clear :
    (a : Application) (p : Webhooks) (stored : App) (binary_hash : String)
    → (update_app (pause_body a) stored ≡ some (paused_by a stored))
      × (update_app (webhook_body p) stored ≡ some (hooked_by p stored))
      × (is_tampered (paused_by a stored) binary_hash ≡ false)
      × (is_tampered (hooked_by p stored) binary_hash ≡ false)
unfolding update_app pause_body read_request lookup_field apply_request is_tampered
updates-clear a p stored binary_hash = (ground arith, ground arith, refl, refl)
