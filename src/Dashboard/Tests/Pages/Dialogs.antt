-- ===== src/Dashboard/Tests/Pages/Dialogs.antt =====
-- The theorem on the dialogs at concrete pages, and what they render there.
use volq_auth.Base.{◌≡◌, refl, Bool, true, false, none, some, [], ◌∷◌, map, starts_with, String}
use volq_auth.Base.Digits.{to_string}
use volq_auth.Base.Value.{pos, str}
use volq_auth.Dashboard.Types.{Reseller}
use volq_auth.Dashboard.Page.{Page, edit}
use volq_auth.Dashboard.Form.{written, enter}
use volq_auth.Dashboard.Apps.{Apps, app_form, copy_secret, open_form, hide_form, close_copied}
use volq_auth.Dashboard.LicenseModal.{initial, clear_keys}
use volq_auth.Dashboard.Dialog.{click, click_x, enter_shown, enter_all, KeepsDraft}
use volq_auth.Dashboard.Dialogs.{
  variable_dialog, file_dialog, reseller_dialog, credits_dialog, app_dialog,
}
use volq_auth.Dashboard.Dialogs.Generate.{Opened, license_dialog}
use volq_auth.Dashboard.Dialogs.Laws.{dialogs-KeepsDraft}
use volq_auth.Dashboard.Tests.{browser, auth, down}
use volq_auth.Dashboard.Tests.Pages.{vault}
use volq_auth.Dashboard.Variables.{Variables}

abbrev is_web : String → Bool
is_web s = starts_with s "https://"

abbrev partner : Reseller
partner = record {
  id = "r1";
  developer_id = "d1";
  app_id = "a1";
  username = "shop";
  credits = pos 100;
  can_reset_hwid = false;
  is_active = true;
  created_at = "2024-01-01";
}

dialogs-KeepsDraft_example :
    KeepsDraft (variable_dialog down)
    × KeepsDraft (file_dialog down)
    × KeepsDraft (reseller_dialog down)
    × KeepsDraft (credits_dialog down partner)
    × KeepsDraft (app_dialog down is_web)
    × KeepsDraft (license_dialog down (λ s. s))
dialogs-KeepsDraft_example = dialogs-KeepsDraft down is_web (λ s. s) partner

-- The page of the applications after one was created.
abbrev created : Apps
created = record {
  modal_open = true;
  name = "Atom";
  version = "1.0.0";
  integrity_hash = "";
  download_url = "";
  webhook_url = "";
  hwid_lock = true;
  cooldown_days = pos 7;
  loading = false;
  error = str "";
  created_secret = some "s3cr3t";
  copied = false;
  clipboard = none;
}

-- The form that is opened before the timer of the copied secret runs is hidden by it.
created_copied :
    let d = app_dialog down is_web in
    let t =
      enter_all d
        ((0, written "Loader") ∷ [])
        (edit d.show (click_x d (click d 0 (created, (auth, browser))))) in
    (t.0.clipboard ≡ some "s3cr3t")
    × (t.0.name ≡ "Loader")
    × (d.is_shown t.0 ≡ true)
    × (d.is_shown (close_copied t.0) ≡ false)
unfolding enter_all enter_shown enter click_x click app_dialog close_copied copy_secret open_form
    hide_form app_form
created_copied = (refl, refl, refl, refl)

-- The keys that were generated stay where the dialog is left by its X, until `Done`.
abbrev generated : Opened
generated = record { modal = record initial { generated_keys = "VOLQ-1" ∷ [] }; is_open = true }

generated_left :
    let d = license_dialog down (λ s. s) in
    let s : Page Opened = (generated, (auth, browser)) in
    (d.notices (edit d.show (click_x d s))
      ≡ str "Target App: Atom" ∷ str "Successfully generated 1 license key(s)!" ∷ str "VOLQ-1" ∷ [])
    × (d.notices (edit d.show (click d 1 s))
        ≡ str "Target App: Atom" ∷ str "Preview pattern: VOLQ-XXXX-XXXX-XXXX" ∷ [])
unfolding click_x click license_dialog clear_keys to_string
generated_left = (refl, refl)

-- A button that is disabled does nothing.
busy_stays :
    let d = variable_dialog down in
    let s : Page Variables =
      (record vault { modal_open = true; loading = true }, (auth, browser)) in
    (map (λ b. b.text) (d.buttons s.0) ≡ "Cancel" ∷ "Saving..." ∷ [])
    × (click d 1 s ≡ s)
    × (d.is_shown (click d 0 s).0 ≡ false)
unfolding click variable_dialog
busy_stays = (refl, refl, refl)
