-- ===== src/Dashboard/Dialogs/Laws.antt =====
-- What the dialogs of the dashboard keep.
use volq_auth.Base.{
  ℕ, zero, suc, ◌≡◌, refl, Bool, true, false, some, List, [], ◌∷◌, String, get_elem?, map, arith,
}
use volq_auth.Dashboard.Types.{Reseller}
use volq_auth.Dashboard.Api.{Server}
use volq_auth.Dashboard.Page.{Page, edit}
use volq_auth.Dashboard.Form.{Control, text_input, number_input, check_box, Entry, enter, enter_at}
use volq_auth.Dashboard.Dialog.{KeepsDraft, Act, click, click_x, act_all, stays}
use volq_auth.Dashboard.Dialog.Laws.{IsDialog, keeps_draft}
use volq_auth.Dashboard.Variables.{Variables, variable_form}
use volq_auth.Dashboard.Files.{Files, file_form}
use volq_auth.Dashboard.Resellers.{Resellers, reseller_form, credits_form, open_credits}
use volq_auth.Dashboard.Apps.{Apps, app_form, close_copied, open_form, hide_form}
use volq_auth.Dashboard.LicenseModal.{Modal, license_form}
use volq_auth.Dashboard.Dialogs.{
  variable_dialog, file_dialog, reseller_dialog, credits_dialog, app_dialog,
}
use volq_auth.Dashboard.Dialogs.Generate.{
  Opened, open_modal, lift_control, keys_form, license_dialog,
}

variable_dialog-entered :
    (server : Server) (i : ℕ) (e : Entry) (p : Variables)
    → let d = variable_dialog server in
      d.show (d.hide (enter d.form i e (d.show p))) ≡ enter d.form i e (d.show p)
unfolding variable_dialog variable_form enter
variable_dialog-entered server zero e p = ground arith
variable_dialog-entered server (suc zero) e p = ground arith
variable_dialog-entered server (suc (suc zero)) e p = ground arith
variable_dialog-entered server (suc (suc (suc zero))) e p = ground arith
variable_dialog-entered server (suc (suc (suc (suc i)))) e p = refl

variable_dialog-IsDialog : (server : Server) → IsDialog (variable_dialog server)
unfolding variable_dialog
variable_dialog-IsDialog server = record {
  shown = λ p. refl;
  hidden = λ p. refl;
  again = λ p. refl;
  twice = λ p. refl;
  entered = variable_dialog-entered server;
}

file_dialog-entered :
    (server : Server) (i : ℕ) (e : Entry) (p : Files)
    → let d = file_dialog server in
      d.show (d.hide (enter d.form i e (d.show p))) ≡ enter d.form i e (d.show p)
unfolding file_dialog file_form enter
file_dialog-entered server zero e p = ground arith
file_dialog-entered server (suc zero) e p = ground arith
file_dialog-entered server (suc (suc zero)) e p = ground arith
file_dialog-entered server (suc (suc (suc zero))) e p = ground arith
file_dialog-entered server (suc (suc (suc (suc i)))) e p = refl

file_dialog-IsDialog : (server : Server) → IsDialog (file_dialog server)
unfolding file_dialog
file_dialog-IsDialog server = record {
  shown = λ p. refl;
  hidden = λ p. refl;
  again = λ p. refl;
  twice = λ p. refl;
  entered = file_dialog-entered server;
}

reseller_dialog-entered :
    (server : Server) (i : ℕ) (e : Entry) (p : Resellers)
    → let d = reseller_dialog server in
      d.show (d.hide (enter d.form i e (d.show p))) ≡ enter d.form i e (d.show p)
unfolding reseller_dialog reseller_form enter
reseller_dialog-entered server zero e p = ground arith
reseller_dialog-entered server (suc zero) e p = ground arith
reseller_dialog-entered server (suc (suc zero)) e p = ground arith
reseller_dialog-entered server (suc (suc (suc zero))) e p = ground arith
reseller_dialog-entered server (suc (suc (suc (suc i)))) e p = refl

reseller_dialog-IsDialog : (server : Server) → IsDialog (reseller_dialog server)
unfolding reseller_dialog
reseller_dialog-IsDialog server = record {
  shown = λ p. refl;
  hidden = λ p. refl;
  again = λ p. refl;
  twice = λ p. refl;
  entered = reseller_dialog-entered server;
}

credits_dialog-entered :
    (server : Server) (r : Reseller) (i : ℕ) (e : Entry) (p : Resellers)
    → let d = credits_dialog server r in
      d.show (d.hide (enter d.form i e (d.show p))) ≡ enter d.form i e (d.show p)
unfolding credits_dialog credits_form open_credits enter
credits_dialog-entered server r zero e p = ground arith
credits_dialog-entered server r (suc i) e p = refl

credits_dialog-IsDialog : (server : Server) (r : Reseller) → IsDialog (credits_dialog server r)
unfolding credits_dialog open_credits
credits_dialog-IsDialog server r = record {
  shown = λ p. refl;
  hidden = λ p. refl;
  again = λ p. refl;
  twice = λ p. refl;
  entered = credits_dialog-entered server r;
}

app_dialog-entered :
    (server : Server) (is_url : String → Bool) (i : ℕ) (e : Entry) (p : Apps)
    → let d = app_dialog server is_url in
      d.show (d.hide (enter d.form i e (d.show p))) ≡ enter d.form i e (d.show p)
unfolding app_dialog app_form open_form hide_form enter
app_dialog-entered server is_url zero e p = ground arith
app_dialog-entered server is_url (suc zero) e p = ground arith
app_dialog-entered server is_url (suc (suc zero)) e p = ground arith
app_dialog-entered server is_url (suc (suc (suc zero))) e p = ground arith
app_dialog-entered server is_url (suc (suc (suc (suc zero)))) e p = ground arith
app_dialog-entered server is_url (suc (suc (suc (suc (suc zero))))) e p = ground arith
app_dialog-entered server is_url (suc (suc (suc (suc (suc (suc i)))))) e p = refl

app_dialog-IsDialog :
    (server : Server) (is_url : String → Bool) → IsDialog (app_dialog server is_url)
unfolding app_dialog open_form hide_form
app_dialog-IsDialog server is_url = record {
  shown = λ p. refl;
  hidden = λ p. refl;
  again = λ p. refl;
  twice = λ p. refl;
  entered = app_dialog-entered server is_url;
}

lifted-entered :
    (c : Control Modal) (e : Entry) (p : Opened)
    → open_modal true (open_modal false (enter_at (some (lift_control c)) e (open_modal true p)))
      ≡ enter_at (some (lift_control c)) e (open_modal true p)
lifted-entered (text_input label rule value change) e p = ground arith
lifted-entered (number_input label low high disabled value change) e p = ground arith
lifted-entered (check_box label value change) e p = ground arith

form-entered :
    (cs : List (Control Modal)) (i : ℕ) (e : Entry) (p : Opened)
    → open_modal true
        (open_modal false (enter_at (get_elem? (map lift_control cs) i) e (open_modal true p)))
      ≡ enter_at (get_elem? (map lift_control cs) i) e (open_modal true p)
form-entered [] i e p = refl
form-entered (c ∷ cs) zero e p = lifted-entered c e p
form-entered (c ∷ cs) (suc i) e p = form-entered cs i e p

keys_form-entered :
    (keys : List String) (form : List (Control Modal)) (i : ℕ) (e : Entry) (p : Opened)
    → open_modal true
        (open_modal false (enter_at (get_elem? (keys_form keys form) i) e (open_modal true p)))
      ≡ enter_at (get_elem? (keys_form keys form) i) e (open_modal true p)
keys_form-entered [] form i e p = form-entered form i e p
keys_form-entered (key ∷ keys) form i e p = refl

license_dialog-IsDialog :
    (server : Server) (on_success : Page Modal → Page Modal)
    → IsDialog (license_dialog server on_success)
unfolding license_dialog enter
license_dialog-IsDialog server on_success = record {
  shown = λ p. refl;
  hidden = λ p. refl;
  again = λ p. refl;
  twice = λ p. refl;
  entered = λ i e p. keys_form-entered p.modal.generated_keys (license_form p.modal) i e p;
}

-- A dialog of the dashboard that is opened, and then written into, left by its X and opened again in any order, is
-- shown where the last of these that opened or left it opened it; and once it is opened again the page is as it
-- would be with the entries that found the dialog shown, had it never been left. This holds of the dialogs of the
-- variables, the files, the resellers, the credits of each reseller, the applications and the licenses, whatever
-- the server, the browser's test of a URL, and what the page does after keys were generated.
pub dialogs-KeepsDraft :
    (server : Server) (is_url : String → Bool) (on_success : Page Modal → Page Modal) (r : Reseller)
    → KeepsDraft (variable_dialog server)
      × KeepsDraft (file_dialog server)
      × KeepsDraft (reseller_dialog server)
      × KeepsDraft (credits_dialog server r)
      × KeepsDraft (app_dialog server is_url)
      × KeepsDraft (license_dialog server on_success)
dialogs-KeepsDraft server is_url on_success r = (
  keeps_draft (variable_dialog server) (variable_dialog-IsDialog server),
  keeps_draft (file_dialog server) (file_dialog-IsDialog server),
  keeps_draft (reseller_dialog server) (reseller_dialog-IsDialog server),
  keeps_draft (credits_dialog server r) (credits_dialog-IsDialog server r),
  keeps_draft (app_dialog server is_url) (app_dialog-IsDialog server is_url),
  keeps_draft (license_dialog server on_success) (license_dialog-IsDialog server on_success),
)

-- The timer of the button that copies the secret hides a form that was opened after it: where the button is
-- pressed, and the dialog is left by its X, opened again and used in any way, it is shown where it was opened last,
-- until the timer runs.
copied_reopened :
    (server : Server) (is_url : String → Bool) (acts : List Act) (s : Page Apps)
    → let d = app_dialog server is_url in
      let t = act_all d acts (edit d.show (click_x d (click d 0 s))) in
      (d.is_shown t.0 ≡ stays true acts) × (d.is_shown (close_copied t.0) ≡ false)
unfolding close_copied app_dialog
copied_reopened server is_url acts s =
    let d = app_dialog server is_url in
    let closed = click_x d (click d 0 s) in
    ((keeps_draft d (app_dialog-IsDialog server is_url) acts closed).0, refl)
