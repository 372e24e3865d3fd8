-- ===== src/Dashboard/Dialogs/Generate.antt =====
-- frontend/src/components/LicenseModal.tsx as the pages of the licenses and of the overview show it: the state
-- of the form, which outlives the dialog, beside the flag of the page, which is its `isOpen`.
use volq_auth.Base.{Bool, true, false, List, [], ◌∷◌, ◌++◌, map, String}
use volq_auth.Base.Value.{Value, str}
use volq_auth.Dashboard.Api.{Server}
use volq_auth.Dashboard.Page.{Page, edit}
use volq_auth.Dashboard.Form.{Control, text_input, number_input, check_box}
use volq_auth.Dashboard.Dialog.{Button, Dialog, error_notice, target_text}
use volq_auth.Dashboard.LicenseModal.{
  Modal, license_form, press_generate, copy_to_clipboard, clear_keys, mask_text, copy_text,
  generate_text, success_text,
}

pub record Opened : Type 0 where
  pub modal : Modal
  pub is_open : Bool

abbrev pub open_modal : Bool → Opened → Opened
open_modal b p = record p { is_open = b }

abbrev pub in_modal : (Modal → Modal) → Opened → Opened
in_modal f p = record p { modal = f p.modal }

-- A control of the form over the state with the flag.
abbrev pub lift_control : Control Modal → Control Opened
lift_control (text_input label rule value change) =
    text_input label rule value (λ s. in_modal (change s))
lift_control (number_input label low high disabled value change) =
    number_input label low high disabled value (λ z. in_modal (change z))
lift_control (check_box label value change) = check_box label value (λ b. in_modal (change b))

-- What the dialog has of the form while there are no keys to show.
abbrev pub keys_form : List String → List (Control Modal) → List (Control Opened)
keys_form [] form = map lift_control form
keys_form (key ∷ keys) form = []

abbrev form_notices : Modal → List Value
form_notices m = error_notice m.error ++ (str (mask_text m) ∷ [])

abbrev keys_notices : Modal → List String → List Value
keys_notices m [] = form_notices m
keys_notices m (key ∷ keys) = str (success_text m) ∷ str key ∷ map str keys

-- A press on the button of the form, which leaves the flag.
abbrev lift_press : (Page Modal → Page Modal) → Page Opened → Page Opened
lift_press press (p, session) =
    let (m, session') = press (p.modal, session) in (record p { modal = m }, session')

module _ (server : Server) (on_success : Page Modal → Page Modal) where
  abbrev keys_buttons : Modal → List String → List (Button Opened)
  keys_buttons m [] =
      record { text = "Cancel"; disabled = false; press = edit (open_modal false) }
      ∷ record {
        text = generate_text m;
        disabled = m.loading;
        press = lift_press (press_generate server on_success);
      }
      ∷ []
  keys_buttons m (key ∷ keys) =
      record { text = copy_text m; disabled = false; press = edit (in_modal copy_to_clipboard) }
      ∷ record {
        text = "Done";
        disabled = false;
        press = edit (λ p. open_modal false (in_modal clear_keys p));
      }
      ∷ []

  unfoldable pub license_dialog : Dialog Opened
  license_dialog = record {
    opener = "Generate Keys";
    is_shown = λ p. p.is_open;
    title = λ p. "Generate License Keys";
    notices =
        λ s. str (target_text s.1.0.selected_app) ∷ keys_notices s.0.modal s.0.modal.generated_keys;
    form = λ p. keys_form p.modal.generated_keys (license_form p.modal);
    buttons = λ p. keys_buttons p.modal p.modal.generated_keys;
    show = open_modal true;
    hide = open_modal false;
  }
