-- ===== src/Dashboard/Resellers.antt =====
-- frontend/src/app/resellers/page.tsx: the resellers of the selected application and their credits.
pub mod Laws
use volq_auth.Base.{
  ℕ, Bool, true, false, Option, none, some, List, [], ◌∷◌, if◌then◌else◌, String, ◌<>◌,
}
use volq_auth.Base.Digits.{to_string}
use volq_auth.Base.Value.{ℤ, pos, negsuc, Value, undefined, str, num, bool, obj, field, end}
use volq_auth.Dashboard.Types.{Application, Reseller}
use volq_auth.Dashboard.Api.{Server, Body, reseller_list, get, post}
use volq_auth.Dashboard.Page.{Page, app_path, edit, with_app, fetch, revise}
use volq_auth.Dashboard.Form.{
  Control, Entry, text_input, number_input, check_box, required, enter, press_submit,
}

pub record Resellers : Type 0 where
  pub resellers : List Reseller
  pub modal_open : Bool
  pub credit_modal_open : Bool
  pub selected_reseller : Option Reseller
  pub username : String
  pub password : String
  pub credits : ℤ
  pub can_reset_hwid : Bool
  pub credit_adjustment : ℤ
  pub loading : Bool

abbrev pub set_loading : Bool → Resellers → Resellers
set_loading b p = record p { loading = b }

-- `setResellers(res.data || [])`; the endpoint answers with a list or with nothing.
abbrev pub receive : Body → Resellers → Resellers
receive (reseller_list rs) p = record p { resellers = rs }
receive _ p = record p { resellers = [] }

abbrev pub resellers_path : Application → String
resellers_path a = app_path (some a) <> "/resellers"

-- The controls of both forms.
unfoldable pub reseller_form : Resellers → List (Control Resellers)
reseller_form p =
    text_input "Reseller Username" required p.username (λ s p. record p { username = s })
    ∷ text_input "Temporary Password" required p.password (λ s p. record p { password = s })
    ∷ number_input "Initial Credits (1 Credit = 1 Day)" (some (pos 0)) none false p.credits
        (λ z p. record p { credits = z })
    ∷ check_box "Allow reseller to reset HWID for their customers" p.can_reset_hwid
        (λ b p. record p { can_reset_hwid = b })
    ∷ []

unfoldable pub credits_form : Resellers → List (Control Resellers)
credits_form p =
    number_input "Credits to Add (Use negative to deduct)" none none false p.credit_adjustment
      (λ z p. record p { credit_adjustment = z })
    ∷ []

abbrev pub show_form : Bool → Resellers → Resellers
show_form b p = record p { modal_open = b }

abbrev pub hide_credits : Resellers → Resellers
hide_credits p = record p { credit_modal_open = false }

unfoldable pub reseller_body : Resellers → Value
reseller_body p = obj (
    field "username" (str p.username) (
      field "password" (str p.password)
        (field "credits" (num p.credits) (field "can_reset_hwid" (bool p.can_reset_hwid) end))))

abbrev pub credits_body : Resellers → Value
credits_body p = obj (field "credits_to_add" (num p.credit_adjustment) end)

-- What the first form does after its request succeeded.
abbrev pub close_form : Resellers → Resellers
close_form p = record p { modal_open = false; username = ""; password = "" }

abbrev pub close_credits : Resellers → Resellers
close_credits p = record p { credit_modal_open = false }

module _ (server : Server) where
  unfoldable pub fetch_resellers : Page Resellers → Page Resellers
  fetch_resellers = with_app λ a. fetch server receive (resellers_path a)

  -- `handleCreateReseller` after its guard.
  unfoldable pub create_in : Application → Page Resellers → Page Resellers
  create_in a s = edit (set_loading false) (
      revise server post (resellers_path a <> "/create") (reseller_body s.0)
        (λ t. fetch_resellers (edit close_form t)) (edit (set_loading true) s))

  unfoldable pub create_reseller : Page Resellers → Page Resellers
  create_reseller = with_app create_in

  -- `handleAdjustCredits` after its guard.
  unfoldable pub adjust_in : Reseller → Application → Page Resellers → Page Resellers
  adjust_in r a s = edit (set_loading false) (
      revise server post (resellers_path a <> "/" <> r.id <> "/credits") (credits_body s.0)
        (λ t. fetch_resellers (edit close_credits t)) (edit (set_loading true) s))

  unfoldable pub adjust_credits : Page Resellers → Page Resellers
  adjust_credits s = elim s.0.selected_reseller [ none ↦ s | some r ↦ with_app (adjust_in r) s ]

-- The button of a row.
unfoldable pub open_credits : Reseller → Resellers → Resellers
open_credits r p = record p { selected_reseller = some r; credit_modal_open = true }

-- What the row of a reseller says of its permission and of its status.
unfoldable pub permission_text : Reseller → String
permission_text r = if r.can_reset_hwid then "Allowed" else "Disabled"

unfoldable pub status_word : Reseller → String
status_word r = "Active"

-- What can happen on the page.
pub data Event : Type 0 where
  shown created adjusted : Event
  picked : Reseller → Event
  entered : ℕ → Entry → Event
  entered_credits : ℕ → Entry → Event
  form_shown : Bool → Event
  credits_hidden : Event

unfoldable pub handle : Server → Event → Page Resellers → Page Resellers
handle server shown s = fetch_resellers server s
handle server created s = press_submit reseller_form (λ p. p.loading) (create_reseller server) s
handle server adjusted s = press_submit credits_form (λ p. p.loading) (adjust_credits server) s
handle server (picked r) s = edit (open_credits r) s
handle server (entered i e) s = edit (enter reseller_form i e) s
handle server (entered_credits i e) s = edit (enter credits_form i e) s
handle server (form_shown b) s = edit (show_form b) s
handle server credits_hidden s = edit hide_credits s
