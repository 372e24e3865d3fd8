-- ===== src/Dashboard/Variables.antt =====
-- frontend/src/app/variables/page.tsx: the remote variables of the selected application.
pub mod Laws
use volq_auth.Base.{
  ℕ, ◌==◌, Bool, true, false, not, Option, none, some, List, [], ◌∷◌, if◌then◌else◌, String, ◌<>◌,
  ◌===◌,
}
use volq_auth.Base.Digits.{to_string}
use volq_auth.Base.Value.{ℤ, Value, undefined, str, bool, num, pos, obj, field, end}
use volq_auth.Dashboard.Types.{Application, Variable}
use volq_auth.Dashboard.Api.{Server, Body, variable_list, get, post, delete}
use volq_auth.Dashboard.Page.{Page, app_path, edit, with_app, fetch, revise}
use volq_auth.Dashboard.Form.{
  Control, Entry, text_input, number_input, check_box, required, enter, press_submit,
}

-- The ids whose flag in `revealed` was set, each with its flag.
abbrev pub Flags : Type 0
Flags = List (String × Bool)

-- `revealed[id]`, where a missing flag counts as false
unfoldable pub flag : Flags → String → Bool
flag [] id = false
flag ((j, b) ∷ fs) id = if j === id then b else flag fs id

-- `{ ...prev, [id]: b }`
unfoldable pub set_flag : String → Bool → Flags → Flags
set_flag id b [] = (id, b) ∷ []
set_flag id b ((j, c) ∷ fs) = if j === id then (id, b) ∷ fs else (j, c) ∷ set_flag id b fs

pub record Variables : Type 0 where
  pub variables : List Variable
  pub modal_open : Bool
  pub var_key : String
  pub var_value : String
  pub min_tier : ℤ
  pub is_secret : Bool
  pub loading : Bool
  pub revealed : Flags

abbrev pub set_loading : Bool → Variables → Variables
set_loading b p = record p { loading = b }

-- `setVariables(res.data || [])`; the endpoint answers with a list or with nothing.
abbrev pub receive : Body → Variables → Variables
receive (variable_list vs) p = record p { variables = vs }
receive _ p = record p { variables = [] }

abbrev pub variables_path : Option Application → String
variables_path o = app_path o <> "/variables"

-- The controls of the form.
unfoldable pub variable_form : Variables → List (Control Variables)
variable_form p =
    text_input "Variable Key (Identifier)" required p.var_key (λ s p. record p { var_key = s })
    ∷ text_input "Variable Value (Plaintext)" required p.var_value
        (λ s p. record p { var_value = s })
    ∷ number_input "Minimum Subscription Tier" (some (pos 0)) (some (pos 10)) false p.min_tier
        (λ z p. record p { min_tier = z })
    ∷ check_box "Protected (Requires valid authenticated session token)" p.is_secret
        (λ b p. record p { is_secret = b })
    ∷ []

abbrev pub show_form : Bool → Variables → Variables
show_form b p = record p { modal_open = b }

-- The body of the form.
unfoldable pub variable_body : Variables → Value
variable_body p = obj (
    field "var_key" (str p.var_key) (
      field "var_value" (str p.var_value)
        (field "min_tier_level" (num p.min_tier) (field "is_secret" (bool p.is_secret) end))))

-- What the form does after its request succeeded.
abbrev pub close_form : Variables → Variables
close_form p = record p { modal_open = false; var_key = ""; var_value = "" }

module _ (server : Server) where
  unfoldable pub fetch_variables : Page Variables → Page Variables
  fetch_variables = with_app λ a. fetch server receive (variables_path (some a))

  -- `handleSaveVariable` after its guard.
  unfoldable pub save_in : Application → Page Variables → Page Variables
  save_in a s = edit (set_loading false) (
      revise server post (variables_path (some a)) (variable_body s.0)
        (λ t. fetch_variables (edit close_form t)) (edit (set_loading true) s))

  unfoldable pub save_variable : Page Variables → Page Variables
  save_variable = with_app save_in

  unfoldable pub delete_variable : Bool → String → Page Variables → Page Variables
  delete_variable confirmed id s =
      if confirmed
      then revise server delete (variables_path s.1.0.selected_app <> "/" <> id) undefined
          fetch_variables s
      else s

unfoldable pub toggle_reveal : String → Variables → Variables
toggle_reveal id p = record p { revealed = set_flag id (not (flag p.revealed id)) p.revealed }

abbrev pub dots : String
dots = "••••••••••••••••••••"

-- The value that the row of a variable shows.
unfoldable pub shown_value : Variables → Variable → String
shown_value p v = if flag p.revealed v.id then v.var_value else dots

-- The words on who can read a variable.
unfoldable pub access_text : Variable → String
access_text v = if v.is_secret then "Protected Session" else "Public"

unfoldable pub tier_text : Variable → String
tier_text v =
    "Tier "
    <> to_string 10 v.min_tier_level
    <> " "
    <> (if v.min_tier_level == 0 then "(Free)" else "(Subscriber)")

-- What can happen on the page.
pub data Event : Type 0 where
  shown saved : Event
  deleted : Bool → String → Event
  revealed_or_hidden : String → Event
  entered : ℕ → Entry → Event
  form_shown : Bool → Event

unfoldable pub handle : Server → Event → Page Variables → Page Variables
handle server shown s = fetch_variables server s
handle server saved s = press_submit variable_form (λ p. p.loading) (save_variable server) s
handle server (deleted confirmed id) s = delete_variable server confirmed id s
handle server (revealed_or_hidden id) s = edit (toggle_reveal id) s
handle server (entered i e) s = edit (enter variable_form i e) s
handle server (form_shown b) s = edit (show_form b) s
