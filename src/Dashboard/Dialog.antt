-- ===== src/Dashboard/Dialog.antt =====
-- The dialogs of the dashboard: what a page shows over itself while a flag of its state is set, with the
-- buttons and the controls that it renders there, and the header of the page with the button that sets the flag.
pub mod Laws
use volq_auth.Base.{
  ℕ, ◌≡◌, Bool, true, false, Option, none, some, List, [], ◌∷◌, get_elem?, if◌then◌else◌, String,
  ◌<>◌,
}
use volq_auth.Base.Value.{Value, str, truthy}
use volq_auth.Dashboard.Types.{Application}
use volq_auth.Dashboard.Page.{Page, edit}
use volq_auth.Dashboard.Form.{Control, Entry, enter}

-- The heading of a page, the line below it, and the button beside them.
pub record Header : Type 0 where
  pub heading : String
  pub remark : String
  pub button_text : String

-- A button, `disabled` as its attribute says, with its `onClick`, or the `onSubmit` of its form.
pub record Button (M : Type 0) : Type 0 where
  pub text : String
  pub disabled : Bool
  pub press : Page M → Page M

-- The label of the button that opens a dialog, whether the dialog is rendered, and what of it: its title, the texts that
-- are no labels, its controls, its buttons beside the X in its corner. `show` is the handler of the button that opens
-- it, and `hide` that of the X.
pub record Dialog (M : Type 0) : Type 0 where
  pub opener : String
  pub is_shown : M → Bool
  pub title : M → String
  pub notices : Page M → List Value
  pub form : M → List (Control M)
  pub buttons : M → List (Button M)
  pub show : M → M
  pub hide : M → M

-- `{error && <div>{error}</div>}`
abbrev pub error_notice : Value → List Value
error_notice v = if truthy v then v ∷ [] else []

-- `Target App: {selectedApp?.name}`
abbrev pub target_text : Option Application → String
target_text none = "Target App: "
target_text (some a) = "Target App: " <> a.name

-- What the user does with a dialog, but for its buttons: an entry into the control of a number, the X, and the button of
-- the page.
pub data Act : Type 0 where
  entered : ℕ → Entry → Act
  left opened : Act

-- Whether the last of `left` and `opened` is `opened`, where `b` is what counts without any.
abbrev pub stays : Bool → List Act → Bool
stays b [] = b
stays b (entered i e ∷ acts) = stays b acts
stays b (left ∷ acts) = stays false acts
stays b (opened ∷ acts) = stays true acts

-- The entries that find the dialog shown, where `b` is whether it is at first.
abbrev pub taken : Bool → List Act → List (ℕ × Entry)
taken b [] = []
taken true (entered i e ∷ acts) = (i, e) ∷ taken true acts
taken false (entered i e ∷ acts) = taken false acts
taken b (left ∷ acts) = taken false acts
taken b (opened ∷ acts) = taken true acts

module _ {M : Type 0} where
  abbrev press_button : Option (Button M) → Page M → Page M
  press_button none s = s
  press_button (some b) s = if b.disabled then s else b.press s

  -- A press on the button of a number, counted from 0.
  unfoldable pub click : Dialog M → ℕ → Page M → Page M
  click d i s = if d.is_shown s.0 then press_button (get_elem? (d.buttons s.0) i) s else s

  -- The X, which is there while the dialog is.
  unfoldable pub click_x : Dialog M → Page M → Page M
  click_x d s = if d.is_shown s.0 then edit d.hide s else s

  unfoldable pub enter_shown : Dialog M → ℕ → Entry → Page M → Page M
  enter_shown d i e s = if d.is_shown s.0 then edit (enter d.form i e) s else s

  -- Entries into the dialog, one after the other.
  unfoldable pub enter_all : Dialog M → List (ℕ × Entry) → Page M → Page M
  enter_all d [] s = s
  enter_all d ((i, e) ∷ es) s = enter_all d es (enter_shown d i e s)

  unfoldable pub act : Dialog M → Act → Page M → Page M
  act d (entered i e) s = enter_shown d i e s
  act d left s = click_x d s
  act d opened s = edit d.show s

  unfoldable pub act_all : Dialog M → List Act → Page M → Page M
  act_all d [] s = s
  act_all d (a ∷ acts) s = act_all d acts (act d a s)

  -- A dialog that is opened, and then used in any way, is shown where it was opened last, and once it is opened again
  -- the page is as it would be with what was entered while it was shown, had it never been left.
  abbrev pub KeepsDraft : Dialog M → Type 0
  KeepsDraft d =
      (acts : List Act) (s : Page M)
      → (d.is_shown (act_all d acts (edit d.show s)).0 ≡ stays true acts)
        × (edit d.show (act_all d acts (edit d.show s))
            ≡ enter_all d (taken true acts) (edit d.show s))
