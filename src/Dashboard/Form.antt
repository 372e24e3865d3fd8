-- ===== src/Dashboard/Form.antt =====
-- A form of the dashboard: its controls as they are rendered from the state of a page, each with its
-- handler, what a change of one does, and what the browser asks of them before it submits the form.
pub mod Laws
use volq_auth.Base.{
  ℕ, zero, suc, ◌≡◌, leb, Bool, true, false, not, ◌&&◌, Option, none, some, List, [], ◌∷◌, map,
  get_elem?, if◌then◌else◌, String, is_empty,
}
use volq_auth.Base.Value.{ℤ, pos, negsuc}
use volq_auth.Dashboard.Page.{Page}

-- What a control shows, or the user enters into it. A control for numbers gives `Number` of its text, which is 0 when it
-- is empty.
pub data Entry : Type 0 where
  written : String → Entry
  counted : ℤ → Entry
  ticked : Bool → Entry

-- The label of a control, what its `type` and its attributes ask of its value, the value, and its `onChange`. A control
-- for numbers has a `min`, a `max` and its `disabled`.
pub data Control (M : Type 0) : Type 0 where
  text_input : String → (String → Bool) → String → (String → M → M) → Control M
  number_input : String → Option ℤ → Option ℤ → Bool → ℤ → (ℤ → M → M) → Control M
  check_box : String → Bool → (Bool → M → M) → Control M

-- `required`, or nothing
abbrev pub required : String → Bool
required s = not (is_empty s)

abbrev pub optional : String → Bool
optional s = true

abbrev pub int_le : ℤ → ℤ → Bool
int_le (pos m) (pos n) = leb m n
int_le (pos m) (negsuc n) = false
int_le (negsuc m) (pos n) = true
int_le (negsuc m) (negsuc n) = leb n m

abbrev at_least : Option ℤ → ℤ → Bool
at_least none z = true
at_least (some bound) z = int_le bound z

abbrev at_most : Option ℤ → ℤ → Bool
at_most none z = true
at_most (some bound) z = int_le z bound

-- `xs[i] = v`; a write out of bounds changes nothing.
abbrev pub set {ℓ} : {A : Type ℓ} → List A → ℕ → A → List A
set [] i v = []
set (x ∷ xs) zero v = v ∷ xs
set (x ∷ xs) (suc i) v = x ∷ set xs i v

module _ {M : Type 0} where
  abbrev pub value_of : Control M → Entry
  value_of (text_input label rule value change) = written value
  value_of (number_input label low high disabled value change) = counted value
  value_of (check_box label value change) = ticked value

  -- Whether the control takes the entry: it has its kind, and is not disabled.
  abbrev pub accepts : Control M → Entry → Bool
  accepts (text_input label rule value change) (written s) = true
  accepts (text_input label rule value change) (counted z) = false
  accepts (text_input label rule value change) (ticked b) = false
  accepts (number_input label low high disabled value change) (written s) = false
  accepts (number_input label low high disabled value change) (counted z) = not disabled
  accepts (number_input label low high disabled value change) (ticked b) = false
  accepts (check_box label value change) (written s) = false
  accepts (check_box label value change) (counted z) = false
  accepts (check_box label value change) (ticked b) = true

  abbrev change_by : Control M → Entry → M → M
  change_by (text_input label rule value change) (written s) m = change s m
  change_by (text_input label rule value change) (counted z) m = m
  change_by (text_input label rule value change) (ticked b) m = m
  change_by (number_input label low high disabled value change) (written s) m = m
  change_by (number_input label low high disabled value change) (counted z) m =
      if disabled then m else change z m
  change_by (number_input label low high disabled value change) (ticked b) m = m
  change_by (check_box label value change) (written s) m = m
  change_by (check_box label value change) (counted z) m = m
  change_by (check_box label value change) (ticked b) m = change b m

  -- The browser leaves a disabled control out.
  abbrev pub is_valid_control : Control M → Bool
  is_valid_control (text_input label rule value change) = rule value
  is_valid_control (number_input label low high disabled value change) =
      if disabled then true else at_least low value && at_most high value
  is_valid_control (check_box label value change) = true

  abbrev pub all_valid : List (Control M) → Bool
  all_valid [] = true
  all_valid (c ∷ cs) = is_valid_control c && all_valid cs

  abbrev pub enter_at : Option (Control M) → Entry → M → M
  enter_at none e m = m
  enter_at (some c) e m = change_by c e m

  -- The user enters something into the control of a number.
  unfoldable pub enter : (M → List (Control M)) → ℕ → Entry → M → M
  enter form i e m = enter_at (get_elem? (form m) i) e m

  -- What the form shows.
  abbrev pub values : (M → List (Control M)) → M → List Entry
  values form m = map value_of (form m)

  abbrev pub entered_at : Option (Control M) → ℕ → Entry → List Entry → List Entry
  entered_at none i e shown = shown
  entered_at (some c) i e shown = if accepts c e then set shown i e else shown

  -- A change of a control that takes it shows there, and changes nothing else that the form shows; any other changes
  -- nothing.
  abbrev pub IsControlled : (M → List (Control M)) → Type 0
  IsControlled form =
      (i : ℕ) (e : Entry) (m : M)
      → values form (enter form i e m) ≡ entered_at (get_elem? (form m) i) i e (values form m)

  -- The button of the form, disabled while a request runs, and the browser's check of the controls.
  unfoldable pub press_submit :
      (M → List (Control M)) → (M → Bool) → (Page M → Page M) → Page M → Page M
  press_submit form busy handler s =
      if busy s.0 then s else if all_valid (form s.0) then handler s else s
