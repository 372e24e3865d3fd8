-- ===== src/Dashboard/Dialog/Laws.antt =====
-- What a dialog keeps while it is hidden.
use mathlib.Core.Path.{subst}
use volq_auth.Base.{ℕ, ◌≡◌, refl, sym, ap, ◌∙◌, Bool, true, false, List, [], ◌∷◌}
use volq_auth.Dashboard.Page.{Page, edit}
use volq_auth.Dashboard.Form.{Entry, enter}
use volq_auth.Dashboard.Dialog.{
  Dialog, click_x, enter_shown, enter_all, Act, entered, left, opened, act, act_all, stays, taken,
  KeepsDraft,
}

-- What the handlers of a dialog promise: `show` shows it, `hide` hides it, and to show it again takes back
-- that it was hidden, before and after anything was entered, and changes nothing where it is shown.
pub record IsDialog {M : Type 0} (d : Dialog M) : Type 0 where
  pub shown : (p : M) → d.is_shown (d.show p) ≡ true
  pub hidden : (p : M) → d.is_shown (d.hide p) ≡ false
  pub again : (p : M) → d.show (d.hide (d.show p)) ≡ d.show p
  pub twice : (p : M) → d.show (d.show p) ≡ d.show p
  pub entered :
      (i : ℕ) (e : Entry) (p : M)
      → d.show (d.hide (enter d.form i e (d.show p))) ≡ enter d.form i e (d.show p)

module _ {M : Type 0} (d : Dialog M) (laws : IsDialog d) where
  abbrev IsOpen : Page M → Type 0
  IsOpen s = d.show (d.hide s.0) ≡ s.0

  open-shown : (s : Page M) → IsOpen s → d.is_shown s.0 ≡ true
  open-shown s h = sym (ap d.is_shown h) ∙ laws.shown (d.hide s.0)

  enter_shown-IsOpen : (i : ℕ) (e : Entry) (s : Page M) → IsOpen s → IsOpen (enter_shown d i e s)
  unfolding enter_shown
  enter_shown-IsOpen i e s h = rw (open-shown s h) (
      sym (ap (λ p. d.show (d.hide (enter d.form i e p))) h)
      ∙ laws.entered i e (d.hide s.0)
      ∙ ap (enter d.form i e) h)

  enter_shown-hidden :
      (i : ℕ) (e : Entry) (s : Page M) → enter_shown d i e (edit d.hide s) ≡ edit d.hide s
  unfolding enter_shown
  enter_shown-hidden i e s = rw (laws.hidden s.0) refl

  click_x-shown : (s : Page M) → IsOpen s → click_x d s ≡ edit d.hide s
  unfolding click_x
  click_x-shown s h = rw (open-shown s h) refl

  click_x-hidden : (s : Page M) → click_x d (edit d.hide s) ≡ edit d.hide s
  unfolding click_x
  click_x-hidden s = rw (laws.hidden s.0) refl

  open-again : (s : Page M) → IsOpen s → edit d.show s ≡ s
  open-again s h = ap (λ p. (p, s.1)) (sym (ap d.show h) ∙ laws.twice (d.hide s.0) ∙ h)

  -- The page with the dialog shown, or left.
  abbrev placed : Bool → Page M → Page M
  placed true s = s
  placed false s = edit d.hide s

  -- What is left of `acts` on a page, where `s` is the page with the dialog shown.
  abbrev Agrees : List Act → Bool → Page M → Page M → Type 0
  Agrees acts b s t =
      (d.is_shown (act_all d acts t).0 ≡ stays b acts)
      × (edit d.show (act_all d acts t) ≡ enter_all d (taken b acts) s)

  act_all-placed :
      (acts : List Act) (b : Bool) (s : Page M) → IsOpen s → Agrees acts b s (placed b s)
  unfolding act_all act enter_all
  act_all-placed [] true s h = (open-shown s h, open-again s h)
  act_all-placed [] false s h = (laws.hidden s.0, ap (λ p. (p, s.1)) h)
  act_all-placed (entered i e ∷ acts) true s h =
      act_all-placed acts true (enter_shown d i e s) (enter_shown-IsOpen i e s h)
  act_all-placed (entered i e ∷ acts) false s h =
      subst (Agrees acts false s) (sym (enter_shown-hidden i e s)) (act_all-placed acts false s h)
  act_all-placed (left ∷ acts) true s h =
      subst (Agrees acts false s) (sym (click_x-shown s h)) (act_all-placed acts false s h)
  act_all-placed (left ∷ acts) false s h =
      subst (Agrees acts false s) (sym (click_x-hidden s)) (act_all-placed acts false s h)
  act_all-placed (opened ∷ acts) true s h =
      subst (Agrees acts true s) (sym (open-again s h)) (act_all-placed acts true s h)
  act_all-placed (opened ∷ acts) false s h =
      subst (Agrees acts true s) (sym (ap (λ p. (p, s.1)) h)) (act_all-placed acts true s h)

  pub keeps_draft : KeepsDraft d
  keeps_draft acts s = act_all-placed acts true (edit d.show s) (laws.again s.0)
