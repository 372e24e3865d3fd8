-- ===== src/Dashboard/Form/Laws.antt =====
-- What a press on the button of a form does.
use mathlib.Core.Path.{subst}
use volq_auth.Base.{◌≡◌, refl, sym, ◌⊎◌, inl, inr, Bool, true, false, List, Bool-cases}
use volq_auth.Dashboard.Page.{Page}
use volq_auth.Dashboard.Form.{Control, all_valid, press_submit}

module _ {M : Type 0} (form : M → List (Control M)) (busy : M → Bool)
    (handler : Page M → Page M) where
  -- A press runs the handler only while no request runs, and over controls that the browser accepts.
  pub press_submit-cases :
      (s : Page M)
      → (press_submit form busy handler s ≡ s)
        ⊎ ((busy s.0 ≡ false)
            × (all_valid (form s.0) ≡ true)
            × (press_submit form busy handler s ≡ handler s))
  unfolding press_submit
  press_submit-cases s = elim (Bool-cases (busy s.0)) [
    | inl b ↦ inl (rw b refl)
    | inr b ↦ elim (Bool-cases (all_valid (form s.0))) [
      | inl v ↦ inr (b, v, rw (b, v) refl)
      | inr v ↦ inl (rw (b, v) refl)
    ]
  ]

  pub press_submit-keeps :
      (P : Page M → Type 0) (s : Page M)
      → P s
      → P (handler s)
      → P (press_submit form busy handler s)
  press_submit-keeps P s h k = elim (press_submit-cases s) [
    | inl e ↦ subst P (sym e) h
    | inr (b, v, e) ↦ subst P (sym e) k
  ]
