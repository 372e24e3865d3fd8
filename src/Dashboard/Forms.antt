-- ===== src/Dashboard/Forms.antt =====
-- The forms of the dashboard show what is entered into them, and send what their controls allow.
use volq_auth.Base.{
  ℕ, zero, suc, ◌≡◌, refl, ap, ◌∙◌, ◌⊎◌, inl, inr, Bool, true, false, ◌&&◌, ◌||◌, [], String,
  is_empty, get_elem?, arith, List-cases,
}
use volq_auth.Base.Value.{pos}
use volq_auth.Dashboard.Form.{
  Entry, IsControlled, enter, entered_at, values, all_valid, press_submit, int_le,
}
use volq_auth.Dashboard.Form.Laws.{press_submit-cases}
use volq_auth.Dashboard.Api.{Server}
use volq_auth.Dashboard.Page.{Page}
use volq_auth.Dashboard.LicenseModal.{Modal, license_form, handle_submit, with_form, press_generate}
use volq_auth.Dashboard.Variables.{variable_form}
use volq_auth.Dashboard.Files.{Files, file_form}
use volq_auth.Dashboard.Resellers.{reseller_form, credits_form}
use volq_auth.Dashboard.Apps.{Apps, app_form}
use volq_auth.Dashboard.Webhooks.{webhook_form}
use volq_auth.Dashboard.Login.{Login, login_form}

license_form-IsControlled : IsControlled license_form
unfolding license_form enter
license_form-IsControlled zero e m = ground arith
license_form-IsControlled (suc zero) e m = ground arith
license_form-IsControlled (suc (suc zero)) e m = ground arith
license_form-IsControlled (suc (suc (suc zero))) e m = ground arith
license_form-IsControlled (suc (suc (suc (suc zero)))) e m = ground arith
license_form-IsControlled (suc (suc (suc (suc (suc zero))))) e m = ground arith
license_form-IsControlled (suc (suc (suc (suc (suc (suc i)))))) e m = refl

variable_form-IsControlled : IsControlled variable_form
unfolding variable_form enter
variable_form-IsControlled zero e m = ground arith
variable_form-IsControlled (suc zero) e m = ground arith
variable_form-IsControlled (suc (suc zero)) e m = ground arith
variable_form-IsControlled (suc (suc (suc zero))) e m = ground arith
variable_form-IsControlled (suc (suc (suc (suc i)))) e m = refl

file_form-IsControlled : IsControlled file_form
unfolding file_form enter
file_form-IsControlled zero e m = ground arith
file_form-IsControlled (suc zero) e m = ground arith
file_form-IsControlled (suc (suc zero)) e m = ground arith
file_form-IsControlled (suc (suc (suc zero))) e m = ground arith
file_form-IsControlled (suc (suc (suc (suc i)))) e m = refl

reseller_form-IsControlled : IsControlled reseller_form
unfolding reseller_form enter
reseller_form-IsControlled zero e m = ground arith
reseller_form-IsControlled (suc zero) e m = ground arith
reseller_form-IsControlled (suc (suc zero)) e m = ground arith
reseller_form-IsControlled (suc (suc (suc zero))) e m = ground arith
reseller_form-IsControlled (suc (suc (suc (suc i)))) e m = refl

credits_form-IsControlled : IsControlled credits_form
unfolding credits_form enter
credits_form-IsControlled zero e m = ground arith
credits_form-IsControlled (suc i) e m = refl

app_form-IsControlled : (is_url : String → Bool) → IsControlled (app_form is_url)
unfolding app_form enter
app_form-IsControlled is_url zero e m = ground arith
app_form-IsControlled is_url (suc zero) e m = ground arith
app_form-IsControlled is_url (suc (suc zero)) e m = ground arith
app_form-IsControlled is_url (suc (suc (suc zero))) e m = ground arith
app_form-IsControlled is_url (suc (suc (suc (suc zero)))) e m = ground arith
app_form-IsControlled is_url (suc (suc (suc (suc (suc zero))))) e m = ground arith
app_form-IsControlled is_url (suc (suc (suc (suc (suc (suc i)))))) e m = refl

webhook_form-IsControlled : (is_url : String → Bool) → IsControlled (webhook_form is_url)
unfolding webhook_form enter
webhook_form-IsControlled is_url zero e m = ground arith
webhook_form-IsControlled is_url (suc i) e m = refl

login_form-IsControlled_by :
    (is_email : String → Bool) (i : ℕ) (e : Entry) (m : Login) (b : Bool)
    → m.is_register ≡ b
    → values (login_form is_email) (enter (login_form is_email) i e m)
      ≡ entered_at (get_elem? (login_form is_email m) i) i e (values (login_form is_email) m)
unfolding login_form enter
login_form-IsControlled_by is_email zero e m true h = ground arith
login_form-IsControlled_by is_email (suc zero) e m true h = ground arith
login_form-IsControlled_by is_email (suc (suc zero)) e m true h = ground arith
login_form-IsControlled_by is_email (suc (suc (suc i))) e m true h = ground arith
login_form-IsControlled_by is_email zero e m false h = ground arith
login_form-IsControlled_by is_email (suc zero) e m false h = ground arith
login_form-IsControlled_by is_email (suc (suc i)) e m false h = ground arith

login_form-IsControlled : (is_email : String → Bool) → IsControlled (login_form is_email)
login_form-IsControlled is_email i e m =
    login_form-IsControlled_by is_email i e m m.is_register refl

-- A change of a control shows there, and changes nothing else that its form shows, in all forms of the dashboard; a
-- control that is disabled, or of another kind than what is entered, takes nothing. The browser's tests of an e-mail
-- address and of a URL may be any.
pub forms-IsControlled :
    (is_email is_url : String → Bool)
    → IsControlled license_form
      × IsControlled variable_form
      × IsControlled file_form
      × IsControlled reseller_form
      × IsControlled credits_form
      × IsControlled (app_form is_url)
      × IsControlled (webhook_form is_url)
      × IsControlled (login_form is_email)
forms-IsControlled is_email is_url = (
  license_form-IsControlled,
  variable_form-IsControlled,
  file_form-IsControlled,
  reseller_form-IsControlled,
  credits_form-IsControlled,
  app_form-IsControlled is_url,
  webhook_form-IsControlled is_url,
  login_form-IsControlled is_email,
)

enter-file_size : (i : ℕ) (e : Entry) (p : Files) → (enter file_form i e p).file_size ≡ p.file_size
unfolding file_form enter
enter-file_size zero e p = ground arith
enter-file_size (suc zero) e p = ground arith
enter-file_size (suc (suc zero)) e p = ground arith
enter-file_size (suc (suc (suc zero))) e p = ground arith
enter-file_size (suc (suc (suc (suc i)))) e p = refl

enter-download_url :
    (is_url : String → Bool) (i : ℕ) (e : Entry) (p : Apps)
    → (enter (app_form is_url) i e p).download_url ≡ p.download_url
unfolding app_form enter
enter-download_url is_url zero e p = ground arith
enter-download_url is_url (suc zero) e p = ground arith
enter-download_url is_url (suc (suc zero)) e p = ground arith
enter-download_url is_url (suc (suc (suc zero))) e p = ground arith
enter-download_url is_url (suc (suc (suc (suc zero)))) e p = ground arith
enter-download_url is_url (suc (suc (suc (suc (suc zero))))) e p = ground arith
enter-download_url is_url (suc (suc (suc (suc (suc (suc i)))))) e p = refl

-- Nothing that is entered into its form changes the size of a file, nor the URL of the download of an application.
enter_leaves :
    (is_url : String → Bool) (i : ℕ) (e : Entry) (p : Files) (q : Apps)
    → ((enter file_form i e p).file_size ≡ p.file_size)
      × ((enter (app_form is_url) i e q).download_url ≡ q.download_url)
enter_leaves is_url i e p q = (enter-file_size i e p, enter-download_url is_url i e q)

-- What the form of the licenses may send: a mask, 1 to 10000 keys, 1 to 10 devices, and a day or more unless it is
-- for a lifetime.
pub record IsOffered (m : Modal) : Type 0 where
  pub masked : is_empty m.mask ≡ false
  pub count : (int_le (pos 1) m.count && int_le m.count (pos 10000)) ≡ true
  pub devices : (int_le (pos 1) m.max_hwids && int_le m.max_hwids (pos 10)) ≡ true
  pub days : (m.is_lifetime || int_le (pos 1) m.duration_days) ≡ true

license_form-IsOffered : (m : Modal) → all_valid (license_form m) ≡ true → IsOffered m
unfolding license_form
license_form-IsOffered m h = ground arith

-- A press on the button of the form of the licenses does nothing, or it submits the form, which was not
-- loading, showed no keys, and had a mask, 1 to 10000 keys, 1 to 10 devices, and a day or more unless it is
-- for a lifetime.
pub press_generate-IsOffered :
    (server : Server) (on_success : Page Modal → Page Modal) (s : Page Modal)
    → (press_generate server on_success s ≡ s)
      ⊎ ((press_generate server on_success s ≡ handle_submit server on_success s)
          × (s.0.loading ≡ false)
          × (s.0.generated_keys ≡ [])
          × IsOffered s.0)
unfolding press_generate
press_generate-IsOffered server on_success s =
    let pressed : Page Modal =
      press_submit license_form (λ m. m.loading) (handle_submit server on_success) s in
    elim (List-cases s.0.generated_keys) [
      | inl hidden ↦
          let by_form = ap (λ keys. with_form keys pressed s) hidden in
          elim (press_submit-cases license_form (λ m. m.loading) (handle_submit server on_success)
            s) [
              | inl e ↦ inl (by_form ∙ e)
              | inr (b, v, e) ↦ inr (by_form ∙ e, b, hidden, license_form-IsOffered s.0 v)
            ]
      | inr (key, keys, shown) ↦ inl (ap (λ ks. with_form ks pressed s) shown)
    ]
