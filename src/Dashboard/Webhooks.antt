-- ===== src/Dashboard/Webhooks.antt =====
-- frontend/src/app/webhooks/page.tsx: the webhook of the selected application.
use volq_auth.Base.{Bool, true, false, ◌&&◌, some, List, [], ◌∷◌, if◌then◌else◌, String}
use volq_auth.Base.Value.{Value, str, obj, field, end}
use volq_auth.Dashboard.Types.{Application}
use volq_auth.Dashboard.Api.{Server, put}
use volq_auth.Dashboard.Page.{Page, app_path, edit, with_app, revise}
use volq_auth.Dashboard.Form.{Control, text_input, required, press_submit}
use volq_auth.Dashboard.Apps.{reload}

pub record Webhooks : Type 0 where
  pub webhook_url : String
  pub saved : Bool
  pub loading : Bool

-- The control of the form.
unfoldable pub webhook_form : (String → Bool) → Webhooks → List (Control Webhooks)
webhook_form is_url p =
    text_input "Discord Webhook URL or HTTP Endpoint" (λ s. required s && is_url s) p.webhook_url
      (λ s p. record p { webhook_url = s })
    ∷ []

-- The effect, which copies the stored URL into the form.
unfoldable show_webhook : Page Webhooks → Page Webhooks
show_webhook = with_app λ a. edit λ p. record p { webhook_url = a.webhook_url }

abbrev pub set_loading : Bool → Webhooks → Webhooks
set_loading b p = record p { loading = b }

abbrev pub set_saved : Bool → Webhooks → Webhooks
set_saved b p = record p { saved = b }

abbrev pub webhook_body : Webhooks → Value
webhook_body p = obj (field "webhook_url" (str p.webhook_url) end)

-- `handleSave` after its guard.
unfoldable pub save_in : Server → Application → Page Webhooks → Page Webhooks
save_in server a s = edit (set_loading false) (
    revise server put (app_path (some a)) (webhook_body s.0)
      (λ t. edit (set_saved true) (reload server t)) (edit (set_loading true) s))

unfoldable handle_save : Server → Page Webhooks → Page Webhooks
handle_save server = with_app (save_in server)

unfoldable press_save : Server → (String → Bool) → Page Webhooks → Page Webhooks
press_save server is_url = press_submit (webhook_form is_url) (λ p. p.loading) (handle_save server)

-- The timer that the handler starts, after 2000 milliseconds.
unfoldable forget_saved : Webhooks → Webhooks
forget_saved p = record p { saved = false }

abbrev button_text : Webhooks → String
button_text p =
    if p.saved
    then "Endpoint Saved!"
    else if p.loading
    then "Saving..."
    else "Save Webhook Configuration"
