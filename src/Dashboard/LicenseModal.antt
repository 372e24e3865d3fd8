-- ===== src/Dashboard/LicenseModal.antt =====
-- frontend/src/components/LicenseModal.tsx: the form that generates licenses, over a page of its own
-- state; `on_success` is what the page that shows the form gives it.
pub mod Laws
use volq_auth.Base.{
  lines, ℕ, Bool, true, false, Option, none, some, List, [], ◌∷◌, length, or_default, if◌then◌else◌,
  String, ◌<>◌, is_empty, Result, ok, throw,
}
use volq_auth.Base.Digits.{to_string}
use volq_auth.Base.ParseInt.{print_int}
use volq_auth.Base.Value.{
  ℤ, negsuc, Value, undefined, null, str, num, pos, bool, obj, field, end, truthy, or_else,
}
use volq_auth.Dashboard.Types.{Application}
use volq_auth.Dashboard.Api.{Server, Body, ApiError, json, key_list, post}
use volq_auth.Dashboard.Page.{Page, app_path, edit, request}
use volq_auth.Dashboard.Form.{
  Control, text_input, number_input, check_box, required, optional, press_submit,
}
use volq_auth.Dashboard.Login.{data_member, type_error}

pub record Modal : Type 0 where
  pub mask : String
  pub count : ℤ
  pub duration_days : ℤ
  pub is_lifetime : Bool
  pub max_hwids : ℤ
  pub note : String
  pub loading : Bool
  pub error : Value
  pub generated_keys : List String
  pub copied : Bool
  pub clipboard : Option String

-- What the page of its first render shows.
abbrev pub initial : Modal
initial = record {
  mask = "VOLQ-XXXX-XXXX-XXXX";
  count = pos 1;
  duration_days = pos 30;
  is_lifetime = false;
  max_hwids = pos 1;
  note = "";
  loading = false;
  error = str "";
  generated_keys = [];
  copied = false;
  clipboard = none;
}

-- The controls of the form, in the order of the page.
unfoldable pub license_form : Modal → List (Control Modal)
license_form m =
    text_input "Custom Key Mask (X = Random Character)" required m.mask
      (λ s m. record m { mask = s })
    ∷ number_input "Amount to Generate" (some (pos 1)) (some (pos 10000)) false m.count
        (λ z m. record m { count = z })
    ∷ number_input "Max Devices (HWID)" (some (pos 1)) (some (pos 10)) false m.max_hwids
        (λ z m. record m { max_hwids = z })
    ∷ check_box "Lifetime License" m.is_lifetime (λ b m. record m { is_lifetime = b })
    ∷ number_input "License Duration (Days)" (some (pos 1)) none m.is_lifetime m.duration_days
        (λ z m. record m { duration_days = z })
    ∷ text_input "Note (Optional)" optional m.note (λ s m. record m { note = s })
    ∷ []

-- The body of the form.
unfoldable pub generate_body : Modal → Value
generate_body m =
    let days : ℤ = if m.is_lifetime then pos 0 else m.duration_days in
    obj (
      field "mask" (str m.mask) (
        field "count" (num m.count) (
          field "duration_days" (num days) (
            field "is_lifetime" (bool m.is_lifetime)
              (field "max_hwids" (num m.max_hwids) (field "note" (str m.note) end))))))

-- `res.data.keys || []`, which throws on an empty body
abbrev pub keys_of : Body → Result ApiError (List String)
keys_of (key_list keys) = ok (or_default keys [])
keys_of (json undefined) = throw type_error
keys_of (json null) = throw type_error
keys_of _ = ok []

abbrev pub keys_in : Result ApiError Body → Result ApiError (List String)
keys_in (ok body) = keys_of body
keys_in (throw e) = throw e

abbrev pub no_app_text : Value
no_app_text = str "Please select or create an application first"

abbrev pub failure : ApiError → Value
failure e = or_else (data_member "error" e) (str "Failed to generate licenses")

abbrev pub started : Modal → Modal
started m = record m { loading = true; error = str "" }

abbrev pub finished : Modal → Modal
finished m = record m { loading = false }

abbrev pub with_keys : List String → Modal → Modal
with_keys keys m = record m { generated_keys = keys }

abbrev pub with_error : Value → Modal → Modal
with_error v m = record m { error = v }

abbrev pub generate_path : Application → String
generate_path a = app_path (some a) <> "/licenses/generate"

module _ (server : Server) (on_success : Page Modal → Page Modal) where
  -- The `try` after its request, by what that came to, with the `finally`.
  abbrev pub conclude : Result ApiError (List String) → Page Modal → Page Modal
  conclude (ok keys) s = edit finished (on_success (edit (with_keys keys) s))
  conclude (throw e) s = edit finished (edit (with_error (failure e)) s)

  -- `handleSubmit` after its guard.
  unfoldable pub generate_in : Application → Page Modal → Page Modal
  generate_in a (m, s) =
      let (r, s') = request server post (generate_path a) (generate_body m) (started m, s) in
      conclude (keys_in r) s'

  abbrev pub submit_for : Option Application → Page Modal → Page Modal
  submit_for none s = edit (with_error no_app_text) s
  submit_for (some a) s = generate_in a s

  unfoldable pub handle_submit : Page Modal → Page Modal
  handle_submit s = submit_for s.1.0.selected_app s

-- `generatedKeys.length > 0 ? … : …`, where the form is what is left
abbrev pub with_form : List String → Page Modal → Page Modal → Page Modal
with_form [] pressed s = pressed
with_form (key ∷ keys) pressed s = s

module _ (server : Server) (on_success : Page Modal → Page Modal) where
  -- The button that generates, which is only there while no keys are shown.
  unfoldable pub press_generate : Page Modal → Page Modal
  press_generate s =
      with_form s.0.generated_keys
        (press_submit license_form (λ m. m.loading) (handle_submit server on_success) s) s

unfoldable pub copy_to_clipboard : Modal → Modal
copy_to_clipboard m = record m { clipboard = some (lines m.generated_keys); copied = true }

-- The timer of that button, after 2000 milliseconds.
unfoldable pub forget_copied : Modal → Modal
forget_copied m = record m { copied = false }

-- `Done`, before the page closes the form.
unfoldable pub clear_keys : Modal → Modal
clear_keys m = record m { generated_keys = [] }

-- What the form says of its mask, and its buttons.
abbrev pub mask_text : Modal → String
mask_text m = "Preview pattern: " <> (if is_empty m.mask then "VOLQ-XXXX-XXXX-XXXX" else m.mask)

abbrev pub copy_text : Modal → String
copy_text m = if m.copied then "Copied to Clipboard" else "Copy All Keys"

abbrev pub generate_text : Modal → String
generate_text m =
    if m.loading then "Generating..." else "Generate " <> print_int m.count <> " Key(s)"

abbrev pub success_text : Modal → String
success_text m =
    "Successfully generated " <> to_string 10 (length m.generated_keys) <> " license key(s)!"
