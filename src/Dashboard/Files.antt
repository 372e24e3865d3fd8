-- ===== src/Dashboard/Files.antt =====
-- frontend/src/app/files/page.tsx: the file payloads of the selected application.
pub mod Laws
use volq_auth.Base.{
  ℕ, Bool, true, false, Option, none, some, List, [], ◌∷◌, if◌then◌else◌, String, ◌<>◌,
}
use volq_auth.Base.Value.{ℤ, Value, undefined, str, num, pos, obj, field, end}
use volq_auth.Dashboard.Types.{Application, FilePayload}
use volq_auth.Dashboard.Api.{Server, Body, file_list, get, post, delete}
use volq_auth.Dashboard.Page.{Page, app_path, edit, with_app, fetch, revise}
use volq_auth.Dashboard.Form.{
  Control, Entry, text_input, number_input, required, enter, press_submit,
}

pub record Files : Type 0 where
  pub files : List FilePayload
  pub modal_open : Bool
  pub file_name : String
  pub storage_key : String
  pub sha256_hash : String
  pub min_tier : ℤ
  pub file_size : ℕ
  pub loading : Bool

abbrev pub set_loading : Bool → Files → Files
set_loading b p = record p { loading = b }

-- `setFiles(res.data || [])`; the endpoint answers with a list or with nothing.
abbrev pub receive : Body → Files → Files
receive (file_list fs) p = record p { files = fs }
receive _ p = record p { files = [] }

abbrev pub files_path : Option Application → String
files_path o = app_path o <> "/files"

-- The controls of the form.
unfoldable pub file_form : Files → List (Control Files)
file_form p =
    text_input "File Name (Virtual)" required p.file_name (λ s p. record p { file_name = s })
    ∷ text_input "R2 Object Key / Path" required p.storage_key (λ s p. record p { storage_key = s })
    ∷ text_input "Expected SHA-256 Hash" required p.sha256_hash
        (λ s p. record p { sha256_hash = s })
    ∷ number_input "Minimum Subscription Tier" (some (pos 1)) (some (pos 10)) false p.min_tier
        (λ z p. record p { min_tier = z })
    ∷ []

abbrev pub show_form : Bool → Files → Files
show_form b p = record p { modal_open = b }

-- The body of the form.
unfoldable pub file_body : Files → Value
file_body p = obj (
    field "file_name" (str p.file_name) (
      field "r2_storage_key" (str p.storage_key) (
        field "sha256_hash" (str p.sha256_hash) (
          field "file_size_bytes" (num (pos p.file_size))
            (field "min_tier_level" (num p.min_tier) end)))))

-- What the form does after its request succeeded.
abbrev pub close_form : Files → Files
close_form p = record p { modal_open = false; file_name = ""; storage_key = ""; sha256_hash = "" }

module _ (server : Server) where
  unfoldable pub fetch_files : Page Files → Page Files
  fetch_files = with_app λ a. fetch server receive (files_path (some a))

  -- `handleCreateFile` after its guard.
  unfoldable pub create_in : Application → Page Files → Page Files
  create_in a s = edit (set_loading false) (
      revise server post (files_path (some a)) (file_body s.0)
        (λ t. fetch_files (edit close_form t)) (edit (set_loading true) s))

  unfoldable pub create_file : Page Files → Page Files
  create_file = with_app create_in

  unfoldable pub delete_file : Bool → String → Page Files → Page Files
  delete_file confirmed id s =
      if confirmed
      then revise server delete (files_path s.1.0.selected_app <> "/" <> id) undefined fetch_files s
      else s

-- What can happen on the page.
pub data Event : Type 0 where
  shown created : Event
  deleted : Bool → String → Event
  entered : ℕ → Entry → Event
  form_shown : Bool → Event

unfoldable pub handle : Server → Event → Page Files → Page Files
handle server shown s = fetch_files server s
handle server created s = press_submit file_form (λ p. p.loading) (create_file server) s
handle server (deleted confirmed id) s = delete_file server confirmed id s
handle server (entered i e) s = edit (enter file_form i e) s
handle server (form_shown b) s = edit (show_form b) s
