-- ===== src/Sdk/Tests.antt =====
-- The theorems on the SDK at a concrete platform, whose server opens a session and answers every payload
-- with a success.
mod Example
mod Overlap
use volq_auth.Base.{trim, ◌*◌, ◌≡◌, refl, true, false, none, some, [], ◌∷◌, ◌++◌, ok, text_length}
use volq_auth.Base.Value.{Value, str, obj, field, end, truthy, lookup_field}
use volq_auth.Sdk.Hwid.{Device, drawn, unmasked, get_browser_hwid}
use volq_auth.Sdk.Hwid.Laws.{IsSha256, get_browser_hwid-length, get_browser_hwid_stable}
use volq_auth.Sdk.Client.{Client, Config, new_client, init}
use volq_auth.Sdk.Client.Interface.{Platform, World, Response, answered}
use volq_auth.Sdk.Client.Encoding.{bytes_from}
use volq_auth.Sdk.Client.Methods.{
  authenticate_license, authenticate_user, license_path, login_path, license_fields, user_fields,
}
use volq_auth.Sdk.Client.Methods
use volq_auth.Sdk.Client.Laws.Text.{bytes_from-length, bytes_from-All}
use volq_auth.Sdk.Client.Laws.Init.{init_lem, opens, after_init}
use volq_auth.Sdk.Client.Laws.Token.{Follows, authenticate_token}
use volq_auth.Sdk.Client.Laws.Requests.{
  authenticate-trim, login_requests, authenticate_sends, variable_requests, get_variable_lem,
}
use volq_auth.Sdk.Provider.{
  App, leave, by_license, read_variable, by_credentials, begin, mount, start, settle_login, logout,
  run,
}
use volq_auth.Sdk.Provider.Laws.{IsConsistent, run-IsConsistent}

abbrev laptop : Device
laptop = record {
  has_window = true;
  readable = true;
  writable = true;
  cores = 8;
  memory = some "16";
  platform = "Linux x86_64";
  language = "en";
  screen = some (1920, 1080, 24);
  pixel_ratio = some "2";
  time_zone = some "UTC";
  canvas = drawn "data:image/png;base64,AA";
  web_gl = unmasked "Vendor" "Renderer";
  has_subtle = true;
  digest = λ raw. bytes_from (λ i. i * 7) 0 32;
}

-- The same laptop with another screen and language.
abbrev docked : Device
docked = record (laptop) { screen = some (3840, 2160, 30); language = "de"; cores = 4 }

laptop-IsSha256 : IsSha256 laptop
laptop-IsSha256 = record {
  size = λ raw. bytes_from-length (λ i. i * 7) 0 32;
  bytes = λ raw. bytes_from-All (λ i. i * 7) 0 32;
}

abbrev success : Value
success = obj (
    field "status" (str "success")
      (field "session_token" (str "token") (field "var_value" (str "42") end)))

abbrev pub platform_of : Response → Platform
platform_of r = record {
  device = laptop;
  has_random = true;
  has_btoa = true;
  has_atob = true;
  random_byte = λ draw i. i;
  clock = λ n. 1700000000;
  stringify = λ v. "json";
  parse = λ s. ok success;
  utf8 = λ s. [];
  utf8_decode = λ bytes. ok "json";
  utf8_replace = λ bytes. "json";
  btoa = λ bytes. "AA==";
  atob = λ v. ok [];
  buffer_base64 = λ bytes. "AA==";
  buffer_from = λ v. ok [];
  no_member = λ name. "no member";
  respond = λ sent. answered r;
}

abbrev pub reply : Response
reply = record {
  status = 200;
  json = ok (obj (field "session_id" (str "session") (field "payload" (str "AA==") end)));
}

abbrev pub online : Platform
online = platform_of reply

abbrev pub blank : World
blank = record { storage = []; sent = []; draws = 0; reads = 0 }

abbrev pub config : Config
config = record {
  app_id = "app";
  app_version = none;
  master_public_key = none;
  base_url = some "https://auth.example.com//";
}

abbrev new : Client × World
new = (new_client config, blank)

abbrev pub fresh_app : App
fresh_app = mount config false blank

get_browser_hwid-length_example : text_length (get_browser_hwid laptop []).0 ≡ 64
get_browser_hwid-length_example = get_browser_hwid-length laptop [] laptop-IsSha256

get_browser_hwid_stable_example :
    get_browser_hwid docked (get_browser_hwid laptop []).1
    ≡ ((get_browser_hwid laptop []).0, (get_browser_hwid laptop []).1)
get_browser_hwid_stable_example =
    get_browser_hwid_stable laptop docked [] laptop-IsSha256 refl refl refl refl

init_lem_example :
    init online new
    ≡ elim (opens (online.respond (after_init online (new_client config) blank).sent)) [
      | none ↦ (false, (new_client config, after_init online (new_client config) blank))
      | some sid ↦ (
        true,
        (
          record (new_client config) { session_id = sid },
          after_init online (new_client config) blank,
        ),
      )
    ]
init_lem_example = init_lem online (new_client config) blank

authenticate_token_example :
    Follows new (authenticate_license online " KEY " new)
    × Follows new (authenticate_user online "ada" "secret" new)
authenticate_token_example = authenticate_token online " KEY " "ada" "secret" new

authenticate_sends_example :
    ((authenticate_license online " KEY " new).1.1.sent
      ≡ [] ++ login_requests online license_path (license_fields " KEY ") new)
    × ((authenticate_user online "ada" "secret" new).1.1.sent
        ≡ [] ++ login_requests online login_path (user_fields "ada" "secret") new)
authenticate_sends_example = authenticate_sends online " KEY " "ada" "secret" new

authenticate-trim_example :
    (authenticate_license online (trim " KEY ") new ≡ authenticate_license online " KEY " new)
    × (authenticate_user online (trim "ada ") "secret" new
        ≡ authenticate_user online "ada " "secret" new)
authenticate-trim_example = authenticate-trim online " KEY " "ada " "secret" new

get_variable_lem_example : (Methods.get_variable online "api_key" new).1 ≡ (
  new_client config,
  record (blank) { sent = [] ++ variable_requests online "api_key" (new_client config) },
)
get_variable_lem_example = get_variable_lem online "api_key" (new_client config) blank

run-IsConsistent_example : IsConsistent (
    run online
      (by_license "KEY" ∷ read_variable "api_key" ∷ leave ∷ by_credentials "ada" "secret" ∷ [])
      (start online config true blank))
run-IsConsistent_example =
    run-IsConsistent online config true blank
      (by_license "KEY" ∷ read_variable "api_key" ∷ leave ∷ by_credentials "ada" "secret" ∷ [])

-- A method that fails.
abbrev refusing : Client × World → Value × (Client × World)
refusing s = (obj (field "status" (str "error") (field "message" (str "Invalid key") end)), s)
