-- ===== src/Backend/Update.antt =====
-- backend/internal/handler/dashboard_handler.go: `UpdateApp`, after the application was read, up to what it
-- stores, over the body of the request; and of backend/internal/service/client_auth_service.go the check of the
-- client's binary, which reads a part of that.
pub mod Laws
use volq_auth.Base.{
  Bool, true, false, not, ◌&&◌, ◌===◌, Option, none, some, or_default, if◌then◌else◌, String,
  is_empty,
}
use volq_auth.Base.Value.{
  ℤ, Value, Fields, undefined, null, bool, num, str, obj, arr, end, lookup_field,
}

infixl 5 ◌>>=◌
abbrev ◌>>=◌ : {A B : Type 0} → Option A → (A → Option B) → Option B
none >>= k = none
some a >>= k = k a

-- What the handler reads and writes of an application.
pub record App : Type 0 where
  pub id : String
  pub name : String
  pub version : String
  pub download_url : String
  pub integrity_hash : String
  pub is_paused : Bool
  pub hwid_lock_enabled : Bool
  pub hwid_cooldown_days : ℤ
  pub webhook_url : String
  pub webhook_enabled : Bool

-- The fields of the request, where a pointer may be `nil`.
pub record Request : Type 0 where
  pub name : String
  pub version : String
  pub download_url : String
  pub integrity_hash : String
  pub is_paused : Option Bool
  pub hwid_lock_enabled : Option Bool
  pub hwid_cooldown_days : Option ℤ
  pub webhook_url : String

-- How a field of the type `string` is read: a missing one, and `null`, leave it empty, and any other type is an error.
abbrev pub read_string : Value → Option String
read_string undefined = some ""
read_string null = some ""
read_string (str s) = some s
read_string _ = none

-- `*bool` and `*int`, which a missing field and `null` leave `nil`
abbrev pub read_bool : Value → Option (Option Bool)
read_bool undefined = some none
read_bool null = some none
read_bool (bool b) = some (some b)
read_bool _ = none

abbrev pub read_int : Value → Option (Option ℤ)
read_int undefined = some none
read_int null = some none
read_int (num z) = some (some z)
read_int _ = none

abbrev pub read_fields : Fields → Option Request
read_fields fs = do
  name ← read_string (lookup_field "name" fs)
  version ← read_string (lookup_field "version" fs)
  download_url ← read_string (lookup_field "download_url" fs)
  integrity_hash ← read_string (lookup_field "integrity_hash" fs)
  is_paused ← read_bool (lookup_field "is_paused" fs)
  hwid_lock_enabled ← read_bool (lookup_field "hwid_lock_enabled" fs)
  hwid_cooldown_days ← read_int (lookup_field "hwid_cooldown_days" fs)
  webhook_url ← read_string (lookup_field "webhook_url" fs)
  some (record {
    name = name;
    version = version;
    download_url = download_url;
    integrity_hash = integrity_hash;
    is_paused = is_paused;
    hwid_lock_enabled = hwid_lock_enabled;
    hwid_cooldown_days = hwid_cooldown_days;
    webhook_url = webhook_url;
  })

-- `ShouldBindJSON`: the body is an object, or `null`, which leaves all fields.
unfoldable pub read_request : Value → Option Request
read_request (obj fs) = read_fields fs
read_request null = read_fields end
read_request _ = none

abbrev kept_text : String → String → String
kept_text given old = if is_empty given then old else given

-- What the handler stores for a request.
unfoldable pub apply_request : Request → App → App
apply_request r a = record a {
  name = kept_text r.name a.name;
  version = kept_text r.version a.version;
  download_url = r.download_url;
  integrity_hash = r.integrity_hash;
  is_paused = or_default r.is_paused a.is_paused;
  hwid_lock_enabled = or_default r.hwid_lock_enabled a.hwid_lock_enabled;
  hwid_cooldown_days = or_default r.hwid_cooldown_days a.hwid_cooldown_days;
  webhook_url = r.webhook_url;
  webhook_enabled = not (is_empty r.webhook_url);
}

-- The application that the handler stores, or `none` where it answers with 400 and stores nothing.
unfoldable pub update_app : Value → App → Option App
update_app body a = do r ← read_request body; some (apply_request r a)

-- The condition under which the login of a client is refused for its binary, whose hash is `binary_hash`.
unfoldable pub is_tampered : App → String → Bool
is_tampered a binary_hash =
    not (is_empty a.integrity_hash)
    && (not (is_empty binary_hash) && not (a.integrity_hash === binary_hash))
