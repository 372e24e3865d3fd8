-- ===== src/Sdk/Provider.antt =====
-- sdks/react/src/volqAuth.tsx: the state of `VolqAuthProvider` and its operations on the client.
pub mod Laws
use volq_auth.Base.{
  Bool, true, false, Option, none, some, or_default, List, [], ◌∷◌, if◌then◌else◌, String, is_empty,
  Result, ok, throw, Action, pure, from_result, try_catch, modify, ◌>>=◌, ◌>>◌,
}
use volq_auth.Base.Value.{Value, null, str, or_else, is_text, member}
use volq_auth.Sdk.Client.{Client, Config, new_client, set_session_token, auth_error, get_hwid}
use volq_auth.Sdk.Client
use volq_auth.Sdk.Client.Interface.{Platform, World}
use volq_auth.Sdk.Client.Methods
use volq_auth.Sdk.Client.Methods.{authenticate_license, authenticate_user}

-- the React state
pub record View : Type 0 where
  pub is_initialized : Bool
  pub is_authenticated : Bool
  pub is_loading : Bool
  pub error : Value
  pub hwid : Value
  pub subscription : Value
  pub session_token : Value

abbrev pub App : Type 0
App = View × (Client × World)

-- The first render; the client is made of the properties, `autoInit` starts as loading. The properties stay as they are:
-- a change of them, which makes a new client beside the old state, is not modelled.
unfoldable pub mount : Config → Bool → World → App
mount config auto_init w = (
  record {
    is_initialized = false;
    is_authenticated = false;
    is_loading = auto_init;
    error = null;
    hwid = null;
    subscription = null;
    session_token = null;
  },
  (new_client config, w),
)

-- `setIsLoading(true); setError(null)`
abbrev pub begin : View → View
begin v = record v { is_loading = true; error = null }

-- `setIsLoading(false)`, the `finally` of every operation
abbrev pub finish : View → View
finish v = record v { is_loading = false }

abbrev pub handshake_failed : String
handshake_failed = "Handshake failed. Check backend connectivity or App ID."

module _ (p : Platform) where
  -- Neither step of `init` can throw.
  unfoldable pub init : App → Bool × App
  init (v, s) =
      let (hwid, s1) = get_hwid p s in
      let (okay, s2) = Client.init p s1 in
      let v' : View = record (begin v) { hwid = str hwid; is_initialized = okay } in
      (okay, (finish (if okay then v' else record v' { error = str handshake_failed }), s2))

  -- The effect after the first render.
  unfoldable pub start : Config → Bool → World → App
  unfolding mount
  start config auto_init w =
      let shown = mount config auto_init w in if auto_init then (init shown).1 else shown

  -- The body of both logins on the answer of the client, the `try` with its `catch`.
  unfoldable pub settle_login : Value → View → Value × View
  settle_login result =
      try_catch {S = View} {E = String}
        (do
          status ← from_result (member (p.no_member "status") "status" result)
          if is_text status "success"
              then (do
                subscription ←
                    from_result (member (p.no_member "subscription") "subscription" result)
                token ← from_result (member (p.no_member "session_token") "session_token" result)
                modify (λ v. record v {
                  is_authenticated = true;
                  subscription = or_else subscription null;
                  session_token = or_else token null;
                })
                pure result)
              else (do
                message ← from_result (member (p.no_member "message") "message" result)
                modify (λ v. record v { error = message })
                pure result))
        (λ message v.
          let shown = str (if is_empty message then "Authentication error" else message) in
          (auth_error shown, record v { error = shown }))

  -- A login by one of the client's methods.
  unfoldable pub login : (Client × World → Value × (Client × World)) → App → Value × App
  login call (v, s) =
      let (result, s') = call s in
      let (answer, v') = settle_login result (begin v) in (answer, (finish v', s'))

  unfoldable pub login_with_license : String → App → Value × App
  login_with_license license_key = login (authenticate_license p license_key)

  unfoldable pub login_with_credentials : String → String → App → Value × App
  login_with_credentials username password = login (authenticate_user p username password)

  -- The client's method does not throw.
  unfoldable pub get_variable : String → App → Value × App
  get_variable var_key (v, s) =
      let (value, s') = Methods.get_variable p var_key s in (value, (v, s'))

unfoldable pub logout : App → App
logout (v, (c, w)) = (
  record v { is_authenticated = false; subscription = null; session_token = null; error = null },
  (set_session_token null c, w),
)

-- `useVolqAuth`: outside a provider the context is `undefined`.
unfoldable use_volq_auth {ℓ} : {A : Type ℓ} → Option A → Result String A
use_volq_auth none = throw "useVolqAuth must be used within a <VolqAuthProvider>"
use_volq_auth (some context) = ok context

-- The operations that the context offers, and one of them run for its state.
pub data Op : Type 0 where
  initialize leave : Op
  by_license read_variable : String → Op
  by_credentials : String → String → Op

unfoldable pub step : Platform → Op → App → App
step p initialize a = (init p a).1
step p leave a = logout a
step p (by_license license_key) a = (login_with_license p license_key a).1
step p (read_variable var_key) a = (get_variable p var_key a).1
step p (by_credentials username password) a = (login_with_credentials p username password a).1

-- A run of operations, each to its end, in the order in which they were begun.
unfoldable pub run : Platform → List Op → App → App
run p [] a = a
run p (op ∷ ops) a = run p ops (step p op a)
