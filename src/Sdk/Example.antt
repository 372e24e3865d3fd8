-- ===== src/Sdk/Example.antt =====
-- sdks/react/examples/App.tsx: a program behind a license, on the provider of the React SDK.
pub mod Laws
use volq_auth.Base.{
  Bool, true, false, ◌||◌, some, List, [], ◌∷◌, if◌then◌else◌, String, is_empty, trim, Result, ok,
  throw,
}
use volq_auth.Base.Value.{Value, undefined, null, is_text, member}
use volq_auth.Sdk.Client.{Config}
use volq_auth.Sdk.Client.Interface.{Platform, World}
use volq_auth.Sdk.Provider.{App, start, login_with_license, get_variable, logout}

-- The state of `LicenseProtection` and that of the provider around it.
pub record Example : Type 0 where
  pub license_key : String
  pub remote_secret : Value
  pub app : App

-- What is shown: the secret where it is truthy; of the device's id the form shows the first 16 characters.
pub data Screen : Type 0 where
  connecting : Screen
  granted : (name tier_level hwid secret : Value) → Screen
  activation :
      (hwid error : Value) (license_key : String) (disabled : Bool) (label : String) → Screen

-- The properties that the example gives to the provider.
abbrev pub config : Config
config = record {
  app_id = "YOUR_APPLICATION_UUID";
  app_version = some "1.0.0";
  master_public_key = some "YOUR_MASTER_PUBLIC_KEY";
  base_url = some "http://localhost:8080";
}

-- `autoInit` is left to its default.
unfoldable pub begun : Platform → World → Example
begun p w = record { license_key = ""; remote_secret = null; app = start p config true w }

abbrev or_undefined : Result String Value → Value
or_undefined (ok v) = v
or_undefined (throw e) = undefined

-- `v?.k`
abbrev optional : String → Value → Value
optional k v = or_undefined (member "" k v)

unfoldable pub screen : Example → Screen
screen g =
    let v = g.app.0 in
    if v.is_initialized
    then if v.is_authenticated
      then granted (optional "name" v.subscription) (optional "tier_level" v.subscription) v.hwid
          g.remote_secret
      else activation v.hwid v.error g.license_key (v.is_loading || is_empty (trim g.license_key))
          (if v.is_loading then "Verifying..." else "Unlock Application")
    else connecting

-- `handleUnlock` once it has read the status of the answer.
unfoldable pub settle_unlock : Platform → Result String Value → Example → Example
settle_unlock p (throw e) g = g
settle_unlock p (ok status) g =
    let (secret, a) = get_variable p "LICENSE_ENCRYPTION_KEY" g.app in
    if is_text status "success" then record g { remote_secret = secret; app = a } else g

unfoldable pub handle_unlock : Platform → Example → Example
handle_unlock p g =
    let (answer, a) = login_with_license p g.license_key g.app in
    settle_unlock p (member (p.no_member "status") "status" answer) (record g { app = a })

pub data Press : Type 0 where
  typed : String → Press
  unlock log_out : Press

-- A press does what the screen has a control for.
unfoldable pub press_at : Platform → Screen → Press → Example → Example
press_at p (activation hwid error key disabled label) (typed s) g = record g { license_key = s }
press_at p (activation hwid error key false label) unlock g = handle_unlock p g
press_at p (granted name tier_level hwid secret) log_out g = record g { app = logout g.app }
press_at p _ _ g = g

unfoldable pub press_all : Platform → List Press → Example → Example
press_all p [] g = g
press_all p (e ∷ es) g = press_all p es (press_at p (screen g) e g)
