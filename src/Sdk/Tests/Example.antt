-- ===== src/Sdk/Tests/Example.antt =====
-- The theorems on the example of the React SDK, with a server that answers and with one that refuses.
use volq_auth.Base.{◌≡◌, ◌⊎◌, true, ok, List, [], ◌∷◌, is_empty, trim}
use volq_auth.Base.Value.{null, obj, end, or_else}
use volq_auth.Sdk.Client.Interface.{Platform}
use volq_auth.Sdk.Example.{
  connecting, activation, begun, screen, Press, typed, unlock, log_out, press_all,
}
use volq_auth.Sdk.Example.Laws.{press_all-screen}
use volq_auth.Sdk.Tests.{online, platform_of, blank}

-- A key with white space around it, a logout, and the same key again.
abbrev visit : List Press
visit = typed " KEY " ∷ unlock ∷ log_out ∷ unlock ∷ []

abbrev refusing : Platform
refusing = platform_of (record { status = 500; json = ok (obj end) })

press_all-screen_example :
    (screen (press_all online visit (begun online blank)) ≡ connecting)
    ⊎ (((press_all online visit (begun online blank)).app.0.is_authenticated ≡ true)
        ⊎ ((screen (press_all online visit (begun online blank))
              ≡ activation
                  (press_all online visit (begun online blank)).app.0.hwid
                  (press_all online visit (begun online blank)).app.0.error
                  (press_all online visit (begun online blank)).license_key
                  (is_empty (trim (press_all online visit (begun online blank)).license_key))
                  "Unlock Application")
            × (or_else (press_all online visit (begun online blank)).app.1.0.session_token null
                ≡ null)))
press_all-screen_example = press_all-screen online blank visit
