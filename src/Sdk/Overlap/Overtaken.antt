-- ===== src/Sdk/Overlap/Overtaken.antt =====
-- Two logins of the provider under way at once.
use volq_auth.Base.{◌≡◌, refl, true, false, some, [], ◌∷◌, arith}
use volq_auth.Base.Value.{null, or_else}
use volq_auth.Sdk.Client.Interface.{Platform, Reply}
use volq_auth.Sdk.Client.Laws.Token.{succeeded, field_of}
use volq_auth.Sdk.Provider.{App}
use volq_auth.Sdk.Provider.Laws.{settle_login_success}
use volq_auth.Sdk.Overlap.{Overlap, Login, login, receive, receive_login, replied, step}

module _ (p : Platform) where
  -- Of two logins that wait for their replies the newer one gets its own first: then nothing is shown as loading
  -- while the older one is still under way, and when the older one succeeds, its user is the one that is shown.
  pub overtaken_login :
      (older newer : Login) (first last : Reply) (a : App)
      → succeeded (receive_login p older last (receive p (login newer) first a).0.1).0 ≡ true
      → (s t : Overlap) × (step p
            (replied 1 first)
            (record { app = a; pending = login older ∷ login newer ∷ [] })
          ≡ some s)
        × (s.pending ≡ login older ∷ [])
        × (s.app.0.is_loading ≡ false)
        × (step p (replied 0 last) s ≡ some t)
        × (t.pending ≡ [])
        × (t.app.0.is_authenticated ≡ true)
        × (t.app.0.session_token
            ≡ or_else (field_of "session_token" (receive_login p older last s.app.1).0) null)
  unfolding step receive
  overtaken_login older newer first last a won =
      let s : Overlap = record {
        app = (receive p (login newer) first a).0;
        pending = login older ∷ [];
      } in
      let t : Overlap = record { app = (receive p (login older) last s.app).0; pending = [] } in
      let shown = settle_login_success p (receive_login p older last s.app.1).0 s.app.0 won in
      (s, t, refl, refl, refl, refl, refl, ground (arith, shown), ground (arith, shown))
