-- ===== src/Sdk/Example/Laws.antt =====
-- The example keeps to what the provider promises, whatever is pressed in it.
use volq_auth.Base.{
  ◌≡◌, refl, ◌⊎◌, inl, inr, true, false, List, [], ◌∷◌, String, is_empty, trim, arith, Bool-cases,
  Result, ok, throw,
}
use volq_auth.Base.Value.{Value, null, str, is_text, member, or_else}
use volq_auth.Sdk.Client.Interface.{Platform, World}
use volq_auth.Sdk.Provider.{
  by_license, read_variable, leave, step, run, start, init, mount, handshake_failed,
  login_with_license,
}
use volq_auth.Sdk.Provider.Laws.{IsConsistent, step-IsConsistent, run-IsConsistent}
use volq_auth.Sdk.Example.{
  Example, Screen, connecting, granted, activation, config, begun, screen, settle_unlock,
  handle_unlock, Press, typed, unlock, log_out, press_at, press_all,
}

module _ (p : Platform) where
  settle_unlock-IsConsistent :
      (status : Result String Value) (g : Example)
      → IsConsistent g.app
      → IsConsistent (settle_unlock p status g).app
  unfolding settle_unlock step
  settle_unlock-IsConsistent (throw e) g h = h
  settle_unlock-IsConsistent (ok status) g h = elim (Bool-cases (is_text status "success")) [
    | inl won ↦ rw won (step-IsConsistent p (read_variable "LICENSE_ENCRYPTION_KEY") g.app h)
    | inr lost ↦ rw lost h
  ]

  handle_unlock-IsConsistent :
      (g : Example) → IsConsistent g.app → IsConsistent (handle_unlock p g).app
  unfolding handle_unlock step
  handle_unlock-IsConsistent g h =
      settle_unlock-IsConsistent
        (member (p.no_member "status") "status" (login_with_license p g.license_key g.app).0)
        (record g { app = (login_with_license p g.license_key g.app).1 })
        (step-IsConsistent p (by_license g.license_key) g.app h)

  press_at-IsConsistent :
      (shown : Screen) (e : Press) (g : Example)
      → IsConsistent g.app
      → IsConsistent (press_at p shown e g).app
  unfolding press_at step
  press_at-IsConsistent connecting e g h = h
  press_at-IsConsistent (granted n t w s) (typed k) g h = h
  press_at-IsConsistent (granted n t w s) unlock g h = h
  press_at-IsConsistent (granted n t w s) log_out g h = step-IsConsistent p leave g.app h
  press_at-IsConsistent (activation w e k off l) (typed k') g h = h
  press_at-IsConsistent (activation w e k true l) unlock g h = h
  press_at-IsConsistent (activation w e k false l) unlock g h = handle_unlock-IsConsistent g h
  press_at-IsConsistent (activation w e k off l) log_out g h = h

  press_all-IsConsistent :
      (es : List Press) (g : Example) → IsConsistent g.app → IsConsistent (press_all p es g).app
  unfolding press_all
  press_all-IsConsistent [] g h = h
  press_all-IsConsistent (e ∷ es) g h =
      press_all-IsConsistent es (press_at p (screen g) e g) (press_at-IsConsistent (screen g) e g h)

  begun-IsConsistent : (w : World) → IsConsistent (begun p w).app
  unfolding begun run
  begun-IsConsistent w = run-IsConsistent p config true w []

  screen-cases :
      (g : Example)
      → IsConsistent g.app
      → (screen g ≡ connecting)
        ⊎ ((g.app.0.is_authenticated ≡ true)
            ⊎ ((screen g
                  ≡ activation g.app.0.hwid g.app.0.error g.license_key
                      (is_empty (trim g.license_key))
                      "Unlock Application")
                × (or_else g.app.1.0.session_token null ≡ null)))
  unfolding screen
  screen-cases g h = elim (Bool-cases g.app.0.is_initialized) [
    | inl ready ↦ elim (Bool-cases g.app.0.is_authenticated) [
      | inl inside ↦ inr (inl inside)
      | inr outside ↦ inr (inr (ground (arith, h.idle), ground (arith, h.synced, h.token_kept)))
    ]
    | inr not_ready ↦ inl (ground arith)
  ]

  press_all-connecting :
      (es : List Press) (g : Example) → screen g ≡ connecting → press_all p es g ≡ g
  unfolding press_all press_at
  press_all-connecting [] g h = refl
  press_all-connecting (e ∷ es) g h = rw h (press_all-connecting es g h)

  start_failed :
      (w : World)
      → (start p config true w).0.is_initialized ≡ false
      → (start p config true w).0.error ≡ str handshake_failed
  unfolding start init mount
  start_failed w h = ground arith

  -- Whatever is pressed in the example, it says that it connects, or the user is authenticated, or it shows the
  -- form: with the error of the provider and the key that was entered, with a button that can be pressed where the
  -- key is more than white space, and with no token left in the client.
  pub press_all-screen :
      (w : World) (es : List Press)
      → (screen (press_all p es (begun p w)) ≡ connecting)
        ⊎ (((press_all p es (begun p w)).app.0.is_authenticated ≡ true)
            ⊎ ((screen (press_all p es (begun p w))
                  ≡ activation
                      (press_all p es (begun p w)).app.0.hwid
                      (press_all p es (begun p w)).app.0.error
                      (press_all p es (begun p w)).license_key
                      (is_empty (trim (press_all p es (begun p w)).license_key))
                      "Unlock Application")
                × (or_else (press_all p es (begun p w)).app.1.0.session_token null ≡ null)))
  press_all-screen w es =
      screen-cases (press_all p es (begun p w))
        (press_all-IsConsistent es (begun p w) (begun-IsConsistent w))

  -- Where the handshake fails, the example says that it connects for good, whatever is pressed, and does not show
  -- the error that the provider holds.
  press_all_stuck :
      (w : World) (es : List Press)
      → (start p config true w).0.is_initialized ≡ false
      → (screen (press_all p es (begun p w)) ≡ connecting)
        × ((press_all p es (begun p w)).app.0.error ≡ str handshake_failed)
  unfolding begun screen
  press_all_stuck w es failed =
      let shown : screen (begun p w) ≡ connecting = ground arith in
      rw (press_all-connecting es (begun p w) shown) (shown, start_failed w failed)
