-- ===== src/Sdk/Overlap/Laws.antt =====
-- What stays true of the provider and its client however the operations overlap.
use volq_auth.Base.{
  ℕ, zero, suc, ◌≡◌, refl, ap, ◌∙◌, Bool, true, false, ◌||◌, some, List, [], ◌∷◌, ◌++◌, get_elem?,
  remove, Option-cases, Bool-cases, inl, inr, arith,
}
use mathlib.Core.Path.{subst}
use volq_auth.Sdk.Client.{Config, new_client}
use volq_auth.Sdk.Client.Interface.{Platform, World, Reply}
use volq_auth.Sdk.Provider.{
  App, Op, initialize, leave, by_license, read_variable, by_credentials, mount, logout,
}
use volq_auth.Sdk.Overlap.{
  Overlap, license, user, Wait, handshake, variable, opening, login, begin_login, begin_init,
  begin_read, begin_op, receive, Event, began, replied, step, run, start,
}
use volq_auth.Sdk.Overlap.Honest.{IsHonest, receive-IsHonest, begin_op-IsHonest}

-- The operations that show the provider as loading.
abbrev loads : Wait → Bool
loads variable = false
loads _ = true

abbrev pub any_loads : List Wait → Bool
any_loads [] = false
any_loads (w ∷ ws) = loads w || any_loads ws

-- Nothing is shown as loading where no login and no handshake is under way.
pub record IsSound (o : Overlap) : Type 0 where
  pub honest : IsHonest o.app
  pub idle : any_loads o.pending ≡ false → o.app.0.is_loading ≡ false

any_loads-append : (xs ys : List Wait) → any_loads (xs ++ ys) ≡ (any_loads xs || any_loads ys)
any_loads-append [] ys = refl
any_loads-append (x ∷ xs) ys = ground (arith, any_loads-append xs ys)

any_loads-remove :
    (ws : List Wait) (i : ℕ)
    → get_elem? ws i ≡ some variable
    → any_loads (remove ws i) ≡ any_loads ws
any_loads-remove [] i h = refl
any_loads-remove (w ∷ ws) zero h = ground arith
any_loads-remove (w ∷ ws) (suc i) h = ground (arith, any_loads-remove ws i)

loads-variable : (w : Wait) → loads w ≡ false → w ≡ variable
loads-variable variable h = refl
loads-variable handshake h = absurd (ground arith)
loads-variable (opening l) h = absurd (ground arith)
loads-variable (login l) h = absurd (ground arith)

module _ (p : Platform) where
  -- A reply that ends a login or a handshake ends the loading.
  receive-idle :
      (w : Wait) (reply : Reply) (a : App)
      → loads w ≡ true
      → any_loads (receive p w reply a).1 ≡ false
      → (receive p w reply a).0.0.is_loading ≡ false
  unfolding receive
  receive-idle handshake reply (v, (c, x)) l h = refl
  receive-idle variable reply a l h = absurd (ground arith)
  receive-idle (opening l) reply (v, (c, x)) k h = ground arith
  receive-idle (login l) reply (v, (c, x)) k h = refl

  receive-variable : (reply : Reply) (a : App) → receive p variable reply a ≡ (a, [])
  unfolding receive
  receive-variable reply a = refl

  begin_op-idle :
      (op : Op) (o : Overlap)
      → (any_loads o.pending ≡ false → o.app.0.is_loading ≡ false)
      → any_loads (begin_op p op o).pending ≡ false
      → (begin_op p op o).app.0.is_loading ≡ false
  unfolding begin_op begin_login begin_init begin_read logout
  begin_op-idle initialize o f h =
      absurd (ground (arith, any_loads-append o.pending (handshake ∷ [])))
  begin_op-idle leave o f h = f h
  begin_op-idle (by_license k) o f h = absurd (
      ground (
        arith,
        any_loads-append o.pending (login (license k) ∷ []),
        any_loads-append o.pending (opening (license k) ∷ []),
      ))
  begin_op-idle (by_credentials u k) o f h = absurd (
      ground (
        arith,
        any_loads-append o.pending (login (user u k) ∷ []),
        any_loads-append o.pending (opening (user u k) ∷ []),
      ))
  begin_op-idle (read_variable k) o f h =
      ground (arith, any_loads-append o.pending (variable ∷ []), f)

  pub replied-IsSound :
      (i : ℕ) (w : Wait) (reply : Reply) (o : Overlap)
      → get_elem? o.pending i ≡ some w
      → IsSound o
      → IsSound (record {
        app = (receive p w reply o.app).0;
        pending = remove o.pending i ++ (receive p w reply o.app).1;
      })
  replied-IsSound i w reply o e h = record {
    honest = receive-IsHonest p w reply o.app h.honest;
    idle = λ quiet. elim (Bool-cases (loads w)) [
      | inl heavy ↦
          receive-idle w reply o.app heavy (
            ground
              (arith, any_loads-append (remove o.pending i) (receive p w reply o.app).1, quiet))
      | inr light ↦
          let settled : receive p w reply o.app ≡ (o.app, []) =
            ap (λ x. receive p x reply o.app) (loads-variable w light)
            ∙ receive-variable reply o.app in
          ground (
            arith,
            settled,
            h.idle,
            loads-variable w light,
            any_loads-remove o.pending i,
            any_loads-append (remove o.pending i) [],
          )
    ];
  }

  step-IsSound : (e : Event) (o t : Overlap) → IsSound o → step p e o ≡ some t → IsSound t
  unfolding step
  step-IsSound (began op) o t h k =
      subst IsSound {x = begin_op p op o} {y = t} (ground arith)
        (record { honest = begin_op-IsHonest p op o h.honest; idle = begin_op-idle op o h.idle })
  step-IsSound (replied i reply) o t h k = elim (Option-cases (get_elem? o.pending i)) [
    | inl e ↦ absurd (ground arith)
    | inr (w, e) ↦
        subst IsSound
          {x = record {
            app = (receive p w reply o.app).0;
            pending = remove o.pending i ++ (receive p w reply o.app).1;
          }}
          {y = t} (ground arith) (replied-IsSound i w reply o e h)
  ]

  pub run-IsSound : (es : List Event) (o t : Overlap) → IsSound o → run p es o ≡ some t → IsSound t
  unfolding run
  run-IsSound [] o t h k = subst IsSound {x = o} {y = t} (ground arith) h
  run-IsSound (e ∷ es) o t h k = elim (Option-cases (step p e o)) [
    | inl stuck ↦ absurd (ground arith)
    | inr (m, went) ↦ run-IsSound es m t (step-IsSound e o m h went) (ground arith)
  ]

  mounted : Config → Bool → World → Overlap
  mounted config auto_init w = record { app = mount config auto_init w; pending = [] }

  pub start-IsSound :
      (config : Config) (auto_init : Bool) (w : World) → IsSound (start p config auto_init w)
  unfolding start mount new_client begin_op begin_init mounted
  start-IsSound config true w = record {
    honest =
        begin_op-IsHonest p initialize (mounted config true w)
          (record { synced = refl; unlocked = refl; token_kept = refl });
    idle = λ quiet. absurd (ground arith);
  }
  start-IsSound config false w = record {
    honest = record { synced = refl; unlocked = refl; token_kept = refl };
    idle = λ _. refl;
  }
