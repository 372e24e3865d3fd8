-- ===== src/Sdk/Overlap/Settle.antt =====
-- A server that answers brings every operation of the provider to its end.
use mathlib.Core.Path.{subst}
use volq_auth.Base.{
  ℕ, zero, suc, ◌+◌, ◌*◌, ◌≤◌, ◌≡◌, refl, ap, Bool, false, some, List, [], ◌∷◌, ◌++◌, length,
  remove, List-cases, inl, inr, arith,
}
use volq_auth.Sdk.Client.{Config}
use volq_auth.Sdk.Client.Interface.{Platform, World, Reply, HttpRequest}
use volq_auth.Sdk.Provider.{App}
use volq_auth.Sdk.Overlap.{
  Overlap, Wait, handshake, variable, opening, login, receive, Event, run, start,
}
use volq_auth.Sdk.Overlap.Honest.{IsHonest}
use volq_auth.Sdk.Overlap.Laws.{any_loads, IsSound, replied-IsSound, run-IsSound, start-IsSound}

-- The oldest of the operations under way gets its reply from a server that knows what it was sent.
unfoldable pub serve : Platform → (List HttpRequest → Reply) → Overlap → Overlap
serve p server o = elim o.pending [
  | [] ↦ o
  | w ∷ ws ↦
      let (a, more) = receive p w (server o.app.1.1.sent) o.app in
      record { app = a; pending = ws ++ more }
]

unfoldable pub serve_all : Platform → (List HttpRequest → Reply) → ℕ → Overlap → Overlap
serve_all p server zero o = o
serve_all p server (suc n) o = serve_all p server n (serve p server o)

-- The replies that an operation waits for at most.
abbrev weight : Wait → ℕ
weight (opening l) = 2
weight _ = 1

abbrev weights : List Wait → ℕ
weights [] = 0
weights (w ∷ ws) = weight w + weights ws

weights-append : (xs ys : List Wait) → weights (xs ++ ys) ≡ weights xs + weights ys
weights-append [] ys = omega arith
weights-append (x ∷ xs) ys = omega (arith, weights-append xs ys)

weights-le : (ws : List Wait) → weights ws ≤ 2 * length ws
weights-le [] = omega arith
weights-le (opening l ∷ ws) = omega (arith, weights-le ws)
weights-le (login l ∷ ws) = omega (arith, weights-le ws)
weights-le (handshake ∷ ws) = omega (arith, weights-le ws)
weights-le (variable ∷ ws) = omega (arith, weights-le ws)

module _ (p : Platform) (server : List HttpRequest → Reply) where
  receive-weight :
      (w : Wait) (reply : Reply) (a : App) → weights (receive p w reply a).1 + 1 ≤ weight w
  unfolding receive
  receive-weight handshake reply (v, s) = omega arith
  receive-weight variable reply a = omega arith
  receive-weight (opening l) reply (v, s) = ground arith
  receive-weight (login l) reply (v, s) = omega arith

  serve-weights :
      (n : ℕ) (o : Overlap) → weights o.pending ≤ n + 1 → weights (serve p server o).pending ≤ n
  unfolding serve
  serve-weights n o h = elim (List-cases o.pending) [
    | inl e ↦ ground arith
    | inr (w, ws, e) ↦ ground (
      arith,
      receive-weight w (server o.app.1.1.sent) o.app,
      weights-append ws (receive p w (server o.app.1.1.sent) o.app).1,
    )
  ]

  serve-IsSound : (o : Overlap) → IsSound o → IsSound (serve p server o)
  unfolding serve
  serve-IsSound o h = elim (List-cases o.pending) [
    | inl e ↦ subst IsSound {x = o} {y = serve p server o} (ground arith) h
    | inr (w, ws, e) ↦
        let reply = server o.app.1.1.sent in
        subst IsSound
          {x = record {
            app = (receive p w reply o.app).0;
            pending = remove o.pending 0 ++ (receive p w reply o.app).1;
          }}
          {y = serve p server o} (ground arith) (replied-IsSound p 0 w reply o (ground arith) h)
  ]

  serve_all-IsSound : (n : ℕ) (o : Overlap) → IsSound o → IsSound (serve_all p server n o)
  unfolding serve_all
  serve_all-IsSound zero o h = h
  serve_all-IsSound (suc n) o h = serve_all-IsSound n (serve p server o) (serve-IsSound o h)

  no_weight : (ws : List Wait) → weights ws ≤ 0 → ws ≡ []
  no_weight [] h = refl
  no_weight (opening l ∷ ws) h = absurd (omega arith)
  no_weight (login l ∷ ws) h = absurd (omega arith)
  no_weight (handshake ∷ ws) h = absurd (omega arith)
  no_weight (variable ∷ ws) h = absurd (omega arith)

  serve_all-done :
      (n : ℕ) (o : Overlap) → weights o.pending ≤ n → (serve_all p server n o).pending ≡ []
  unfolding serve_all
  serve_all-done zero o h = no_weight o.pending h
  serve_all-done (suc n) o h = serve_all-done n (serve p server o) (serve-weights n o (omega arith))

  -- However the operations of the provider overlap and whatever the replies were, a server that answers the oldest
  -- request first, whatever it answers, brings them all to their end with two replies for each that is under way;
  -- then nothing is shown as loading, the token shown is the client's, and nobody who is not authenticated is shown
  -- with a token or a subscription.
  pub run_settles :
      (config : Config) (auto_init : Bool) (w : World) (es : List Event) (o : Overlap)
      → run p es (start p config auto_init w) ≡ some o
      → let t = serve_all p server (2 * length o.pending) o in
        (t.pending ≡ []) × (t.app.0.is_loading ≡ false) × IsHonest t.app
  run_settles config auto_init w es o h =
      let sound =
        serve_all-IsSound (2 * length o.pending) o (
          run-IsSound p es (start p config auto_init w) o (start-IsSound p config auto_init w) h) in
      let done = serve_all-done (2 * length o.pending) o (weights-le o.pending) in
      (done, sound.idle (ap any_loads done), sound.honest)
