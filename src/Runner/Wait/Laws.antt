-- ===== src/Runner/Wait/Laws.antt =====
-- The polling of the backend ends, after a bounded number of requests, and with a decision.
use volq_auth.Base.{
  ℕ, ◌+◌, ◌-◌, ◌*◌, ◌≤◌, ◌<◌, ◌≡◌, ◌≢◌, ◌⊎◌, inl, inr, Bool, true, false, ◌||◌, none, some, List,
  [], ◌∷◌, length, Option-cases, Bool-cases, arith,
}
use mathlib.Core.Path.{subst}
use volq_auth.Runner.Wait.{
  Wait, Event, fire, refused, timed_out, late, closed, answered, retry, is_healthy, begun, step,
  run,
}

-- What holds between two events. The first bound is on what can still lead to a call of `check`: a request
-- in flight makes at most two more, an answered one that is open at most one.
pub record IsBounded (max : ℕ) (w : Wait) : Type 0 where
  pub pending : w.scheduled + 2 * w.in_flight + w.answered_open ≤ w.attempts + 1
  pub total : w.attempts + w.scheduled + 1 ≤ 2 * max
  pub alive : (w.settled ≡ some true) ⊎ (w.settled ≡ some false) ⊎ (1 ≤ w.scheduled + w.in_flight)

begun-IsBounded : (max : ℕ) → 1 ≤ max → IsBounded max begun
begun-IsBounded max h = record {
  pending = omega arith;
  total = omega arith;
  alive = inr (inr (omega arith));
}

-- What still has to happen, at most.
abbrev remaining : ℕ → Wait → ℕ
remaining max w = 3 * (2 * max - w.attempts) + 2 * w.in_flight + w.answered_open

step-IsBounded :
    (max : ℕ) (e : Event) (w v : Wait) → IsBounded max w → step max e w ≡ some v → IsBounded max v
unfolding step retry
step-IsBounded max fire w v h s = ground arith
step-IsBounded max refused w v h s = ground arith
step-IsBounded max timed_out w v h s = ground arith
step-IsBounded max late w v h s = ground arith
step-IsBounded max closed w v h s = ground arith
step-IsBounded max (answered status) w v h s = ground arith

step-remaining :
    (max : ℕ) (e : Event) (w v : Wait)
    → IsBounded max w
    → step max e w ≡ some v
    → remaining max v + 1 ≤ remaining max w
unfolding step retry
step-remaining max fire w v h s = ground arith
step-remaining max refused w v h s = ground arith
step-remaining max timed_out w v h s = ground arith
step-remaining max late w v h s = ground arith
step-remaining max closed w v h s = ground arith
step-remaining max (answered status) w v h s = ground arith

module _ (max : ℕ) where
  run-IsBounded :
      (es : List Event) (w v : Wait) → IsBounded max w → run max es w ≡ some v → IsBounded max v
  unfolding run
  run-IsBounded [] w v h r = subst (IsBounded max) (ground arith) h
  run-IsBounded (e ∷ es) w v h r = elim (Option-cases (step max e w)) [
    | inl n ↦ absurd (ground arith)
    | inr (u, s) ↦ run-IsBounded es u v (step-IsBounded max e w u h s) (ground arith)
  ]

  run-remaining :
      (es : List Event) (w v : Wait)
      → IsBounded max w
      → run max es w ≡ some v
      → length es + remaining max v ≤ remaining max w
  unfolding run
  run-remaining [] w v h r = ground arith
  run-remaining (e ∷ es) w v h r = elim (Option-cases (step max e w)) [
    | inl n ↦ absurd (ground arith)
    | inr (u, s) ↦ omega (
      arith,
      step-remaining max e w u h s,
      run-remaining es u v (step-IsBounded max e w u h s) (ground arith),
    )
  ]

abbrev is_reply : Event → Bool
is_reply (answered status) = is_healthy status
is_reply fire = false
is_reply refused = false
is_reply timed_out = false
is_reply late = false
is_reply closed = false

-- Some request was answered with 200 or 404.
abbrev pub has_reply : List Event → Bool
has_reply [] = false
has_reply (e ∷ es) = is_reply e || has_reply es

step-settled :
    (max : ℕ) (e : Event) (w v : Wait)
    → step max e w ≡ some v
    → v.settled ≡ some true
    → (w.settled ≡ some true) ⊎ (is_reply e ≡ true)
unfolding step retry
step-settled max fire w v s t = ground arith
step-settled max refused w v s t = ground arith
step-settled max timed_out w v s t = ground arith
step-settled max late w v s t = ground arith
step-settled max closed w v s t = ground arith
step-settled max (answered status) w v s t = ground arith

run-settled :
    (max : ℕ) (es : List Event) (w v : Wait)
    → run max es w ≡ some v
    → v.settled ≡ some true
    → (w.settled ≡ some true) ⊎ (has_reply es ≡ true)
unfolding run
run-settled max [] w v r t = ground arith
run-settled max (e ∷ es) w v r t = elim (Option-cases (step max e w)) [
  | inl n ↦ absurd (ground arith)
  | inr (u, s) ↦ elim (run-settled max es u v (ground arith) t) [
    | inl old ↦ elim (step-settled max e w u s old) [ inl a ↦ inl a | inr b ↦ inr (rw b) ]
    | inr later ↦ elim (Bool-cases (is_reply e)) [ inl b ↦ inr (rw b) | inr b ↦ inr (rw b later) ]
  ]
]

-- Polling ends: after at least one attempt was allowed, no more than 6 events an allowed attempt can follow the
-- first request, and no more than twice the allowed attempts, less one, are made.
pub run_ends :
    (max : ℕ) (es : List Event) (w : Wait)
    → 1 ≤ max
    → run max es begun ≡ some w
    → (length es < 6 * max) × (w.attempts < 2 * max)
run_ends max es w h r =
    let start : IsBounded max begun = begun-IsBounded max h in
    let done : IsBounded max w = run-IsBounded max es begun w start r in
    (omega (arith, run-remaining max es begun w start r), omega (arith, done.total))

-- Polling decides: when at least one attempt is allowed and no event can happen any more, the promise is resolved or
-- rejected.
pub run_decides :
    (max : ℕ) (es : List Event) (w : Wait)
    → 1 ≤ max
    → run max es begun ≡ some w
    → ((e : Event) → step max e w ≡ none)
    → w.settled ≢ none
unfolding step
run_decides max es w h r stuck =
    let done : IsBounded max w = run-IsBounded max es begun w (begun-IsBounded max h) r in
    let fired : step max fire w ≡ none = stuck fire in
    let failed : step max refused w ≡ none = stuck refused in
    elim done.alive [
      | inl t ↦ λ n. ground arith
      | inr (inl f) ↦ λ n. ground arith
      | inr (inr l) ↦ absurd (ground arith)
    ]

-- The promise is resolved only after some request was answered with the status 200 or 404.
pub run_honest :
    (max : ℕ) (es : List Event) (w : Wait)
    → run max es begun ≡ some w
    → w.settled ≡ some true
    → has_reply es ≡ true
run_honest max es w r t = elim (run-settled max es begun w r t) [
  | inl n ↦ absurd (ground arith)
  | inr b ↦ b
]
