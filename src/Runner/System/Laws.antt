-- ===== src/Runner/System/Laws.antt =====
-- What holds of the parts holds of the whole, and the start of the frontend comes.
use volq_auth.Base.{
  ℕ, ◌*◌, ◌<◌, ◌≤◌, ◌≡◌, none, some, List, [], ◌∷◌, length, Option-cases, inl, inr, arith,
}
use volq_auth.Runner.Process
use volq_auth.Runner.Process.{
  Runner, Started, proceed, backend_exit, frontend_exit, backend_error, frontend_error, interrupt,
  expire, waiting,
}
use volq_auth.Runner.Wait
use volq_auth.Runner.Wait.{Wait}
use volq_auth.Runner.Wait.Laws.{run_ends, run_decides}
use volq_auth.Runner.System.{System, Event, polled, happened, awaited, react, step, run, begun}

-- The events of a run that are the polling's.
abbrev pub polls : List Event → List Wait.Event
polls [] = []
polls (polled e ∷ es) = e ∷ polls es
polls (happened e ∷ es) = polls es
polls (awaited outcome ∷ es) = polls es

-- The events of a run that are the process's.
abbrev pub happenings : List Event → List Process.Event
happenings [] = []
happenings (polled e ∷ es) = happenings es
happenings (happened e ∷ es) = e ∷ happenings es
happenings (awaited outcome ∷ es) = proceed outcome ∷ happenings es

react-step :
    (e : Process.Event) (s t : System)
    → react e s ≡ some t
    → (Process.step e s.runner ≡ some t.runner) × (t.wait ≡ s.wait)
react-step (proceed outcome) s t h = absurd (ground arith)
react-step backend_exit s t h = ground arith
react-step frontend_exit s t h = ground arith
react-step backend_error s t h = ground arith
react-step frontend_error s t h = ground arith
react-step interrupt s t h = ground arith
react-step expire s t h = ground arith

-- A run of the whole is a run of the process, and a run of the polling beside it.
pub run-run :
    (max : ℕ) (es : List Event) (s t : System)
    → run max es s ≡ some t
    → (Process.run (happenings es) s.runner ≡ some t.runner)
      × (Wait.run max (polls es) s.wait ≡ some t.wait)
unfolding run step Process.run Wait.run
run-run max [] s t h = ground arith
run-run max (polled e ∷ es) s t h = elim (Option-cases (step max (polled e) s)) [
  | inl stuck ↦ absurd (ground arith)
  | inr (u, went) ↦ ground (arith, run-run max es u t)
]
run-run max (happened e ∷ es) s t h = elim (Option-cases (step max (happened e) s)) [
  | inl stuck ↦ absurd (ground arith)
  | inr (u, went) ↦ ground (arith, run-run max es u t, react-step e s u)
]
run-run max (awaited outcome ∷ es) s t h = elim (Option-cases (step max (awaited outcome) s)) [
  | inl stuck ↦ absurd (ground arith)
  | inr (u, went) ↦ ground (arith, run-run max es u t)
]

-- A process that has not ended and still waits takes what follows the wait, however it comes out.
proceeds :
    (r : Runner) (outcome : Started)
    → r.exit_code ≡ none
    → r.phase ≡ waiting
    → (v : Runner) × (Process.step (proceed outcome) r ≡ some v)
unfolding Process.step
proceeds r outcome running still = (Process.launch outcome r, ground arith)

idle_polling :
    (max : ℕ) (t : System) (e : Wait.Event)
    → t.runner.exit_code ≡ none
    → step max (polled e) t ≡ none
    → Wait.step max e t.wait ≡ none
unfolding step
idle_polling max t e running stuck = elim (Option-cases (Wait.step max e t.wait)) [
  | inl k ↦ k
  | inr (w, k) ↦ absurd (ground arith)
]

-- The wait for the backend does not hold up the start: where at least one attempt is allowed, and the process has
-- not ended and still waits, and no event of the polling can happen any more, fewer than 6 events an allowed
-- attempt were the polling's, and the wait comes to its end and what follows it runs, however it comes out.
pub run_proceeds :
    (max : ℕ) (es : List Event) (t : System) (outcome : Started)
    → 1 ≤ max
    → run max es begun ≡ some t
    → t.runner.exit_code ≡ none
    → t.runner.phase ≡ waiting
    → ((e : Wait.Event) → step max (polled e) t ≡ none)
    → (length (polls es) < 6 * max) × ((u : System) × (step max (awaited outcome) t ≡ some u))
unfolding begun step
run_proceeds max es t outcome h r running still stuck =
    let waited = (run-run max es begun t r).1 in
    let (v, went) = proceeds t.runner outcome running still in
    elim (Option-cases t.wait.settled) [
      | inl none_yet ↦ absurd (
          run_decides max (polls es) t.wait h waited (λ e. idle_polling max t e running (stuck e))
            none_yet)
      | inr (b, settled) ↦ (
        (run_ends max (polls es) t.wait h waited).0,
        (record { runner = v; wait = t.wait }, ground arith),
      )
    ]
