-- ===== src/Runner/Process/Laws.antt =====
-- No child is signalled twice, and a process that is live when it is told to end leaves no child without a signal.
use volq_auth.Base.{
  ℕ, ◌≤◌, ◌≡◌, ◌≢◌, ◌⊎◌, inl, inr, Bool, true, false, none, some, List, [], ◌∷◌, Option-cases,
  arith,
}
use mathlib.Core.Path.{subst}
use volq_auth.Runner.Process.{
  Child, absent, ended, alive, live, Runner, Started, exits, throws, spawned, start, Event, proceed,
  backend_exit, frontend_exit, backend_error, frontend_error, interrupt, expire, step, run,
}

-- The signals that a child was sent.
abbrev pub signals : Child → ℕ
signals absent = 0
signals ended = 0
signals (alive n) = n

abbrev pub allowed : Bool → ℕ
allowed false = 0
allowed true = 1

-- No child was sent a signal before the shutdown, and none more than once; there is a frontend only when live.
pub record IsOrderly (r : Runner) : Type 0 where
  pub backend : signals r.backend ≤ allowed r.is_shutting_down
  pub frontend : signals r.frontend ≤ allowed r.is_shutting_down
  pub absent_before : (r.phase ≡ live) ⊎ (r.frontend ≡ absent)

start-IsOrderly : (s : Started) → IsOrderly (start s)
unfolding start
start-IsOrderly (exits code) = ground arith
start-IsOrderly throws = ground arith
start-IsOrderly spawned = ground arith

step-IsOrderly : (e : Event) (r v : Runner) → IsOrderly r → step e r ≡ some v → IsOrderly v
unfolding step
step-IsOrderly (proceed (exits code)) r v h s = ground arith
step-IsOrderly (proceed throws) r v h s = ground arith
step-IsOrderly (proceed spawned) r v h s = ground arith
step-IsOrderly backend_exit r v h s = ground arith
step-IsOrderly frontend_exit r v h s = ground arith
step-IsOrderly backend_error r v h s = ground arith
step-IsOrderly frontend_error r v h s = ground arith
step-IsOrderly interrupt r v h s = ground arith
step-IsOrderly expire r v h s = ground arith

-- A property that each event keeps holds after a run.
module _ (P : Runner → Type 0)
    (kept : (e : Event) (r v : Runner) → P r → step e r ≡ some v → P v) where
  pub run_keeps : (es : List Event) (r v : Runner) → P r → run es r ≡ some v → P v
  unfolding run
  run_keeps [] r v p h = subst P (ground arith) p
  run_keeps (e ∷ es) r v p h = elim (Option-cases (step e r)) [
    | inl n ↦ absurd (ground arith)
    | inr (u, s) ↦ run_keeps es u v (kept e r u p s) (ground arith)
  ]

allowed_le : (b : Bool) → allowed b ≤ 1
allowed_le false = omega arith
allowed_le true = omega arith

-- However the start comes out and whatever happens after it, each child gets the signal to end at most once, and none
-- before the shutdown.
pub run-signals :
    (s : Started) (es : List Event) (r : Runner)
    → run es (start s) ≡ some r
    → (signals r.backend ≤ allowed r.is_shutting_down)
      × (signals r.frontend ≤ allowed r.is_shutting_down)
      × (allowed r.is_shutting_down ≤ 1)
run-signals s es r h =
    let done : IsOrderly r =
      run_keeps IsOrderly step-IsOrderly es (start s) r (start-IsOrderly s) h in
    (done.backend, done.frontend, allowed_le r.is_shutting_down)

-- A live process: once it shuts down, a child that runs was sent its signal; it has ended only if it shut down.
record IsCovered (r : Runner) : Type 0 where
  is_live : r.phase ≡ live
  covered : (r.is_shutting_down ≡ false) ⊎ ((r.backend ≢ alive 0) × (r.frontend ≢ alive 0))
  ended_by : (r.exit_code ≡ none) ⊎ (r.is_shutting_down ≡ true)

step-IsCovered : (e : Event) (r v : Runner) → IsCovered r → step e r ≡ some v → IsCovered v
unfolding step
step-IsCovered (proceed outcome) r v h s = ground arith
step-IsCovered backend_exit r v h s = ground arith
step-IsCovered frontend_exit r v h s = ground arith
step-IsCovered backend_error r v h s = ground arith
step-IsCovered frontend_error r v h s = ground arith
step-IsCovered interrupt r v h s = ground arith
step-IsCovered expire r v h s = ground arith

-- Where a process was live before it began to shut down, no child that still runs at its end was left without the
-- signal to end.
pub run_leaves :
    (es : List Event) (r v : Runner) (code : ℕ)
    → r.phase ≡ live
    → r.is_shutting_down ≡ false
    → r.exit_code ≡ none
    → run es r ≡ some v
    → v.exit_code ≡ some code
    → (v.backend ≢ alive 0) × (v.frontend ≢ alive 0)
run_leaves es r v code l n o h c =
    let done : IsCovered v =
      run_keeps IsCovered step-IsCovered es r v
        (record { is_live = l; covered = inl n; ended_by = inl o }) h in
    elim done.ended_by [
      | inl still ↦ absurd (ground arith)
      | inr shut ↦ elim done.covered [ inl open_still ↦ absurd (ground arith) | inr both ↦ both ]
    ]
