-- ===== src/Runner/Process/Orphan.antt =====
-- How a process ends that is told to end before its frontend is there, and how one ends whose child crashed.
use volq_auth.Base.{
  ◌≡◌, ◌≢◌, ◌⊎◌, inl, inr, Bool, true, false, ◌&&◌, none, some, List, [], ◌∷◌, Option-cases, arith,
}
use volq_auth.Runner.Process.{
  alive, waiting, live, Runner, spawned, Event, proceed, backend_exit, frontend_exit, backend_error,
  frontend_error, interrupt, expire, step, run,
}
use volq_auth.Runner.Process.Laws.{run_keeps}

-- Told to end, with a frontend that runs and was not.
record IsOrphan (r : Runner) : Type 0 where
  shut : r.is_shutting_down ≡ true
  is_live : r.phase ≡ live
  unaware : (r.frontend ≡ alive 0)

abbrev spares : Event → Bool
spares frontend_exit = false
spares frontend_error = false
spares (proceed outcome) = true
spares backend_exit = true
spares backend_error = true
spares interrupt = true
spares expire = true

-- The frontend does not end by itself.
abbrev pub all_spare : List Event → Bool
all_spare [] = true
all_spare (e ∷ es) = spares e && all_spare es

step-IsOrphan :
    (e : Event) (r v : Runner) → spares e ≡ true → IsOrphan r → step e r ≡ some v → IsOrphan v
unfolding step
step-IsOrphan (proceed outcome) r v k h s = ground arith
step-IsOrphan backend_exit r v k h s = ground arith
step-IsOrphan frontend_exit r v k h s = ground arith
step-IsOrphan backend_error r v k h s = ground arith
step-IsOrphan frontend_error r v k h s = ground arith
step-IsOrphan interrupt r v k h s = ground arith
step-IsOrphan expire r v k h s = ground arith

run-IsOrphan :
    (es : List Event) (r v : Runner)
    → all_spare es ≡ true
    → IsOrphan r
    → run es r ≡ some v
    → IsOrphan v
unfolding run
run-IsOrphan [] r v k h s = ground arith
run-IsOrphan (e ∷ es) r v k h s = elim (Option-cases (step e r)) [
  | inl n ↦ absurd (ground arith)
  | inr (u, t) ↦
      run-IsOrphan es u v (ground arith) (step-IsOrphan e r u (ground arith) h t) (ground arith)
]

-- Where the process is told to end while it waits for the backend, and the wait comes to its end within the second
-- that is left, the frontend is started all the same, and is sent no signal, whatever happens until the process
-- ends, unless the frontend ends by itself.
pub run_orphan :
    (es : List Event) (r v : Runner)
    → r.phase ≡ waiting
    → r.exit_code ≡ none
    → all_spare es ≡ true
    → run (interrupt ∷ proceed spawned ∷ es) r ≡ some v
    → (v.is_shutting_down ≡ true) × (v.frontend ≡ alive 0)
unfolding run step
run_orphan es r v w o k h = elim (Option-cases (step interrupt r)) [
  | inl n ↦ absurd (ground arith)
  | inr (u, s) ↦ elim (Option-cases (step (proceed spawned) u)) [
    | inl n ↦ absurd (ground arith)
    | inr (t, p) ↦
        let begun : IsOrphan t = ground arith in
        let done : IsOrphan v = run-IsOrphan es t v k begun (ground arith) in
        (done.shut, done.unaware)
  ]
]

-- Live, and still running or ended with the code 0.
record IsQuiet (r : Runner) : Type 0 where
  is_live : r.phase ≡ live
  code : (r.exit_code ≡ none) ⊎ (r.exit_code ≡ some 0)

step-IsQuiet : (e : Event) (r v : Runner) → IsQuiet r → step e r ≡ some v → IsQuiet v
unfolding step
step-IsQuiet (proceed outcome) r v h s = ground arith
step-IsQuiet backend_exit r v h s = ground arith
step-IsQuiet frontend_exit r v h s = ground arith
step-IsQuiet backend_error r v h s = ground arith
step-IsQuiet frontend_error r v h s = ground arith
step-IsQuiet interrupt r v h s = ground arith
step-IsQuiet expire r v h s = ground arith

-- Whatever ends a process that was live, the exit of a child that crashed included, it ends with the code 0.
run_code :
    (es : List Event) (r v : Runner)
    → r.phase ≡ live
    → r.exit_code ≡ none
    → run es r ≡ some v
    → v.exit_code ≢ none
    → v.exit_code ≡ some 0
run_code es r v l o h c =
    let done : IsQuiet v =
      run_keeps IsQuiet step-IsQuiet es r v (record { is_live = l; code = inl o }) h in
    elim done.code [ inl still ↦ absurd (c still) | inr success ↦ success ]
