-- ===== src/Runner/Launch/Laws.antt =====
-- When a launch ends the process instead.
use volq_auth.Base.{
  ℕ, ◌≡◌, refl, Bool, false, not, ◌&&◌, inl, inr, Option, List, [], ◌∷◌, ◌++◌, ◌===◌, throw, Action,
  ◌>>◌, gets, Bool-cases, Result-cases, >>-ok, >>-throw, arith,
}
use volq_auth.Base.Value.{ℤ}
use volq_auth.Base.Storage.{Storage}
use volq_auth.Runner.Host.{Command, Host, run_or_exit, go_version}
use volq_auth.Runner.Prepare.{
  install, build, build_command, ensure_frontend_ready, resolve_backend_command, binary_path,
  node_modules, next_build_dir,
}
use volq_auth.Runner.Ports.{is_dev, backend_port}
use volq_auth.Runner.Launch.{frontend_spawn, launch_backend, launch_frontend}

-- The process ends with code 1, and the command that ran last failed.
abbrev pub HasFailed : Host → ℕ → List Command → Type 0
HasFailed host code ran =
    (code ≡ 1)
    × (before : List Command) × (c : Command) × (ran ≡ before ++ c ∷ [])
    × (host.succeeds before c ≡ false)

abbrev ExitsFailed : {A : Type 0} → Host → Action (List Command) ℕ A → Type 0
ExitsFailed host m =
    (ran : List Command) (code : ℕ) → (m ran).0 ≡ throw code → HasFailed host code (m ran).1

run_or_exit-ExitsFailed : (host : Host) (c : Command) → ExitsFailed host (run_or_exit host c)
run_or_exit-ExitsFailed host c ran code h = elim (Bool-cases (host.succeeds ran c)) [
  | inl e ↦ absurd (ground arith)
  | inr e ↦ (ground arith, ran, c, refl, e)
]

install-ExitsFailed : (host : Host) → ExitsFailed host (install host)
unfolding install
install-ExitsFailed host ran code h = elim (Bool-cases (host.exists ran node_modules)) [
  | inl e ↦ absurd (ground arith)
  | inr e ↦ rw e (run_or_exit-ExitsFailed host _ ran code (rw e at h))
]

build-ExitsFailed :
    (host : Host) (dev : Bool) (port : Option ℤ) (env : Storage)
    → ExitsFailed host (build host dev port env)
unfolding build
build-ExitsFailed host dev port env ran code h =
    elim (Bool-cases (not dev && not (host.exists ran next_build_dir))) [
      | inl e ↦
          rw e (run_or_exit-ExitsFailed host (build_command host port env ran) ran code (rw e at h))
      | inr e ↦ absurd (ground arith)
    ]

>>-ExitsFailed :
    {A B : Type 0} (host : Host) (m : Action (List Command) ℕ A) (k : Action (List Command) ℕ B)
    → ExitsFailed host m
    → ExitsFailed host k
    → ExitsFailed host (m >> k)
>>-ExitsFailed host m k f g ran code h = elim (Result-cases (m ran).0) [
  | inl (a, e) ↦ let first = >>-ok m k ran a e in rw first (g (m ran).1 code (rw first at h))
  | inr (x, e) ↦ let first = >>-throw m k ran x e in rw first (f ran code (ground arith))
]

-- The preparation of the frontend ends the process only with code 1, after a command that fails.
launch_frontend_exit :
    (host : Host) (env : Storage) (ran : List Command) (code : ℕ)
    → (launch_frontend host env ran).0 ≡ throw code
    → HasFailed host code (launch_frontend host env ran).1
unfolding launch_frontend ensure_frontend_ready
launch_frontend_exit host env =
    let dev : Bool = is_dev env in
    >>-ExitsFailed host _ (gets (frontend_spawn host env))
      (>>-ExitsFailed host (install host) (build host dev (backend_port env) env)
        (install-ExitsFailed host) (build-ExitsFailed host dev (backend_port env) env))
      (λ ran code h. absurd (ground arith))

-- The start of the backend ends the process only with code 1, where there is no binary for the machine and no Go.
launch_backend_exit :
    (host : Host) (env : Storage) (ran : List Command) (code : ℕ)
    → (launch_backend host env ran).0 ≡ throw code
    → (code ≡ 1)
      × (host.exists ran (binary_path host) ≡ false)
      × (host.succeeds ran go_version ≡ false)
unfolding launch_backend resolve_backend_command
launch_backend_exit host env ran code h = elim (Bool-cases (host.exists ran (binary_path host))) [
  | inl e ↦ elim (Bool-cases (host.platform === "win32")) [
    | inl w ↦ absurd (ground arith)
    | inr w ↦ absurd (ground arith)
  ]
  | inr e ↦ elim (Bool-cases (host.succeeds ran go_version)) [
    | inl w ↦ absurd (ground arith)
    | inr w ↦ (ground arith, e, w)
  ]
]
