-- ===== src/Runner/Tests.antt =====
-- The theorems on the runner at concrete events, files and machines.
mod Machine
mod System
use volq_auth.Base.{
  ℕ, ◌*◌, ◌≤◌, ◌<◌, ◌≡◌, ◌≢◌, ◌↔◌, ◌⊎◌, refl, Bool, true, false, Option, none, some, List, [], ◌∷◌,
  length, String, ◌<>◌, ok, throw, Option-cases, inl, inr, arith, is_empty, is_space, All,
}
use volq_auth.Base.Value.{ℤ, pos}
use volq_auth.Base.Digits.{to_string}
use volq_auth.Base.Storage.{Storage, get_item, set_item}
use volq_auth.Runner.Wait
use volq_auth.Runner.Wait.{Wait, begun, fire, refused, timed_out, answered, max_attempts}
use volq_auth.Runner.Wait.Laws.{has_reply, run_ends, run_decides, run_honest}
use volq_auth.Runner.Env.{EnvFile, absent, content, load_env, apply_file}
use volq_auth.Runner.Env.Laws.{Holds, load_env-Holds}
use volq_auth.Runner.Env.RoundTrip.{IsKey, IsEntry, print_file, set_all, apply_file-print_file}
use volq_auth.Runner.Ports.{public_port, requested_port, backend_port, same_port}
use volq_auth.Runner.Process
use volq_auth.Runner.Process.{
  Runner, alive, ended, live, waiting, spawned, proceed, interrupt, expire, backend_exit, start,
}
use volq_auth.Runner.Process.Laws.{signals, allowed, run-signals, run_leaves}
use volq_auth.Runner.Process.Orphan.{run_orphan}

-- The backend refuses the first request and answers the second one.
abbrev late_reply : List Wait.Event
late_reply = refused ∷ fire ∷ answered 404 ∷ []

abbrev replied : Wait
replied = record {
  attempts = 2;
  scheduled = 0;
  in_flight = 0;
  answered_open = 1;
  settled = some true;
}

run-replied : Wait.run 30 late_reply begun ≡ some replied
unfolding Wait.run Wait.step Wait.retry
run-replied = refl

run_ends_example : (length late_reply < 6 * 30) × (replied.attempts < 2 * 30)
run_ends_example = run_ends 30 late_reply replied (omega arith) run-replied

run_honest_example : has_reply late_reply ≡ true
run_honest_example = run_honest 30 late_reply replied run-replied refl

-- The one attempt that is allowed is refused.
abbrev pub given_up : Wait
given_up = record {
  attempts = 1;
  scheduled = 0;
  in_flight = 0;
  answered_open = 0;
  settled = some false;
}

run-given_up : Wait.run 1 (refused ∷ []) begun ≡ some given_up
unfolding Wait.run Wait.step Wait.retry
run-given_up = refl

pub given_up_stuck : (e : Wait.Event) → Wait.step 1 e given_up ≡ none
unfolding Wait.step
given_up_stuck fire = refl
given_up_stuck refused = refl
given_up_stuck timed_out = refl
given_up_stuck Wait.late = refl
given_up_stuck Wait.closed = refl
given_up_stuck (answered status) = refl

run_decides_example : given_up.settled ≢ none
run_decides_example =
    run_decides 1 (refused ∷ []) given_up (omega arith) run-given_up given_up_stuck

abbrev files : List String → EnvFile
files [] = absent
files (name ∷ path) = content "JWT_SECRET=other\n"

abbrev secret_env : Storage
secret_env = ("JWT_SECRET", "mine") ∷ []

secret_env-Holds : Holds "JWT_SECRET" "mine" secret_env
unfolding get_item
secret_env-Holds = (refl, refl)

load_env-Holds_example : Holds "JWT_SECRET" "mine" (load_env files secret_env)
load_env-Holds_example = load_env-Holds "JWT_SECRET" "mine" files secret_env secret_env-Holds

abbrev settings : List (String × String)
settings = ("PORT", "80") ∷ ("ID", " a=#") ∷ []

port-IsKey : IsKey "PORT"
unfolding is_space
port-IsKey = record {
  filled = refl;
  starts = refl;
  ends = refl;
  no_sign = (refl, (refl, (refl, (refl, tt))));
  no_comment = refl;
}

id-IsKey : IsKey "ID"
unfolding is_space
id-IsKey = record {
  filled = refl;
  starts = refl;
  ends = refl;
  no_sign = (refl, (refl, tt));
  no_comment = refl;
}

settings-IsEntry : All IsEntry settings
settings-IsEntry = (
  (port-IsKey, (refl, (refl, (refl, (refl, tt)))), (refl, (refl, tt))),
  ((id-IsKey, (refl, (refl, tt)), (refl, (refl, (refl, (refl, tt))))), tt),
)

apply_file-print_file_example : apply_file (content (print_file settings)) [] ≡ set_all settings []
apply_file-print_file_example = apply_file-print_file settings [] settings-IsEntry

abbrev served : Runner
served = record {
  backend = alive 0;
  frontend = alive 0;
  is_shutting_down = false;
  phase = live;
  exit_code = none;
}

abbrev stopped : Runner
stopped = record {
  backend = alive 1;
  frontend = alive 1;
  is_shutting_down = true;
  phase = live;
  exit_code = some 0;
}

run-served : Process.run (proceed spawned ∷ []) (start spawned) ≡ some served
unfolding Process.run Process.step start
run-served = refl

run-stopped : Process.run (interrupt ∷ interrupt ∷ expire ∷ []) served ≡ some stopped
unfolding Process.run Process.step
run-stopped = refl

stopped_from_start :
    Process.run (proceed spawned ∷ interrupt ∷ interrupt ∷ expire ∷ []) (start spawned)
    ≡ some stopped
unfolding Process.run Process.step start
stopped_from_start = refl

run-signals_example :
    (signals stopped.backend ≤ allowed stopped.is_shutting_down)
    × (signals stopped.frontend ≤ allowed stopped.is_shutting_down)
    × (allowed stopped.is_shutting_down ≤ 1)
run-signals_example =
    run-signals spawned (proceed spawned ∷ interrupt ∷ interrupt ∷ expire ∷ []) stopped
      stopped_from_start

run_leaves_example : (stopped.backend ≢ alive 0) × (stopped.frontend ≢ alive 0)
run_leaves_example =
    run_leaves (interrupt ∷ interrupt ∷ expire ∷ []) served stopped 0 refl refl refl run-stopped
      refl

abbrev crashed : Runner
crashed = record {
  backend = ended;
  frontend = alive 1;
  is_shutting_down = true;
  phase = live;
  exit_code = some 0;
}

run-crashed : Process.run (backend_exit ∷ expire ∷ []) served ≡ some crashed
unfolding Process.run Process.step
run-crashed = refl

crashed_ended : crashed.exit_code ≢ none
crashed_ended n = ground arith

abbrev orphaned : Runner
orphaned = record {
  backend = alive 1;
  frontend = alive 0;
  is_shutting_down = true;
  phase = live;
  exit_code = some 0;
}

run-orphaned :
    Process.run (interrupt ∷ proceed spawned ∷ expire ∷ []) (start spawned) ≡ some orphaned
unfolding Process.run Process.step start
run-orphaned = refl

run_orphan_example : (orphaned.is_shutting_down ≡ true) × (orphaned.frontend ≡ alive 0)
unfolding start
run_orphan_example = run_orphan (expire ∷ []) (start spawned) orphaned refl refl refl run-orphaned
