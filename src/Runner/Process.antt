-- ===== src/Runner/Process.antt =====
-- `start` and `shutdown` of index.js: the two children, the signals that they get, and the end of the process.
pub mod Laws
pub mod Orphan
use volq_auth.Base.{
  ℕ, ◌+◌, ◌==◌, Bool, true, false, not, ◌&&◌, ◌||◌, Option, none, some, List, [], ◌∷◌, Result, ok,
  throw, if◌then◌else◌,
}

-- `alive n` is a process that was sent `SIGTERM` n times; `ended` is also one that failed to start.
pub data Child : Type 0 where
  absent ended : Child
  alive : ℕ → Child

-- `waiting` is the wait for the backend, `live` what follows the start of the frontend, and `failed` a start that threw.
pub data Phase : Type 0 where
  waiting live failed : Phase

pub record Runner : Type 0 where
  pub backend : Child
  pub frontend : Child
  pub is_shutting_down : Bool
  pub phase : Phase
  pub exit_code : Option ℕ

-- `child.kill('SIGTERM')`, where there is a child; one that ended gets nothing.
abbrev pub kill : Child → Child
kill absent = absent
kill ended = ended
kill (alive n) = alive (n + 1)

-- `shutdown`; the timer that it starts is an event.
abbrev pub shutdown : Runner → Runner
shutdown r =
    if r.is_shutting_down
    then r
    else record r { is_shutting_down = true; frontend = kill r.frontend; backend = kill r.backend }

-- Before the process: no child, nothing happened.
abbrev idle : Runner
idle = record {
  backend = absent;
  frontend = absent;
  is_shutting_down = false;
  phase = waiting;
  exit_code = none;
}

-- How a step that starts a child comes out: the preparation ends the process, or `spawn` throws, or gives a child.
pub data Started : Type 0 where
  exits : ℕ → Started
  throws spawned : Started

-- `start` up to the wait for the backend.
unfoldable pub start : Started → Runner
start (exits code) = record idle { exit_code = some code }
start throws = shutdown (record idle { phase = failed })
start spawned = record idle { backend = alive 0 }

-- `proceed` is the end of the wait, with or without an answer, and what follows it; the next two are the end of a child
-- and its failure to start. `interrupt` is a signal to the process, `expire` the timer of `shutdown`.
pub data Event : Type 0 where
  proceed : Started → Event
  backend_exit frontend_exit backend_error frontend_error interrupt expire : Event

abbrev is_alive : Child → Bool
is_alive absent = false
is_alive ended = false
is_alive (alive n) = true

abbrev is_waiting : Phase → Bool
is_waiting waiting = true
is_waiting live = false
is_waiting failed = false

-- `ensureFrontendReady` and the start of the frontend; nothing looks at `isShuttingDown`.
abbrev pub launch : Started → Runner → Runner
launch (exits code) r = record r { exit_code = some code }
launch throws r = shutdown (record r { phase = failed })
launch spawned r = record r { phase = live; frontend = alive 0 }

-- One event of a process that has not ended; `none` is an event that cannot happen.
abbrev react : Event → Runner → Option Runner
react (proceed outcome) r = if is_waiting r.phase then some (launch outcome r) else none
react backend_exit r =
    if is_alive r.backend then some (shutdown (record r { backend = ended })) else none
react frontend_exit r =
    if is_alive r.frontend then some (shutdown (record r { frontend = ended })) else none
react backend_error r = if is_alive r.backend then some (record r { backend = ended }) else none
react frontend_error r = if is_alive r.frontend then some (record r { frontend = ended }) else none
react interrupt r = some (shutdown r)
react expire r = if r.is_shutting_down then some (record r { exit_code = some 0 }) else none

unfoldable pub step : Event → Runner → Option Runner
step e r = elim r.exit_code [ none ↦ react e r | some code ↦ none ]

unfoldable pub run : List Event → Runner → Option Runner
run [] r = some r
run (e ∷ es) r = elim (step e r) [ none ↦ none | some v ↦ run es v ]
