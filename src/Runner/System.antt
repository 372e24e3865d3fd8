-- ===== src/Runner/System.antt =====
-- index.js as a whole, from the start of the backend on: `start` waits for what `waitForBackend` comes to, while
-- its children and the signals to the process go their own way.
pub mod Laws
use volq_auth.Base.{ℕ, Option, none, some, List, [], ◌∷◌}
use volq_auth.Runner.Process
use volq_auth.Runner.Process.{Runner, Started, spawned, proceed}
use volq_auth.Runner.Wait
use volq_auth.Runner.Wait.{Wait}

pub record System : Type 0 where
  pub runner : Runner
  pub wait : Wait

-- An event of the polling, one of the process, and the end of `await waitForBackend(…)` with what follows it.
pub data Event : Type 0 where
  polled : Wait.Event → Event
  happened : Process.Event → Event
  awaited : Started → Event

-- An event of a process that has not ended.
abbrev while_running : Runner → Option System → Option System
while_running r next = elim r.exit_code [ none ↦ next | some code ↦ none ]

abbrev with_wait : Runner → Option Wait → Option System
with_wait r none = none
with_wait r (some w) = some (record { runner = r; wait = w })

abbrev with_runner : Wait → Option Runner → Option System
with_runner w none = none
with_runner w (some r) = some (record { runner = r; wait = w })

-- What the process does by itself; the end of the wait is not among it.
abbrev react : Process.Event → System → Option System
react (proceed outcome) s = none
react e s = with_runner s.wait (Process.step e s.runner)

-- `none` is an event that cannot happen.
unfoldable pub step : ℕ → Event → System → Option System
step max (polled e) s = while_running s.runner (with_wait s.runner (Wait.step max e s.wait))
step max (happened e) s = react e s
step max (awaited outcome) s = elim s.wait.settled [
  | none ↦ none
  | some b ↦ with_runner s.wait (Process.step (proceed outcome) s.runner)
]

unfoldable pub run : ℕ → List Event → System → Option System
run max [] s = some s
run max (e ∷ es) s = elim (step max e s) [ none ↦ none | some t ↦ run max es t ]

-- The backend is started and the first request is under way.
unfoldable pub begun : System
begun = record { runner = Process.start spawned; wait = Wait.begun }
