-- ===== src/Runner/Tests/System.antt =====
-- The theorems on index.js as a whole, with one attempt allowed.
use volq_auth.Base.{◌*◌, ◌<◌, ◌≡◌, refl, true, none, some, List, [], ◌∷◌, length, arith}
use volq_auth.Runner.Process
use volq_auth.Runner.Process.{spawned, interrupt, expire, alive, start}
use volq_auth.Runner.Wait
use volq_auth.Runner.Wait.{refused, answered}
use volq_auth.Runner.System.{System, Event, polled, happened, awaited, step, run, begun}
use volq_auth.Runner.System.Laws.{polls, run_proceeds}
use volq_auth.Runner.Tests.{given_up, given_up_stuck}

abbrev events : List Event
events = polled refused ∷ []

abbrev refused_once : System
refused_once = record { runner = start spawned; wait = given_up }

refused_once_stuck : (e : Wait.Event) → step 1 (polled e) refused_once ≡ none
unfolding step start
refused_once_stuck e = ground (arith, given_up_stuck e)

run_proceeds_example :
    (length (polls events) < 6 * 1)
    × ((u : System) × (step 1 (awaited spawned) refused_once ≡ some u))
unfolding run step begun start Wait.step Wait.retry
run_proceeds_example =
    run_proceeds 1 events refused_once spawned (omega arith) refl refl refl refused_once_stuck

-- A process that is told to end during the wait starts the frontend all the same, and leaves it running.
abbrev orphaned : List Event
orphaned = happened interrupt ∷ polled (answered 200) ∷ awaited spawned ∷ happened expire ∷ []

abbrev left_running : System
left_running = record {
  runner = record {
    backend = alive 1;
    frontend = alive 0;
    is_shutting_down = true;
    phase = Process.live;
    exit_code = some 0;
  };
  wait = record {
    attempts = 1;
    scheduled = 0;
    in_flight = 0;
    answered_open = 1;
    settled = some true;
  };
}

run-orphaned : run 1 orphaned begun ≡ some left_running
unfolding run step begun start Process.step Wait.step
run-orphaned = refl
