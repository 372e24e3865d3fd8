-- ===== src/Runner/Wait/Excess.antt =====
-- A timeout of `waitForBackend` calls `retry` twice, so that more attempts are made than allowed.
use volq_auth.Base.{ℕ, zero, suc, ◌+◌, ◌*◌, none, List, [], ◌∷◌, ◌++◌}
use volq_auth.Runner.Wait.{Wait, Event, fire, timed_out}

-- Nothing is answered yet.
abbrev waiting : ℕ → ℕ → ℕ → Wait
waiting attempts scheduled in_flight = record {
  attempts = attempts;
  scheduled = scheduled;
  in_flight = in_flight;
  answered_open = 0;
  settled = none;
}

abbrev times : ℕ → Event → List Event
times zero e = []
times (suc n) e = e ∷ times n e

abbrev grow : ℕ → List Event
grow zero = []
grow (suc n) = timed_out ∷ fire ∷ fire ∷ grow n

-- Requests that run into their timeouts, a timer that is due, and so on.
abbrev pub slow_backend : ℕ → List Event
slow_backend n = grow n ++ (times (n + 1) timed_out ++ times (2 * n + 2) fire)
