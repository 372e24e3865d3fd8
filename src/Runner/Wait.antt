-- ===== src/Runner/Wait.antt =====
-- `waitForBackend` of index.js: the polling of the backend, as a state that events move. Each call of
-- `check` sends one request, and the request is answered, fails, or runs into its timeout.
pub mod Laws
pub mod Excess
use volq_auth.Base.{
  ℕ, ◌+◌, ◌-◌, ◌==◌, leb, Bool, true, false, ◌||◌, Option, none, some, List, [], ◌∷◌, if◌then◌else◌,
}

-- `settled` is what the promise came to. A request that was answered stays open until its connection
-- closes, and can still run into its timeout.
pub record Wait : Type 0 where
  pub attempts : ℕ
  pub scheduled : ℕ
  pub in_flight : ℕ
  pub answered_open : ℕ
  pub settled : Option Bool

pub data Event : Type 0 where
  fire refused timed_out late closed : Event
  answered : ℕ → Event

-- A promise is settled once; later calls of `resolve` and `reject` do nothing.
abbrev pub settle : Bool → Wait → Wait
settle b w = elim w.settled [ none ↦ record w { settled = some b } | some old ↦ w ]

unfoldable pub retry : ℕ → Wait → Wait
retry max w =
    if leb max w.attempts then settle false w else record w { scheduled = w.scheduled + 1 }

-- `res.statusCode === 200 || res.statusCode === 404`
abbrev pub is_healthy : ℕ → Bool
is_healthy status = status == 200 || status == 404

-- The first call of `check`, where the port is a number that `http.get` takes; it throws at any other, which rejects the
-- promise at once.
abbrev pub begun : Wait
begun = record { attempts = 1; scheduled = 0; in_flight = 1; answered_open = 0; settled = none }

-- One request less in flight; `none` where there is none.
abbrev take : Wait → (Wait → Wait) → Option Wait
take w next =
    if w.in_flight == 0 then none else some (next (record w { in_flight = w.in_flight - 1 }))

-- `none` is an event that cannot happen in the state. A request that is destroyed before its answer
-- emits an error, so that a timeout makes both handlers call `retry`.
unfoldable pub step : ℕ → Event → Wait → Option Wait
step max fire w =
    if w.scheduled == 0
    then none
    else some (record w {
      attempts = w.attempts + 1;
      scheduled = w.scheduled - 1;
      in_flight = w.in_flight + 1;
    })
step max refused w = take w (retry max)
step max timed_out w = take w (λ v. retry max (retry max v))
step max (answered status) w = take w λ v.
    let held : Wait = record v { answered_open = v.answered_open + 1 } in
    if is_healthy status then settle true held else retry max held
step max late w =
    if w.answered_open == 0
    then none
    else some (retry max (record w { answered_open = w.answered_open - 1 }))
step max closed w =
    if w.answered_open == 0 then none else some (record w { answered_open = w.answered_open - 1 })

unfoldable pub run : ℕ → List Event → Wait → Option Wait
run max [] w = some w
run max (e ∷ es) w = elim (step max e w) [ none ↦ none | some v ↦ run max es v ]

-- The default of the parameter.
abbrev pub max_attempts : ℕ
max_attempts = 30
