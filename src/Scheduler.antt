-- ===== src/Scheduler.antt =====
-- services/paper_broker/scheduler.py: the background worker that runs a market cycle each minute of
-- the session, and the sleep in short steps. `Sleep` shows that the sleep ends, and `Worker` when
-- the worker touches the market.
pub mod Sleep
pub mod Worker
mod Tests
use iran_market_radar.Base.{
  ℕ, zero, suc, ◌+◌, ◌-◌, ◌*◌, ◌≤◌, ◌&&◌, Bool, true, false, not, Option, none, some, List, [], ◌∷◌,
  ltb, if◌then◌else◌,
}
use iran_market_radar.Execution.{min_nat}
use iran_market_radar.Calendar.{Local, SessionState, at_least_one, get_market_session_state}

abbrev pub add_step : ℕ → Option (List ℕ) → Option (List ℕ)
add_step step none = none
add_step step (some steps) = some (step ∷ steps)

-- The loop of `_sleep_responsive`: `running k` is the value of `_is_running` at its test number `k`,
-- which other tasks change while it sleeps. The answer is the seconds of each sleep; `none` means
-- that the fuel does not last.
unfoldable pub sleep_loop : ℕ → (ℕ → Bool) → ℕ → Option (List ℕ)
sleep_loop zero running remaining = none
sleep_loop (suc fuel) running remaining =
    let step = min_nat 30 remaining in
    let rest = sleep_loop fuel (λ k. running (suc k)) (remaining - step) in
    if running 0 && ltb 0 remaining then add_step step rest else some []

unfoldable pub sleep_responsive : ℕ → (ℕ → Bool) → ℕ → Option (List ℕ)
sleep_responsive fuel running seconds = sleep_loop fuel running (at_least_one seconds)

-- How a market cycle ends: it completes, it is paused by the circuit breaker with `retry_after`
-- seconds, or it fails otherwise.
pub data CycleEnd : Type 0 where
  completed failed : CycleEnd
  paused : ℕ → CycleEnd

abbrev pub sleep_seconds : CycleEnd → ℕ
sleep_seconds completed = 60
sleep_seconds failed = 60
sleep_seconds (paused retry_after) = at_least_one retry_after

-- One turn of the worker's loop: whether it runs a market cycle, and the seconds that it then asks
-- `_sleep_responsive` for. `none` is the RuntimeError of the calendar, which ends the worker.
pub record Turn : Type 0 where
  pub touches_market : Bool
  pub seconds : ℕ

abbrev pub turn_at : SessionState → CycleEnd → Turn
turn_at state end =
    if not state.upstream_requests_allowed
    then record { touches_market = false; seconds = state.seconds_until_next_open }
    else record { touches_market = true; seconds = sleep_seconds end }

unfoldable pub worker_turn : List ℕ → Local → CycleEnd → Option Turn
worker_turn holidays l end = elim (get_market_session_state holidays l) [
  | none ↦ none
  | some state ↦ some (turn_at state end)
]
