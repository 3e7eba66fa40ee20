-- ===== src/Scheduler/Tests.antt =====
-- A sleep that is stopped, and a worker that waits for the opening and runs one cycle.
use iran_market_radar.Base.{
  ℕ, ◌+◌, ◌*◌, ◌≡◌, refl, Bool, true, false, some, List, [], ◌∷◌, ltb, arith,
}
use iran_market_radar.Calendar.{Local, second, at_time}
use iran_market_radar.Scheduler.{completed, Turn, sleep_loop, sleep_responsive}
use iran_market_radar.Scheduler.Sleep.{IsSleep, sleep_responsive-IsSleep}
use iran_market_radar.Scheduler.Worker.{Cycle}

-- Stopped after two steps of a sleep of 100 seconds.
abbrev twice : ℕ → Bool
twice k = ltb k 2

stops_early : sleep_responsive 5 twice 100 ≡ some (30 ∷ 30 ∷ [])
unfolding sleep_responsive sleep_loop
stops_early = refl

sleeps_on : sleep_responsive 5 (λ k. true) 100 ≡ some (30 ∷ 30 ∷ 30 ∷ 10 ∷ [])
unfolding sleep_responsive sleep_loop
sleeps_on = refl

sleep_responsive-IsSleep_example :
    (steps : List ℕ) × (sleep_responsive 5 twice 100 ≡ some steps) × IsSleep twice 100 steps
sleep_responsive-IsSleep_example = sleep_responsive-IsSleep 4 twice 100 (omega arith)

-- A Tuesday.
abbrev moment : ℕ → ℕ → ℕ → Local
moment hour minute seconds = record { day = 2; time = at_time hour minute + seconds * second }

abbrev idle : Turn
idle = record { touches_market = false; seconds = 30 }

abbrev busy : Turn
busy = record { touches_market = true; seconds = 60 }

abbrev at_nine : Cycle
at_nine = record { begins = moment 9 0 0; ending = completed }
