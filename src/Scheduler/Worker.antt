-- ===== src/Scheduler/Worker.antt =====
-- The worker's turns in time, and when they touch the market.
use iran_market_radar.Base.{
  ℕ, ◌+◌, ◌*◌, ◌≤◌, ◌≡◌, ◌⊎◌, true, some, List, [], ◌∷◌, if◌then◌else◌, Option,
}
use iran_market_radar.Calendar.{Local, instant, second, is_tse_market_open}
use iran_market_radar.Scheduler.{CycleEnd, paused, Turn, worker_turn, sleep_responsive}
use iran_market_radar.Scheduler.Sleep.{total}

-- A cycle: when it begins, and how it ends.
pub record Cycle : Type 0 where
  pub begins : Local
  pub ending : CycleEnd

-- The cycles, the newest first, once a turn at `l` is over.
abbrev pub noted : Turn → Local → CycleEnd → List Cycle → List Cycle
noted t l end cycles =
    if t.touches_market then record { begins = l; ending = end } ∷ cycles else cycles

-- The worker at a moment, with the cycles that it has run: a turn ends when the steps of its sleep
-- have passed, which the worker sleeps without being stopped, since a worker that is stopped makes no
-- further turn. A cycle itself takes any time.
pub data Works (holidays : List ℕ) : Local → List Cycle → Type 0 where
  starts : (l : Local) → Works holidays l []
  turns :
      {l : Local} {cycles : List Cycle} (end : CycleEnd) (t : Turn) (fuel : ℕ) (steps : List ℕ)
      (next : Local)
      → Works holidays l cycles
      → worker_turn holidays l end ≡ some t
      → sleep_responsive fuel (λ _. true) t.seconds ≡ some steps
      → instant l + total steps * second ≤ instant next
      → Works holidays next (noted t l end cycles)

-- At least a minute after a cycle, or, after one that the circuit breaker has paused, the seconds that
-- it asks for and at least one.
abbrev pub IsApart : Cycle → ℕ → Type 0
IsApart c now =
    (instant c.begins + 60 * second ≤ now)
    ⊎ ((retry_after : ℕ) × (c.ending ≡ paused retry_after)
        × (instant c.begins + retry_after * second ≤ now)
        × (instant c.begins + second ≤ now))

-- The cycles of a list begin in the session, each so long before the later ones and before `now`.
pub data Spaced (holidays : List ℕ) : ℕ → List Cycle → Type 0 where
  none_yet : {now : ℕ} → Spaced holidays now []
  one_more :
      {now : ℕ} {c : Cycle} {cycles : List Cycle}
      → is_tse_market_open holidays c.begins ≡ true
      → IsApart c now
      → Spaced holidays (instant c.begins) cycles
      → Spaced holidays now (c ∷ cycles)
