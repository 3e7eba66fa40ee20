-- ===== src/Scheduler/Sleep.antt =====
-- The sleep ends: it never needs more steps than its seconds take in steps of thirty.
use iran_market_radar.Base.{
  ℕ, zero, suc, ◌+◌, ◌-◌, ◌*◌, ◌≤◌, ◌≡◌, refl, ap, ◌&&◌, Bool, true, false, Option, some, List, [],
  ◌∷◌, ltb, length, All, arith, by_if,
}
use iran_market_radar.Execution.{min_nat}
use iran_market_radar.Calendar.{at_least_one}
use iran_market_radar.Scheduler.{add_step, sleep_loop, sleep_responsive}

abbrev pub total : List ℕ → ℕ
total [] = 0
total (s ∷ ss) = s + total ss

-- The steps of a sleep of `remaining` seconds.
pub record IsSleep (running : ℕ → Bool) (remaining : ℕ) (steps : List ℕ) : Type 0 where
  pub short : All (λ s. (1 ≤ s) × (s ≤ 30)) steps
  pub in_time : total steps ≤ remaining
  pub whole : ((k : ℕ) → running k ≡ true) → total steps ≡ remaining
  pub prompt : (k : ℕ) → running k ≡ false → length steps ≤ k

Ends : (ℕ → Bool) → ℕ → Option (List ℕ) → Type 0
Ends running remaining r = (steps : List ℕ) × (r ≡ some steps) × IsSleep running remaining steps

stopped :
    (running : ℕ → Bool) (remaining : ℕ)
    → (running 0 && ltb 0 remaining) ≡ false
    → IsSleep running remaining []
stopped running remaining h = record {
  short = tt;
  in_time = omega arith;
  whole = λ on. let first = on 0 in ground arith;
  prompt = λ k off. omega arith;
}

step-IsSleep :
    (running : ℕ → Bool) (remaining : ℕ) (steps : List ℕ)
    → (running 0 && ltb 0 remaining) ≡ true
    → IsSleep (λ k. running (suc k)) (remaining - min_nat 30 remaining) steps
    → IsSleep running remaining (min_nat 30 remaining ∷ steps)
step-IsSleep running remaining steps h rest = record {
  short = (ground arith, rest.short);
  in_time = let later = rest.in_time in ground arith;
  whole = λ on. let later = rest.whole (λ k. on (suc k)) in ground arith;
  prompt = prompt_at;
}
  where
    prompt_at : (k : ℕ) → running k ≡ false → length (min_nat 30 remaining ∷ steps) ≤ k
    prompt_at zero off = ground arith
    prompt_at (suc k) off = let later = rest.prompt k off in ground arith

goes-or-stops :
    (fuel : ℕ) (running : ℕ → Bool) (remaining : ℕ)
    → ((running 0 && ltb 0 remaining) ≡ true
        → Ends
            (λ k. running (suc k))
            (remaining - min_nat 30 remaining)
            (sleep_loop fuel (λ k. running (suc k)) (remaining - min_nat 30 remaining)))
    → Ends running remaining (sleep_loop (suc fuel) running remaining)
unfolding Ends sleep_loop
goes-or-stops fuel running remaining next =
    by_if (Ends running remaining) (running 0 && ltb 0 remaining)
      (λ goes.
        let (steps, same, rest) = next goes in
        (
          min_nat 30 remaining ∷ steps,
          ap (add_step (min_nat 30 remaining)) same,
          step-IsSleep running remaining steps goes rest,
        ))
      (λ stops. ([], refl, stopped running remaining stops))

sleep_loop-Ends :
    (n : ℕ) (running : ℕ → Bool) (remaining : ℕ)
    → remaining ≤ n * 30
    → Ends running remaining (sleep_loop (suc n) running remaining)
sleep_loop-Ends zero running remaining enough =
    goes-or-stops zero running remaining (λ goes. ground arith)
sleep_loop-Ends (suc n) running remaining enough = goes-or-stops (suc n) running remaining (λ goes.
    sleep_loop-Ends n (λ k. running (suc k)) (remaining - min_nat 30 remaining) (ground arith))

-- The sleep ends, however the flag of the worker changes: with one more unit of fuel than the steps
-- of thirty seconds that cover it, at least one second, it answers its steps. Each takes from 1 to 30
-- seconds, together no more than was asked; as much as that, if the worker is never stopped; and a
-- test that finds the worker stopped is the last.
pub sleep_responsive-IsSleep :
    (n : ℕ) (running : ℕ → Bool) (seconds : ℕ)
    → at_least_one seconds ≤ n * 30
    → (steps : List ℕ) × (sleep_responsive (suc n) running seconds ≡ some steps)
      × IsSleep running (at_least_one seconds) steps
unfolding sleep_responsive Ends
sleep_responsive-IsSleep n running seconds enough =
    sleep_loop-Ends n running (at_least_one seconds) enough
