-- ===== src/Calibration/Tests.antt =====
-- A candidate that is trained on seventy trades and then activated.
use iran_market_radar.Base.{
  ℕ, zero, suc, ◌%◌, ◌≡◌, refl, none, some, List, [], ◌∷◌, if◌then◌else◌, ◌==◌,
}
use iran_market_radar.Base.Int.{pos}
use iran_market_radar.Float.Fixed.{Fixed, fixed_float}
use iran_market_radar.Calibration.{
  CalibrationArtifact, active, ScoredTrade, Sample, Fitted, train_candidate, activate_candidate,
  candidate, samples_of, insufficient, register,
}
use iran_market_radar.Calibration.Training.{IsTrained, train_candidate-IsTrained}
use iran_market_radar.Calibration.Activation.{
  Reachable, start, trained, activated, IsSound, Reachable-IsSound,
}

-- Trades that win and lose in turn, in two regimes.
abbrev trades : ℕ → List (ScoredTrade Fixed)
trades zero = []
trades (suc n) =
    record {
      opportunity_score = some (pos 60_000_000);
      net_pnl = if n % 2 == 0 then pos 1_000_000 else pos 0;
      regime = some (n % 3);
    }
    ∷ trades n

abbrev fit : List (Sample Fixed) → List (Sample Fixed) → Fitted Fixed
fit train oos = record { version = 9; brier_before = pos 250_000; brier_after = pos 200_000 }

abbrev candidate_of_70 : CalibrationArtifact Fixed
candidate_of_70 = record {
  id = 1;
  version = 9;
  status = candidate;
  train_sample_size = 50;
  oos_sample_size = 20;
  brier_before = pos 250_000;
  brier_after = pos 200_000;
  activated_at = none;
}

abbrev activated_of_70 : CalibrationArtifact Fixed
activated_of_70 = record candidate_of_70 { status = active; activated_at = some 500 }

train_of_70 : (train_candidate fit 1 (trades 70) []).artifacts ≡ candidate_of_70 ∷ []
unfolding train_candidate samples_of insufficient register
train_of_70 = refl

train_of_69 : (train_candidate fit 1 (trades 69) []).artifacts ≡ []
unfolding train_candidate samples_of insufficient register
train_of_69 = refl

activate_of_70 :
    activate_candidate candidate_of_70 500 (candidate_of_70 ∷ []) ≡ some (activated_of_70 ∷ [])
unfolding activate_candidate
activate_of_70 = refl

activate_twice : activate_candidate activated_of_70 600 (activated_of_70 ∷ []) ≡ none
unfolding activate_candidate
activate_twice = refl

reachable_of_70 : Reachable (activated_of_70 ∷ [])
unfolding train_candidate samples_of insufficient register
reachable_of_70 =
    activated 500 candidate_of_70 (trained fit 1 (trades 70) start) refl activate_of_70

Reachable-IsSound_example : IsSound (activated_of_70 ∷ [])
Reachable-IsSound_example = Reachable-IsSound (activated_of_70 ∷ []) reachable_of_70

train_candidate-IsTrained_example :
    IsTrained fit (samples_of (trades 70)) [] (train_candidate fit 1 (trades 70) [])
train_candidate-IsTrained_example = train_candidate-IsTrained fit 1 (trades 70) []
