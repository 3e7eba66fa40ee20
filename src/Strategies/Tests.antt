-- ===== src/Strategies/Tests.antt =====
-- The candidates of a rising stock in a leading sector.
use iran_market_radar.Base.{◌≡◌, refl, Option, none, some, List, [], ◌∷◌, map}
use iran_market_radar.Base.Int.{pos}
use iran_market_radar.Float.Fixed.{Fixed, fixed_float, Fixed-IsOrdered, Fixed-IsArithmetic}
use iran_market_radar.Regime.{neutral}
use iran_market_radar.Strategies.{
  Key, cross_sectional_momentum, sector_rotation, time_series_trend, StrategyContext,
  CandidateResult, Feature, close, ret_20d, ret_60d, ema_20, ema_trend_score, days_5, other_horizon,
  basic_metals, propose, only_if, raise_if, ret_3d,
}
use iran_market_radar.Strategies.Trend.{momentum, trend, pullback, ichimoku}
use iran_market_radar.Strategies.Volume.{breakout, volume, squeeze, reversion}
use iran_market_radar.Strategies.Flow.{accumulation, rotation, confluence, divergence}
use iran_market_radar.Strategies.Registry.{evaluate_all, default_strategies}
use iran_market_radar.Strategies.Candidates.{AreVotes, evaluate_all-AreVotes}

abbrev rising : Feature → Option Fixed
rising close = some (pos 1_000_000_000)
rising ret_20d = some (pos 100_000)
rising ret_60d = some (pos 90_000)
rising ema_20 = some (pos 950_000_000)
rising ema_trend_score = some (pos 1_000_000)
rising _ = none

abbrev context : StrategyContext Fixed
context = record {
  sector_name = some basic_metals;
  horizon = days_5;
  features = rising;
  market_regime = neutral;
}

abbrev keys_and_votes : Option (List (CandidateResult Fixed)) → Option (List (Key × Fixed))
keys_and_votes none = none
keys_and_votes (some cs) = some (map (λ c. (c.strategy_key, c.vote)) cs)

three_candidates :
    keys_and_votes (evaluate_all default_strategies context)
    ≡ some (
        (cross_sectional_momentum, pos 700_000)
        ∷ (time_series_trend, pos 800_000)
        ∷ (sector_rotation, pos 740_000)
        ∷ [])
unfolding evaluate_all momentum trend pullback ichimoku breakout volume squeeze reversion
    accumulation rotation confluence divergence propose only_if raise_if
three_candidates = refl

no_candidate :
    evaluate_all default_strategies (record context { horizon = other_horizon }) ≡ some []
unfolding evaluate_all
no_candidate = refl

-- A pullback at a close of zero raises.
abbrev worthless : Feature → Option Fixed
worthless close = some (pos 0)
worthless ret_60d = some (pos 90_000)
worthless ret_3d = some (fixed_float.neg (pos 30_000))
worthless _ = none

raises : evaluate_all default_strategies (record context { features = worthless }) ≡ none
unfolding evaluate_all momentum trend pullback ichimoku breakout volume squeeze reversion
    accumulation rotation confluence divergence propose only_if raise_if
raises = refl

abbrev candidates : List (CandidateResult Fixed)
unfolding evaluate_all momentum trend pullback ichimoku breakout volume squeeze reversion
    accumulation rotation confluence divergence propose only_if raise_if
candidates = elim (evaluate_all default_strategies context) [ none ↦ [] | some cs ↦ cs ]

candidates_lem : evaluate_all default_strategies context ≡ some candidates
unfolding evaluate_all momentum trend pullback ichimoku breakout volume squeeze reversion
    accumulation rotation confluence divergence propose only_if raise_if candidates
candidates_lem = refl

evaluate_all-AreVotes_example : AreVotes 0 candidates
evaluate_all-AreVotes_example =
    evaluate_all-AreVotes Fixed-IsOrdered Fixed-IsArithmetic context refl candidates_lem
