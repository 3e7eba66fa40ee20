-- ===== src/Strategies/Registry.antt =====
-- packages/strategies/registry.py: the strategies by key, and their candidates for one context.
use iran_market_radar.Base.{
  ℕ, Bool, true, false, Option, none, some, List, [], ◌∷◌, ◌==◌, if◌then◌else◌, find,
}
use iran_market_radar.Float.{Float}
use iran_market_radar.Scorer.{Family, composite, named}
use iran_market_radar.Strategies.{
  Key, cross_sectional_momentum, time_series_trend, breakout_volume, trend_pullback,
  selective_mean_reversion, volume_anomaly, client_flow, ichimoku_cloud_trend, sector_rotation,
  bb_squeeze_breakout, multi_indicator_confluence, smart_money_divergence, Horizon, other_horizon,
  StrategyContext, CandidateResult, Evaluation, raised, nothing, found,
}
use iran_market_radar.Strategies.Trend.{momentum, trend, pullback, ichimoku}
use iran_market_radar.Strategies.Volume.{breakout, volume, squeeze, reversion}
use iran_market_radar.Strategies.Flow.{accumulation, rotation, confluence, divergence}

-- The position of a key among the texts that the code compares.
abbrev pub number_of : Key → ℕ
number_of cross_sectional_momentum = 0
number_of time_series_trend = 1
number_of breakout_volume = 2
number_of trend_pullback = 3
number_of selective_mean_reversion = 4
number_of volume_anomaly = 5
number_of client_flow = 6
number_of ichimoku_cloud_trend = 7
number_of sector_rotation = 8
number_of bb_squeeze_breakout = 9
number_of multi_indicator_confluence = 10
number_of smart_money_divergence = 11

-- `STRATEGY_FAMILY_BY_KEY`; the families are trend, breakout_volatility, mean_reversion, smart_money
-- and relative_strength.
abbrev pub strategy_family_by_key : Key → Family
strategy_family_by_key cross_sectional_momentum = named 0
strategy_family_by_key time_series_trend = named 0
strategy_family_by_key trend_pullback = named 0
strategy_family_by_key ichimoku_cloud_trend = named 0
strategy_family_by_key breakout_volume = named 1
strategy_family_by_key volume_anomaly = named 1
strategy_family_by_key bb_squeeze_breakout = named 1
strategy_family_by_key selective_mean_reversion = named 2
strategy_family_by_key client_flow = named 3
strategy_family_by_key smart_money_divergence = named 3
strategy_family_by_key sector_rotation = named 4
strategy_family_by_key multi_indicator_confluence = composite

-- `supported_horizons` of the base class, which no strategy overrides.
abbrev pub supported_horizons : Horizon → Bool
supported_horizons other_horizon = false
supported_horizons _ = true

pub record Strategy (F : Type 0) : Type 0 where
  pub key : Key
  pub supports : Horizon → Bool
  pub evaluate : StrategyContext F → Evaluation F

module _ {F : Type 0} where
  -- `self._strategies[strategy.key] = strategy`: a key that is there keeps its place.
  abbrev pub register : Strategy F → List (Strategy F) → List (Strategy F)
  register s [] = s ∷ []
  register s (t ∷ ts) = if number_of t.key == number_of s.key then s ∷ ts else t ∷ register s ts

  abbrev pub register_all : List (Strategy F) → List (Strategy F) → List (Strategy F)
  register_all [] registered = registered
  register_all (s ∷ ss) registered = register_all ss (register s registered)

  abbrev pub get : Key → List (Strategy F) → Option (Strategy F)
  get key strategies = find (λ s. number_of s.key == number_of key) strategies

  -- The candidate joins those of the strategies after it, under its family.
  abbrev pub collect :
      Strategy F
      → Evaluation F
      → Option (List (CandidateResult F))
      → Option (List (CandidateResult F))
  collect s raised rest = none
  collect s nothing rest = rest
  collect s (found c) none = none
  collect s (found c) (some cs) = some (record c { family = strategy_family_by_key s.key } ∷ cs)

  -- `evaluate_all`; `none` is the exception of a strategy.
  unfoldable pub evaluate_all :
      List (Strategy F) → StrategyContext F → Option (List (CandidateResult F))
  evaluate_all [] ctx = some []
  evaluate_all (s ∷ ss) ctx =
      let rest = evaluate_all ss ctx in
      if s.supports ctx.horizon then collect s (s.evaluate ctx) rest else rest

module _ {F : Type 0} ⦃fl : Float F⦄ where
  abbrev strategy : Key → (StrategyContext F → Evaluation F) → Strategy F
  strategy key evaluate = record { key = key; supports = supported_horizons; evaluate = evaluate }

  -- `_register_defaults`.
  abbrev pub default_strategies : List (Strategy F)
  default_strategies =
      register_all
        (strategy cross_sectional_momentum momentum
          ∷ strategy time_series_trend trend
          ∷ strategy breakout_volume breakout
          ∷ strategy trend_pullback pullback
          ∷ strategy selective_mean_reversion reversion
          ∷ strategy volume_anomaly volume
          ∷ strategy client_flow accumulation
          ∷ strategy ichimoku_cloud_trend ichimoku
          ∷ strategy sector_rotation rotation
          ∷ strategy bb_squeeze_breakout squeeze
          ∷ strategy multi_indicator_confluence confluence
          ∷ strategy smart_money_divergence divergence
          ∷ [])
        []
