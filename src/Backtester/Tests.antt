-- ===== src/Backtester/Tests.antt =====
-- A backtest of 34 days that opens two positions, and the same with other bars after them.
use iran_market_radar.Base.{
  ℕ, zero, suc, ◌*◌, ◌≡◌, refl, Option, none, some, List, [], ◌∷◌, ◌++◌, map, arith,
}
use iran_market_radar.Base.Int.{pos, ◌+ℤ◌}
use iran_market_radar.Float.Fixed.{Fixed, fixed_float}
use iran_market_radar.Fees.{calculate_trade_fees, charge}
use iran_market_radar.Scorer.{unclassified}
use iran_market_radar.Strategies.{StrategyContext, Evaluation, found, cross_sectional_momentum}
use iran_market_radar.Backtester.{Bar, Series, Config, State}
use iran_market_radar.Backtester.Days.{
  enter_with, enter_symbol, enter_all, enter_day, record_day, value_day, step_day, first_state,
  simulate,
}
use iran_market_radar.Backtester.Trades.{
  exit_of, sell_holding, settle, settle_all, buy_holding, open_candidate, follow,
}
use iran_market_radar.Backtester.Fits.{Fits}
use iran_market_radar.Backtester.Capacity.{simulate-open}
use iran_market_radar.Backtester.PointInTime.{simulate-PointInTime}

abbrev rials : ℕ → Fixed
rials n = pos (n * 1_000_000)

abbrev flat_bar : ℕ → Bar Fixed
flat_bar day = record {
  trading_date = day;
  open_price = rials 1000;
  high = rials 1050;
  low = rials 950;
  close = rials 1000;
}

abbrev up_to_day : ℕ → List ℕ
up_to_day zero = []
up_to_day (suc n) = up_to_day n ++ n ∷ []

abbrev days : List ℕ
days = up_to_day 34

abbrev series : ℕ → Series Fixed
series symbol = record { symbol = symbol; bars = map flat_bar days }

abbrev market : List (Series Fixed)
market = series 10 ∷ series 20 ∷ series 30 ∷ []

-- A later day on which the price falls.
abbrev with_crash : Series Fixed → Series Fixed
with_crash s = record s {
  bars = s.bars ++ record (flat_bar 40) { low = rials 1; close = rials 1 } ∷ [];
}

abbrev candidate : StrategyContext Fixed → Evaluation Fixed
candidate ctx = found (record {
  strategy_key = cross_sectional_momentum;
  vote = pos 700_000;
  raw_score = rials 70;
  entry_low = rials 1000;
  entry_high = rials 1010;
  max_chase = rials 1020;
  stop_price = rials 900;
  target_prices = rials 1200 ∷ [];
  time_stop_sessions = 5;
  risk_flags = 0;
  family = unclassified;
})

abbrev config : Config Fixed
config = record {
  initial_capital = rials 1_000_000_000;
  horizon_sessions = 2;
  max_active_positions = 2;
  risk_per_trade_pct = pos 350_000;
  evaluate = candidate;
  compute_symbol_features = λ bars f. none;
}

abbrev state_of : Option (State Fixed) → State Fixed
state_of none = first_state config
state_of (some st) = st

abbrev outcome : State Fixed
outcome = state_of (simulate config market 0 0 days (first_state config))

-- The third symbol finds no room; the positions leave on their time stop.
outcome_is :
    (map (λ p. p.symbol) outcome.open_positions ≡ 10 ∷ (20 ∷ []))
    × (map (λ t. t.symbol) outcome.completed_trades ≡ 10 ∷ (20 ∷ []))
unfolding exit_of sell_holding settle settle_all buy_holding open_candidate follow enter_with
    enter_symbol enter_all enter_day record_day value_day step_day simulate calculate_trade_fees
    charge ◌+ℤ◌
outcome_is = (refl, refl)

ends : simulate config market 0 0 days (first_state config) ≡ some outcome
unfolding exit_of sell_holding settle settle_all buy_holding open_candidate follow enter_with
    enter_symbol enter_all enter_day record_day value_day step_day simulate calculate_trade_fees
    charge ◌+ℤ◌
ends = refl

simulate-open_example : Fits 2 outcome.open_positions
simulate-open_example = simulate-open config market days ends

simulate-PointInTime_example :
    simulate config market 0 0 days (first_state config)
    ≡ simulate config (map with_crash market) 0 0 days (first_state config)
simulate-PointInTime_example =
    simulate-PointInTime config 34 market (map with_crash market) days refl (ground arith)
