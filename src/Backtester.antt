-- ===== src/Backtester.antt =====
-- services/backtester/engine.py, `run_backtest_simulation`: the loop over the days. `Trades` has
-- the sales and purchases, `Days` is one day and the loop, `Capacity` and `PointInTime` are what
-- is proved of them. The statistics over the finished run, which are numerical code, and the row
-- of the run are left out.
pub mod Trades
pub mod Days
pub mod Fits
pub mod Capacity
pub mod PointInTime
mod Tests
use iran_market_radar.Base.{ℕ, Bool, Option, none, some, List, [], ◌∷◌, ◌==◌, leb, if◌then◌else◌}
use iran_market_radar.Float.{Float}
use iran_market_radar.Strategies.{
  Feature, StrategyContext, Evaluation, Horizon, days_3, days_5, days_10, other_horizon,
}

pub record Bar (F : Type 0) : Type 0 where
  pub trading_date : ℕ
  pub open_price : F
  pub high : F
  pub low : F
  pub close : F

-- A symbol with its bars, by date.
pub record Series (F : Type 0) : Type 0 where
  pub symbol : ℕ
  pub bars : List (Bar F)

pub record Holding (F : Type 0) : Type 0 where
  pub symbol : ℕ
  pub entry_date : ℕ
  pub entry_price : F
  pub stop_price : F
  pub target_price : F
  pub quantity : ℕ
  pub total_cost_basis : F
  pub holding_days : ℕ
  pub time_stop : ℕ
  pub max_favorable_price : F
  pub max_adverse_price : F

pub data TradeExit : Type 0 where
  stop_reached target_reached time_stop_reached : TradeExit

pub record BacktestTrade (F : Type 0) : Type 0 where
  pub symbol : ℕ
  pub entry_date : ℕ
  pub exit_date : ℕ
  pub entry_price : F
  pub exit_price : F
  pub quantity : ℕ
  pub gross_pnl : F
  pub net_pnl : F
  pub return_pct : F
  pub exit_reason : TradeExit
  pub holding_days : ℕ

pub record EquityPoint (F : Type 0) : Type 0 where
  pub day : ℕ
  pub equity : F
  pub cash : F
  pub positions_value : F
  pub open_positions : ℕ
  pub drawdown_pct : F

-- The parameters of a run: `evaluate` is that of the chosen strategy.
pub record Config (F : Type 0) : Type 0 where
  pub initial_capital : F
  pub horizon_sessions : ℕ
  pub max_active_positions : ℕ
  pub risk_per_trade_pct : F
  pub evaluate : StrategyContext F → Evaluation F
  pub compute_symbol_features : List (Bar F) → Feature → Option F

-- The variables of the loop.
pub record State (F : Type 0) : Type 0 where
  pub cash : F
  pub portfolio_value : F
  pub peak_equity : F
  pub open_positions : List (Holding F)
  pub completed_trades : List (BacktestTrade F)
  pub equity_curve : List (EquityPoint F)
  pub r_distribution : List F
  pub total_fees_paid : F
  pub turnover_volume : F

-- `f"{horizon_sessions}d"`.
abbrev pub horizon_of : ℕ → Horizon
horizon_of n =
    if n == 3 then days_3 else if n == 5 then days_5 else if n == 10 then days_10 else other_horizon

module _ {F : Type 0} where
  -- `sorted(bars, key=trading_date)`, which keeps the order of equals.
  abbrev pub insert_bar : Bar F → List (Bar F) → List (Bar F)
  insert_bar x [] = x ∷ []
  insert_bar x (y ∷ ys) =
      if leb x.trading_date y.trading_date then x ∷ y ∷ ys else y ∷ insert_bar x ys

  abbrev pub sort_bars : List (Bar F) → List (Bar F)
  sort_bars [] = []
  sort_bars (x ∷ xs) = insert_bar x (sort_bars xs)

  -- The bar of a date: of two of the same date, the later one in the list.
  abbrev pub bar_on : ℕ → List (Bar F) → Option (Bar F)
  bar_on d [] = none
  bar_on d (b ∷ bs) = elim (bar_on d bs) [
    | some x ↦ some x
    | none ↦ if b.trading_date == d then some b else none
  ]

  -- `sym_date_bar.get(sym, {}).get(d)`.
  abbrev pub bar_of : ℕ → ℕ → List (Series F) → Option (Bar F)
  bar_of symbol d [] = none
  bar_of symbol d (s ∷ ss) =
      let rest = bar_of symbol d ss in if s.symbol == symbol then bar_on d s.bars else rest
