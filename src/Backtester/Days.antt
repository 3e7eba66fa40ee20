-- ===== src/Backtester/Days.antt =====
-- One day of the backtest, and the loop over the days: exits, entries while there is room, and the
-- day's value.
use iran_market_radar.Base.{
  ℕ, ◌+◌, ◌&&◌, Option, none, some, List, [], ◌∷◌, ◌++◌, map, length, ltb, leb, ◌==◌, if◌then◌else◌,
  keep, exists_in,
}
use iran_market_radar.Float.{Float, ◌⊕◌, ◌⊖◌, ◌⊗◌, ◌⊘◌, ◌<f◌, of_nat, fmax, fsum}
use iran_market_radar.Regime.{risk_on}
use iran_market_radar.Strategies.{basic_metals}
use iran_market_radar.Backtester.{
  Bar, Series, Holding, Config, State, horizon_of, sort_bars, bar_on, bar_of,
}
use iran_market_radar.Backtester.Trades.{follow, settle_all}

abbrev pub insert_date : ℕ → List ℕ → List ℕ
insert_date d [] = d ∷ []
insert_date d (e ∷ es) =
    let rest = insert_date d es in
    if d == e then e ∷ es else if ltb d e then d ∷ e ∷ es else e ∷ rest

module _ {F : Type 0} ⦃fl : Float F⦄ where
  abbrev pub history_of : ℕ → Series F → List (Bar F)
  history_of prev s = keep (λ b. leb b.trading_date prev) s.bars

  -- One symbol, on its history and the day's bar.
  unfoldable pub enter_with :
      Config F → ℕ → ℕ → List (Bar F) → Option (Bar F) → State F → Option (State F)
  enter_with cfg d symbol history none st = some st
  enter_with cfg d symbol history (some today) st =
      if ltb (length history) 30
      then some st
      else follow cfg d symbol today
          (cfg.evaluate (record {
            sector_name = some basic_metals;
            horizon = horizon_of cfg.horizon_sessions;
            features = cfg.compute_symbol_features history;
            market_regime = risk_on;
          }))
          st

  -- The history ends on the previous date.
  unfoldable pub enter_symbol : Config F → ℕ → ℕ → Series F → State F → Option (State F)
  enter_symbol cfg d prev s st =
      if exists_in (λ p. p.symbol == s.symbol) st.open_positions
      then some st
      else enter_with cfg d s.symbol (history_of prev s) (bar_on d s.bars) st

  -- The symbols, until the portfolio is full.
  unfoldable pub enter_all : Config F → ℕ → ℕ → List (Series F) → State F → Option (State F)
  enter_all cfg d prev [] st = some st
  enter_all cfg d prev (s ∷ ss) st =
      if leb cfg.max_active_positions (length st.open_positions)
      then some st
      else elim (enter_symbol cfg d prev s st) [
        | none ↦ none
        | some st' ↦ enter_all cfg d prev ss st'
      ]

  abbrev pub close_or_entry : Option (Bar F) → Holding F → F
  close_or_entry none p = p.entry_price
  close_or_entry (some b) p = b.close

  -- The value of the positions at the day's closing prices.
  abbrev pub values_at : List (Series F) → ℕ → List (Holding F) → List F
  values_at market d ps =
      map (λ p. of_nat p.quantity ⊗ close_or_entry (bar_of p.symbol d market) p) ps

  unfoldable pub record_day : ℕ → F → State F → State F
  record_day d positions st =
      let value = st.cash ⊕ positions in
      let peak = fmax st.peak_equity value in
      let drawdown = if of_nat 0 <f peak then (peak ⊖ value) ⊘ peak ⊗ of_nat 100 else of_nat 0 in
      record st {
        portfolio_value = value;
        peak_equity = peak;
        equity_curve =
            st.equity_curve
            ++ record {
              day = d;
              equity = fl.round 0 value;
              cash = fl.round 0 st.cash;
              positions_value = fl.round 0 positions;
              open_positions = length st.open_positions;
              drawdown_pct = fl.round 2 drawdown;
            }
              ∷ [];
      }

  -- Step 3.
  unfoldable pub value_day : List (Series F) → ℕ → State F → State F
  value_day market d st = record_day d (fsum (values_at market d st.open_positions)) st

  -- The day number `index`, after the date `prev`.
  unfoldable pub enter_day : Config F → List (Series F) → ℕ → ℕ → ℕ → State F → Option (State F)
  enter_day cfg market index prev d st =
      if ltb (length st.open_positions) cfg.max_active_positions && ltb 30 index
      then enter_all cfg d prev market st
      else some st

  unfoldable pub step_day : Config F → List (Series F) → ℕ → ℕ → ℕ → State F → Option (State F)
  step_day cfg market index prev d st =
      elim (enter_day cfg market index prev d
        (settle_all market d st.open_positions (record st { open_positions = [] }))) [
          | none ↦ none
          | some st' ↦ some (value_day market d st')
        ]

  unfoldable pub simulate : Config F → List (Series F) → ℕ → ℕ → List ℕ → State F → Option (State F)
  simulate cfg market index prev [] st = some st
  simulate cfg market index prev (d ∷ ds) st = elim (step_day cfg market index prev d st) [
    | none ↦ none
    | some st' ↦ simulate cfg market (index + 1) d ds st'
  ]

  -- `sorted(list(all_dates_set))`.
  abbrev pub dates_of : List (Bar F) → List ℕ → List ℕ
  dates_of [] ds = ds
  dates_of (b ∷ bs) ds = insert_date b.trading_date (dates_of bs ds)

  abbrev pub all_dates : List (Series F) → List ℕ
  all_dates [] = []
  all_dates (s ∷ ss) = dates_of s.bars (all_dates ss)

  abbrev pub first_state : Config F → State F
  first_state cfg = record {
    cash = cfg.initial_capital;
    portfolio_value = cfg.initial_capital;
    peak_equity = cfg.initial_capital;
    open_positions = [];
    completed_trades = [];
    equity_curve = [];
    r_distribution = [];
    total_fees_paid = of_nat 0;
    turnover_volume = of_nat 0;
  }

  abbrev pub sorted : Series F → Series F
  sorted s = record s { bars = sort_bars s.bars }

  unfoldable pub run_backtest_simulation : Config F → List (Series F) → Option (State F)
  run_backtest_simulation cfg symbol_bars =
      let market = map sorted symbol_bars in
      simulate cfg market 0 0 (all_dates market) (first_state cfg)
