-- ===== src/Backtester/Trades.antt =====
-- The trades of a backtest: how a position leaves, and how a candidate is bought.
use iran_market_radar.Base.{
  ℕ, ◌+◌, ◌&&◌, Option, none, some, List, [], ◌∷◌, ◌++◌, leb, if◌then◌else◌,
}
use iran_market_radar.Base.Int.{pos_part}
use iran_market_radar.Float.{Float, ◌⊕◌, ◌⊖◌, ◌⊗◌, ◌⊘◌, ◌≤f◌, ◌<f◌, feq, of_nat, fmax, fmin}
use iran_market_radar.Fees.{buy_side, sell_side}
use iran_market_radar.Execution.{trade_fees}
use iran_market_radar.Strategies.{CandidateResult, Evaluation, raised, nothing, found}
use iran_market_radar.Backtester.{
  Bar, Series, Holding, TradeExit, stop_reached, target_reached, time_stop_reached, Config, State,
  bar_of,
}

module _ {F : Type 0} ⦃fl : Float F⦄ where
  -- The position after a day with a bar.
  abbrev pub track : Bar F → Holding F → Holding F
  track bar p = record p {
    holding_days = p.holding_days + 1;
    max_favorable_price = fmax p.max_favorable_price bar.high;
    max_adverse_price = fmin p.max_adverse_price bar.low;
  }

  -- The price and the reason of an exit, of a position whose day is counted.
  unfoldable pub exit_of : Bar F → Holding F → Option (F × TradeExit)
  exit_of bar p =
      if bar.low ≤f p.stop_price
      then some (p.stop_price, stop_reached)
      else if p.target_price ≤f bar.high
      then some (p.target_price, target_reached)
      else if leb p.time_stop p.holding_days
      then some (bar.close, time_stop_reached)
      else none

  -- The sale: cash, fees, turnover, the trade and its R.
  unfoldable pub sell_holding : ℕ → Holding F → F → TradeExit → State F → State F
  sell_holding d p price reason st =
      let value = of_nat p.quantity ⊗ price in
      let fee = (trade_fees value sell_side).total_fee_rials in
      let proceeds = value ⊖ fee in
      let net_pnl = proceeds ⊖ p.total_cost_basis in
      let net_ret =
        if of_nat 0 <f p.total_cost_basis then net_pnl ⊘ p.total_cost_basis else of_nat 0 in
      record st {
        cash = st.cash ⊕ proceeds;
        total_fees_paid = st.total_fees_paid ⊕ fee;
        turnover_volume = st.turnover_volume ⊕ value;
        r_distribution =
            st.r_distribution
            ++ fl.round 2 ((price ⊖ p.entry_price) ⊘ fmax (of_nat 1) (p.entry_price ⊖ p.stop_price))
              ∷ [];
        completed_trades =
            st.completed_trades
            ++ record {
              symbol = p.symbol;
              entry_date = p.entry_date;
              exit_date = d;
              entry_price = p.entry_price;
              exit_price = price;
              quantity = p.quantity;
              gross_pnl = fl.round 0 ((price ⊖ p.entry_price) ⊗ of_nat p.quantity);
              net_pnl = fl.round 0 net_pnl;
              return_pct = fl.round 2 (net_ret ⊗ of_nat 100);
              exit_reason = reason;
              holding_days = p.holding_days;
            }
              ∷ [];
      }

  abbrev pub retain : Holding F → State F → State F
  retain p st = record st { open_positions = st.open_positions ++ p ∷ [] }

  -- One position: it is retained, or it is sold.
  unfoldable pub settle : ℕ → Option (Bar F) → Holding F → State F → State F
  settle d none p st = retain (record p { holding_days = p.holding_days + 1 }) st
  settle d (some bar) p st = elim (exit_of bar (track bar p)) [
    | none ↦ retain (track bar p) st
    | some (price, reason) ↦ sell_holding d (track bar p) price reason st
  ]

  -- Step 1, with the positions that are retained so far in the state.
  unfoldable pub settle_all : List (Series F) → ℕ → List (Holding F) → State F → State F
  settle_all market d [] st = st
  settle_all market d (p ∷ ps) st =
      settle_all market d ps (settle d (bar_of p.symbol d market) p st)

  abbrev pub first_target : F → List F → F
  first_target entry [] = entry ⊗ fl.dec 108 2
  first_target entry (t ∷ ts) = t

  -- The value of the shares and the fee of their purchase.
  abbrev pub cost_of : F → ℕ → F
  cost_of entry qty =
      of_nat qty ⊗ entry ⊕ (trade_fees (of_nat qty ⊗ entry) buy_side).total_fee_rials

  abbrev pub entry_of : CandidateResult F → Bar F → F
  entry_of c today = if feq c.entry_low (of_nat 0) then today.open_price else c.entry_low

  -- `effective_loss_pct`.
  abbrev pub loss_of : F → F → F
  loss_of entry stop = fmax (of_nat 1) (entry ⊖ stop) ⊘ entry ⊕ fl.dec 165 4

  abbrev pub budget_of : Config F → State F → F → F → F
  budget_of cfg st entry stop =
      fmin
        (fmin (st.portfolio_value ⊗ (cfg.risk_per_trade_pct ⊘ of_nat 100) ⊘ loss_of entry stop)
          (st.portfolio_value ⊗ fl.dec 8 2))
        (st.cash ⊗ fl.dec 90 2)

  abbrev pub quantity_of : F → F → ℕ
  quantity_of budget entry = if of_nat 0 <f entry then pos_part (fl.trunc (budget ⊘ entry)) else 0

  -- The purchase of `qty` shares, if the cash covers it with its fee.
  unfoldable pub buy_holding : Config F → ℕ → ℕ → F → F → F → ℕ → State F → State F
  buy_holding cfg d symbol entry stop target qty st =
      let value = of_nat qty ⊗ entry in
      let fee = (trade_fees value buy_side).total_fee_rials in
      if leb 100 qty && (cost_of entry qty ≤f st.cash)
      then record st {
        cash = st.cash ⊖ cost_of entry qty;
        total_fees_paid = st.total_fees_paid ⊕ fee;
        turnover_volume = st.turnover_volume ⊕ value;
        open_positions =
            st.open_positions
            ++ record {
              symbol = symbol;
              entry_date = d;
              entry_price = entry;
              stop_price = stop;
              target_price = target;
              quantity = qty;
              total_cost_basis = cost_of entry qty;
              holding_days = 0;
              time_stop = cfg.horizon_sessions;
              max_favorable_price = entry;
              max_adverse_price = entry;
            }
              ∷ [];
      }
      else st

  -- The candidate is bought at its lower entry price, or at the day's opening where that is zero;
  -- `none` is a ZeroDivisionError.
  unfoldable pub open_candidate :
      Config F → ℕ → ℕ → Bar F → CandidateResult F → State F → Option (State F)
  open_candidate cfg d symbol today c st =
      let entry = entry_of c today in
      if feq entry (of_nat 0)
      then none
      else if feq (loss_of entry c.stop_price) (of_nat 0)
      then none
      else some (
          buy_holding cfg d symbol entry c.stop_price (first_target entry c.target_prices)
            (quantity_of (budget_of cfg st entry c.stop_price) entry) st)

  unfoldable pub follow : Config F → ℕ → ℕ → Bar F → Evaluation F → State F → Option (State F)
  follow cfg d symbol today raised st = none
  follow cfg d symbol today nothing st = some st
  follow cfg d symbol today (found c) st =
      if fl.dec 50 2 ≤f c.vote then open_candidate cfg d symbol today c st else some st
