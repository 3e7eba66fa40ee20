-- ===== src/Fees.antt =====
-- packages/market_rules/fees.py: the fee schedules and the fees of a trade, in `Decimal` arithmetic.
-- A `Decimal` is its integer of units at 10^-scale. Products of the code's amounts and rates have
-- fewer than the 28 digits of the default context, so that they are exact.
pub mod Rounding
mod Tests
use iran_market_radar.Base.{ℕ, ◌+◌, ◌*◌, ◌/◌, ◌^◌}
use iran_market_radar.Base.Int.{ℤ, pos, pos_part, neg_part, sub_ℕ, ◌+ℤ◌}

pub record Decimal : Type 0 where
  pub units : ℤ
  pub scale : ℕ

-- A rate in millionths, as the schedules write them with six places.
pub record TransactionCostSchedule : Type 0 where
  pub buy_fee_rate : ℕ
  pub sell_fee_rate : ℕ
  pub sell_tax_rate : ℕ
  -- In tenths of a basis point.
  pub slippage_bps : ℕ

abbrev pub total_sell_deduction_rate : TransactionCostSchedule → ℕ
total_sell_deduction_rate c = c.sell_fee_rate + c.sell_tax_rate

abbrev pub round_trip_rate : TransactionCostSchedule → ℕ
round_trip_rate c = c.buy_fee_rate + total_sell_deduction_rate c

abbrev pub tse_equity_fees : TransactionCostSchedule
tse_equity_fees = record {
  buy_fee_rate = 3712;
  sell_fee_rate = 3850;
  sell_tax_rate = 5000;
  slippage_bps = 150;
}

abbrev pub equity_etf_fees : TransactionCostSchedule
equity_etf_fees = record {
  buy_fee_rate = 1160;
  sell_fee_rate = 1160;
  sell_tax_rate = 0;
  slippage_bps = 50;
}

-- The instrument classes that the code tells apart.
pub data InstrumentClass : Type 0 where
  equity equity_etf etf : InstrumentClass

abbrev pub get_cost_schedule : InstrumentClass → TransactionCostSchedule
get_cost_schedule equity_etf = equity_etf_fees
get_cost_schedule etf = equity_etf_fees
get_cost_schedule equity = tse_equity_fees

-- `(val * rate).quantize(Decimal("1"), rounding=ROUND_HALF_UP)`: halves away from zero.
abbrev pub half_up : ℕ → ℕ → ℕ
half_up n step = (2 * n + step) / (2 * step)

unfoldable pub charge : Decimal → ℕ → ℤ
charge val rate =
    let step = 10 ^ (val.scale + 6) in
    sub_ℕ (half_up (pos_part val.units * rate) step) (half_up (neg_part val.units * rate) step)

-- The sides that `side.upper() == "BUY"` tells apart.
pub data FeeSide : Type 0 where
  buy_side sell_side : FeeSide

pub record TradeFees : Type 0 where
  pub broker_exchange_fee : ℤ
  pub tax : ℤ
  pub total_fee : ℤ

unfoldable pub calculate_trade_fees : Decimal → FeeSide → InstrumentClass → TradeFees
calculate_trade_fees val buy_side cls =
    let fee = charge val (get_cost_schedule cls).buy_fee_rate in
    record { broker_exchange_fee = fee; tax = pos 0; total_fee = fee +ℤ pos 0 }
calculate_trade_fees val sell_side cls =
    let fee = charge val (get_cost_schedule cls).sell_fee_rate in
    let tax = charge val (get_cost_schedule cls).sell_tax_rate in
    record { broker_exchange_fee = fee; tax = tax; total_fee = fee +ℤ tax }
