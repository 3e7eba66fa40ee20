-- ===== src/Execution.antt =====
-- services/paper_broker/execution.py, `ExecutionSimulator.simulate_order_fill`: an order against the
-- next bar. A call returns the order as it leaves it, the fill if there is one, and which message.
pub mod Lifecycle
pub mod Prices
pub mod Exits
mod Tests
use iran_market_radar.Base.{
  ℕ, ◌+◌, ◌-◌, Bool, true, false, ◌&&◌, ◌||◌, Option, none, some, ltb, ◌==◌, if◌then◌else◌,
}
use iran_market_radar.Base.Int.{ℤ, pos_part}
use iran_market_radar.Float.{Float, ◌⊕◌, ◌⊖◌, ◌⊗◌, ◌⊘◌, ◌≤f◌, ◌<f◌, feq, of_nat, fmax, fmin}
use iran_market_radar.Fees.{Decimal, FeeSide, buy_side, sell_side, calculate_trade_fees, equity}
use iran_market_radar.Domain.{
  BrokerOrder, OrderFill, buy, sell, by_side, OrderStatus, submitted, partially_filled, filled,
  rejected,
}

pub record ExecutionBar (F : Type 0) : Type 0 where
  pub open_price : F
  pub high : F
  pub low : F
  pub close : F
  pub volume : ℕ
  pub allowed_min : Option F
  pub allowed_max : Option F

-- The messages of the simulator.
pub data FillMessage : Type 0 where
  no_volume limit_up_locked limit_down_locked already_complete : FillMessage
  price_not_reached executed invalid_side : FillMessage

pub record FeeInfo (F : Type 0) : Type 0 where
  pub broker_exchange_fee_rials : F
  pub tax_rials : F
  pub total_fee_rials : F

-- What a call returns: the order as it leaves it, the fill, and the message.
pub record Simulated (F : Type 0) : Type 0 where
  pub order : BrokerOrder F
  pub fill : Option (OrderFill F)
  pub message : FillMessage

abbrev pub min_nat : ℕ → ℕ → ℕ
min_nat a b = if ltb b a then b else a

-- `"PARTIALLY_FILLED" if already_filled else "SUBMITTED"`.
abbrev pub waiting_status : ℕ → OrderStatus
waiting_status already = if already == 0 then submitted else partially_filled

abbrev pub filled_status : ℕ → ℕ → OrderStatus
filled_status filled_quantity quantity =
    if filled_quantity == quantity then filled else partially_filled

module _ {F : Type 0} ⦃fl : Float F⦄ where
  -- `Decimal(str(x))`.
  abbrev pub decimal_of : F → Decimal
  decimal_of x = record { units = (fl.repr x).0; scale = (fl.repr x).1 }

  -- `calculate_trade_fees` on a float, with its results as floats.
  abbrev pub trade_fees : F → FeeSide → FeeInfo F
  trade_fees value side =
      let f = calculate_trade_fees (decimal_of value) side equity in
      record {
        broker_exchange_fee_rials = fl.of_int f.broker_exchange_fee;
        tax_rials = fl.of_int f.tax;
        total_fee_rials = fl.of_int f.total_fee;
      }

  -- `bar.get(key) or default`: a price of zero counts as missing.
  abbrev pub price_or : Option F → F → F
  price_or none d = d
  price_or (some x) d = if feq x (of_nat 0) then d else x

  abbrev pub limit_max : ExecutionBar F → F
  limit_max bar = price_or bar.allowed_max (bar.open_price ⊗ fl.dec 105 2)

  abbrev pub limit_min : ExecutionBar F → F
  limit_min bar = price_or bar.allowed_min (bar.open_price ⊗ fl.dec 95 2)

  -- `min(1.0, remaining_quantity / bar_volume) if bar_volume > 0 else 0.05`.
  abbrev participation_rate : ℕ → ℕ → F
  participation_rate remaining volume =
      if ltb 0 volume then fmin (of_nat 1) (of_nat remaining ⊘ of_nat volume) else fl.dec 5 2

  abbrev slippage_pct : F → ℕ → ℕ → F
  slippage_pct bps remaining volume =
      bps ⊘ of_nat 10_000 ⊕ participation_rate remaining volume ⊗ fl.dec 5 3

  -- `max(floor, int(bar_volume * participation_cap))`.
  abbrev pub max_fillable : ℕ → ℕ → F → ℕ
  max_fillable least volume max_part =
      let n = pos_part (fl.trunc (of_nat volume ⊗ max_part)) in if ltb least n then n else least

  -- What the two sides share once the price is settled: the order's new counts and the fill.
  abbrev pub fill_order : ℕ → BrokerOrder F → ℕ → BrokerOrder F
  fill_order now order qty = record order {
    filled_quantity = order.filled_quantity + qty;
    status = filled_status (order.filled_quantity + qty) order.quantity;
    updated_at = now;
  }

  abbrev pub no_fill : BrokerOrder F → OrderStatus → FillMessage → Simulated F
  no_fill order status message = record {
    order = record order { status = status };
    fill = none;
    message = message;
  }

  -- The base price, and the price with slippage, of a purchase and of a sale.
  abbrev pub buy_base : BrokerOrder F → ExecutionBar F → F
  buy_base order bar = if bar.open_price ≤f order.price then bar.open_price else order.price

  abbrev pub buy_price : F → BrokerOrder F → ExecutionBar F → ℕ → F
  buy_price bps order bar remaining = fl.round 2 (
      fmin (limit_max bar)
        (buy_base order bar ⊗ (of_nat 1 ⊕ slippage_pct bps remaining bar.volume)))

  abbrev pub sell_base : BrokerOrder F → ExecutionBar F → F
  sell_base order bar = if order.price ≤f bar.open_price then bar.open_price else order.price

  abbrev pub sell_price : F → BrokerOrder F → ExecutionBar F → ℕ → F
  sell_price bps order bar remaining = fl.round 2 (
      fmax (limit_min bar)
        (sell_base order bar ⊗ (of_nat 1 ⊖ slippage_pct bps remaining bar.volume)))

  -- The purchase that is carried out, of `remaining` shares still wanted.
  unfoldable pub buy_fill_of : F → F → ℕ → BrokerOrder F → ExecutionBar F → ℕ → Simulated F
  buy_fill_of bps max_part now order bar remaining =
      let price = buy_price bps order bar remaining in
      let qty = min_nat remaining (max_fillable 100 bar.volume max_part) in
      let gross = of_nat qty ⊗ price in
      let fees = trade_fees gross buy_side in
      record {
        order = fill_order now order qty;
        fill = some (record {
          order_id = order.id;
          symbol = order.symbol;
          side = buy;
          fill_price = price;
          quantity = qty;
          slippage_rials = (price ⊖ buy_base order bar) ⊗ of_nat qty;
          fees_rials = fees.broker_exchange_fee_rials;
          tax_rials = fees.tax_rials;
          net_value_rials = gross ⊕ fees.total_fee_rials;
          executed_at = now;
        });
        message = executed;
      }

  unfoldable pub sell_fill_of : F → F → ℕ → BrokerOrder F → ExecutionBar F → ℕ → Simulated F
  sell_fill_of bps max_part now order bar remaining =
      let price = sell_price bps order bar remaining in
      let qty = min_nat remaining (max_fillable 1 bar.volume max_part) in
      let gross = of_nat qty ⊗ price in
      let fees = trade_fees gross sell_side in
      record {
        order = fill_order now order qty;
        fill = some (record {
          order_id = order.id;
          symbol = order.symbol;
          side = sell;
          fill_price = price;
          quantity = qty;
          slippage_rials = (sell_base order bar ⊖ price) ⊗ of_nat qty;
          fees_rials = fees.broker_exchange_fee_rials;
          tax_rials = fees.tax_rials;
          net_value_rials = gross ⊖ fees.total_fee_rials;
          executed_at = now;
        });
        message = executed;
      }

  unfoldable pub simulate_buy : F → F → ℕ → Bool → BrokerOrder F → ExecutionBar F → Simulated F
  simulate_buy bps max_part now locked order bar =
      let remaining = order.quantity - order.filled_quantity in
      if locked || (feq bar.low (limit_max bar) && feq bar.high (limit_max bar))
      then no_fill order rejected limit_up_locked
      else if remaining == 0
      then no_fill order filled already_complete
      else if order.price <f bar.low
      then no_fill order (waiting_status order.filled_quantity) price_not_reached
      else buy_fill_of bps max_part now order bar remaining

  unfoldable pub simulate_sell : F → F → ℕ → Bool → BrokerOrder F → ExecutionBar F → Simulated F
  simulate_sell bps max_part now locked order bar =
      let remaining = order.quantity - order.filled_quantity in
      if locked || (feq bar.low (limit_min bar) && feq bar.high (limit_min bar))
      then no_fill order rejected limit_down_locked
      else if remaining == 0
      then no_fill order filled already_complete
      else if bar.high <f order.price
      then no_fill order (waiting_status order.filled_quantity) price_not_reached
      else sell_fill_of bps max_part now order bar remaining

  -- The arguments are the slippage in basis points, the participation max_part, the clock, whether the
  -- symbol is locked at its upper and at its lower limit, the order and the bar.
  unfoldable pub simulate_order_fill :
      F → F → ℕ → Bool → Bool → BrokerOrder F → ExecutionBar F → Simulated F
  simulate_order_fill bps max_part now up down order bar =
      if bar.volume == 0
      then no_fill order submitted no_volume
      else by_side order.side (simulate_buy bps max_part now up order bar)
          (simulate_sell bps max_part now down order bar)
          (record { order = order; fill = none; message = invalid_side })
