-- ===== src/Ledger/Orders/Purchase.antt =====
-- `create_order_from_signal` and `scale_in_position` of services/paper_broker/ledger.py.
use iran_market_radar.Base.{
  ℕ, Bool, true, false, not, ◌&&◌, Option, none, some, List, [], map, ◌==◌, if◌then◌else◌, keep,
  or_else,
}
use iran_market_radar.Base.Int.{ℤ, pos_part, ltb_ℤ}
use iran_market_radar.Float.{Float, ◌⊕◌, ◌⊖◌, ◌⊗◌, ◌⊘◌, ◌<f◌, feq, of_nat, fmax, fsum}
use iran_market_radar.Domain.{
  Portfolio, Position, BrokerOrder, PublishedSignal, buy, OrderStatus, created, validated,
  submitted, acknowledged, limit, scale_in, signal_ref, position_ref,
}
use iran_market_radar.Execution.{min_nat}
use iran_market_radar.Risk.{RiskPolicy}
use iran_market_radar.Sizing.{SizingDecision, approved, PreTradeRiskTicket, Request, buy_fee_rate}
use iran_market_radar.Sizing.Solve.{solve}
use iran_market_radar.Ledger.Book.{nav_of}
use iran_market_radar.Ledger.Pending.{is_buy, is_pending}
use iran_market_radar.Ledger.Orders.{
  Submission, accepted, refused, failed, live_trading, kill_switch_on, ticket_refused, over_ceiling,
  no_quantity, no_cash, no_position, averaging_down, weight_cap, max_one, remaining_of,
  open_position_by_id, new_order,
}

abbrev is_approved : SizingDecision → Bool
is_approved approved = true
is_approved _ = false

-- The statuses whose orders reserve cash in `create_order_from_signal`.
abbrev pub is_waiting : OrderStatus → Bool
is_waiting created = true
is_waiting validated = true
is_waiting submitted = true
is_waiting acknowledged = true
is_waiting _ = false

module _ {F : Type 0} ⦃fl : Float F⦄ where
  -- The price of a purchase with its fee.
  abbrev pub cost_of : ℕ → F → F
  cost_of quantity price = of_nat quantity ⊗ price ⊗ (of_nat 1 ⊕ buy_fee_rate)

  abbrev pub reserved_by_waiting : List (BrokerOrder F) → F
  reserved_by_waiting orders = fsum (
      map (λ o. cost_of o.quantity o.price)
        (keep (λ o. is_buy o.side && is_waiting o.status) orders))

  abbrev pub reserved_by_pending : List (BrokerOrder F) → F
  reserved_by_pending orders = fsum (
      map (λ o. cost_of (remaining_of o) o.price)
        (keep (λ o. is_buy o.side && is_pending o.status) orders))

  -- The defaults of `generate_pre_trade_ticket`.
  abbrev pub pre_trade_request : PublishedSignal F → F → Request F
  pre_trade_request signal price = record {
    current_market_price = price;
    adtv_20d_rials = of_nat 50_000_000_000;
    sector_name = signal.sector;
    rolling_correlations = [];
    daily_already_allocated_notional_rials = of_nat 0;
    hwm_nav_rials = none;
  }

  unfoldable pub generate_pre_trade_ticket :
      RiskPolicy F
      → Portfolio F
      → List (Position F)
      → PublishedSignal F
      → F
      → Option (PreTradeRiskTicket F)
  generate_pre_trade_ticket policy portfolio positions signal price =
      solve policy portfolio positions signal (pre_trade_request signal price)

  -- The checks of the quantity and the cash, once the ticket is known.
  unfoldable pub order_from_ticket :
      ℕ
      → ℕ
      → Portfolio F
      → List (BrokerOrder F)
      → PublishedSignal F
      → F
      → Option ℤ
      → PreTradeRiskTicket F
      → Submission F
  order_from_ticket id now portfolio orders signal price quantity t =
      let wanted = or_else quantity t.recommended_quantity in
      let exec = pos_part wanted in
      if not (is_approved t.decision)
      then refused ticket_refused
      else if ltb_ℤ t.recommended_quantity wanted
      then refused over_ceiling
      else if exec == 0
      then refused no_quantity
      else if fmax (of_nat 0) (portfolio.cash ⊖ reserved_by_waiting orders) <f cost_of exec price
      then refused no_cash
      else accepted
          (new_order id now portfolio (signal_ref signal.id) signal.symbol buy limit price exec)

  -- `live` is the constant `LIVE_TRADING_ENABLED`.
  unfoldable pub create_order_from_signal :
      RiskPolicy F
      → Bool
      → ℕ
      → ℕ
      → Portfolio F
      → List (Position F)
      → List (BrokerOrder F)
      → PublishedSignal F
      → F
      → Option ℤ
      → Submission F
  create_order_from_signal policy live id now portfolio positions orders signal price quantity =
      if live
      then refused live_trading
      else if portfolio.kill_switch_active
      then refused kill_switch_on
      else elim (generate_pre_trade_ticket policy portfolio positions signal price) [
        | none ↦ failed
        | some t ↦ order_from_ticket id now portfolio orders signal price quantity t
      ]

  -- `max_position_value - pos.quantity * current_price`, at least 0.
  abbrev remaining_cap : RiskPolicy F → Portfolio F → List (Position F) → Position F → F → F
  remaining_cap policy portfolio positions p price = fmax (of_nat 0) (
      nav_of portfolio.cash positions
        ⊗ (policy.portfolio_limits.normal_max_position_weight_pct ⊘ of_nat 100)
      ⊖ of_nat p.quantity ⊗ price)

  abbrev pub add_quantity : RiskPolicy F → Portfolio F → List (Position F) → Position F → F → ℕ
  add_quantity policy portfolio positions p price =
      min_nat (max_one (pos_part (fl.trunc (of_nat p.quantity ⊗ fl.dec 35 2))))
        (pos_part (fl.trunc (remaining_cap policy portfolio positions p price ⊘ price)))

  unfoldable pub scale_in_order :
      RiskPolicy F
      → ℕ
      → ℕ
      → Portfolio F
      → List (Position F)
      → List (BrokerOrder F)
      → Position F
      → F
      → Submission F
  scale_in_order policy id now portfolio positions orders p price =
      let qty = add_quantity policy portfolio positions p price in
      if price <f p.average_entry_price
      then refused averaging_down
      else if feq price (of_nat 0)
      then failed
      else if qty == 0
      then refused weight_cap
      else if fmax (of_nat 0) (portfolio.cash ⊖ reserved_by_pending orders) <f cost_of qty price
      then refused no_cash
      else accepted (new_order id now portfolio (position_ref p.id) p.symbol buy scale_in price qty)

  unfoldable pub scale_in_position :
      RiskPolicy F
      → ℕ
      → ℕ
      → Portfolio F
      → List (Position F)
      → List (BrokerOrder F)
      → ℕ
      → F
      → Submission F
  scale_in_position policy id now portfolio positions orders position price =
      if portfolio.kill_switch_active
      then refused kill_switch_on
      else elim (open_position_by_id position positions) [
        | none ↦ refused no_position
        | some p ↦ scale_in_order policy id now portfolio positions orders p price
      ]
