-- ===== src/Ledger/Orders.antt =====
-- `PaperBrokerService`: the submission of orders. An order is accepted, refused with a reason, or the
-- call raises. `now` and `id` stand for the clock and the new identifier. This file has the exits and
-- the kill switch, and `Purchase` the two ways to buy.
pub mod Purchase
pub mod Guards
pub mod Coverage
pub mod Tests
use iran_market_radar.Base.{
  ℕ, ◌+◌, ◌-◌, Bool, true, false, not, ◌&&◌, Option, none, some, List, [], ◌∷◌, map, ltb, ◌==◌,
  if◌then◌else◌, find, keep, or_else,
}
use iran_market_radar.Base.Int.{ℤ, pos_part, ltb_ℤ}
use iran_market_radar.Float.{Float, ◌⊕◌, ◌⊖◌, ◌⊗◌, ◌⊘◌, ◌≤f◌, ◌<f◌, feq, of_nat, fmax, fsum}
use iran_market_radar.Domain.{
  Portfolio, Position, BrokerOrder, PublishedSignal, Side, buy, sell, OrderStatus, created,
  validated, submitted, acknowledged, partially_filled, OrderType, limit, scale_in, close,
  stop_exit, target_exit, time_exit, signal_exit, kill_exit, trim, Reference, signal_ref,
  position_ref, ExitReason, manual_exit, stop_loss_hit, target_1, time_stop, signal_invalidated,
  kill_switch,
}
use iran_market_radar.Execution.{min_nat}
use iran_market_radar.Risk.{RiskPolicy}
use iran_market_radar.Sizing.{SizingDecision, approved, PreTradeRiskTicket, Request, buy_fee_rate}
use iran_market_radar.Sizing.Solve.{solve}
use iran_market_radar.Ledger.Book.{nav_of}
use iran_market_radar.Ledger.Pending.{is_buy, is_pending}

pub data Refusal : Type 0 where
  live_trading kill_switch_on ticket_refused over_ceiling no_quantity no_cash : Refusal
  no_position averaging_down weight_cap all_reserved : Refusal

pub data Submission (F : Type 0) : Type 0 where
  accepted : BrokerOrder F → Submission F
  refused : Refusal → Submission F
  failed : Submission F

abbrev pub is_sell : Side → Bool
is_sell sell = true
is_sell _ = false

abbrev pub refers_to : ℕ → Reference → Bool
refers_to position (position_ref id) = id == position
refers_to position _ = false

abbrev pub max_one : ℕ → ℕ
max_one n = if n == 0 then 1 else n

abbrev pub sum_nat : List ℕ → ℕ
sum_nat [] = 0
sum_nat (n ∷ ns) = n + sum_nat ns

-- `order_type_by_reason.get(reason_code, "CLOSE")`.
abbrev pub order_type_by_reason : ExitReason → OrderType
order_type_by_reason stop_loss_hit = stop_exit
order_type_by_reason target_1 = target_exit
order_type_by_reason time_stop = time_exit
order_type_by_reason signal_invalidated = signal_exit
order_type_by_reason kill_switch = kill_exit
order_type_by_reason _ = close

module _ {F : Type 0} where
  abbrev pub remaining_of : BrokerOrder F → ℕ
  remaining_of o = o.quantity - o.filled_quantity

  -- The shares of a position that pending orders are to sell.
  unfoldable pub pending_exit_quantity : ℕ → List (BrokerOrder F) → ℕ
  pending_exit_quantity position orders = sum_nat (
      map remaining_of (
        keep (λ o. is_sell o.side && refers_to position o.signal_id && is_pending o.status) orders))

  abbrev pub open_position_by_id : ℕ → List (Position F) → Option (Position F)
  open_position_by_id id positions = find (λ p. p.id == id && p.is_open) positions

  abbrev pub new_order :
      ℕ → ℕ → Portfolio F → Reference → ℕ → Side → OrderType → F → ℕ → BrokerOrder F
  new_order id now portfolio reference symbol side type price quantity = record {
    id = id;
    portfolio_id = portfolio.id;
    signal_id = reference;
    symbol = symbol;
    side = side;
    order_type = type;
    price = price;
    quantity = quantity;
    filled_quantity = 0;
    status = submitted;
    created_at = now;
    updated_at = now;
    last_evaluated_snapshot_at = none;
  }

  abbrev pub toggle_kill_switch : Portfolio F → Bool → Portfolio F
  toggle_kill_switch portfolio active = record portfolio { kill_switch_active = active }

module _ {F : Type 0} ⦃fl : Float F⦄ where
  abbrev pub exit_quantity : Position F → ℕ → F → ℕ
  exit_quantity p pending ratio =
      let available = p.quantity - pending in
      if of_nat 1 ≤f ratio
      then available
      else min_nat available (max_one (pos_part (fl.trunc (of_nat p.quantity ⊗ ratio))))

  unfoldable pub create_exit_order :
      ℕ
      → ℕ
      → Portfolio F
      → List (Position F)
      → List (BrokerOrder F)
      → ℕ
      → F
      → F
      → ExitReason
      → Submission F
  create_exit_order id now portfolio positions orders position price ratio reason =
      elim (open_position_by_id position positions) [
        | none ↦ refused no_position
        | some p ↦
            let qty = exit_quantity p (pending_exit_quantity position orders) ratio in
            if qty == 0
            then refused all_reserved
            else accepted (
                new_order id now portfolio (position_ref position) p.symbol sell
                  (if of_nat 1 ≤f ratio then order_type_by_reason reason else trim) price qty)
      ]
