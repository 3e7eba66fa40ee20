-- ===== src/Ledger/Entry.antt =====
-- The fill of a purchase, in `PaperBrokerService.process_pending_orders`: it opens or increases a
-- position, moves the cash, and writes the trade log, the cash ledger and the audit.
use iran_market_radar.Base.{
  ℕ, ◌+◌, Bool, true, false, not, ◌&&◌, Option, none, some, List, [], ◌∷◌, ◌++◌, ◌==◌,
  if◌then◌else◌, keep, exists_in, or_else,
}
use iran_market_radar.Float.{Float, ◌⊕◌, ◌⊖◌, ◌⊗◌, ◌⊘◌, ◌<f◌, of_nat, fmax}
use iran_market_radar.Domain.{
  Portfolio, Position, BrokerOrder, OrderFill, CashLedger, PaperTradeLog, DecisionAudit,
  PublishedSignal, Flag, scaled_in, OrderType, scale_in, Reference, position_ref, buy_fill,
  open_trade, rejected, entry_filled, scale_in_filled,
}
use iran_market_radar.Ledger.Book.{
  Book, Orm, Table, Message, first_row, loaded, update_row, add_row, position_id_of, log_id_of,
  set_order, say, nav_of, cash_insufficient, no_reference_found,
}

abbrev pub is_scale_in : OrderType → Bool
is_scale_in scale_in = true
is_scale_in _ = false

abbrev pub is_scaled_in : Flag → Bool
is_scaled_in scaled_in = true
is_scaled_in _ = false

-- `if flag not in flags: flags.append(flag)`.
abbrev pub add_flag : (Flag → Bool) → Flag → List Flag → List Flag
add_flag is_flag flag flags = if exists_in is_flag flags then flags else flags ++ flag ∷ []

abbrev pub append_new : ℕ → List ℕ → List ℕ
append_new n ns = if exists_in (λ m. m == n) ns then ns else ns ++ n ∷ []

abbrev pub first_target {ℓ} : {A : Type ℓ} → List A → Option A
first_target [] = none
first_target (t ∷ ts) = some t

module _ {F : Type 0} ⦃fl : Float F⦄ where
  -- `max(0.0, a - b) if b is not None else 0.0`, and with the roles turned.
  abbrev risk_per_share : F → Option F → F
  risk_per_share price none = of_nat 0
  risk_per_share price (some stop) = fmax (of_nat 0) (price ⊖ stop)

  abbrev reward_per_share : F → Option F → F
  reward_per_share price none = of_nat 0
  reward_per_share price (some target) = fmax (of_nat 0) (target ⊖ price)

  abbrev reward_risk : F → PublishedSignal F → F
  reward_risk price signal =
      let risk = risk_per_share price signal.invalidation_price in
      if of_nat 0 <f risk
      then reward_per_share price (first_target (or_else signal.targets [])) ⊘ risk
      else of_nat 0

  unfoldable pub open_position :
      ℕ → Portfolio F → F → PublishedSignal F → BrokerOrder F → OrderFill F → Position F
  open_position id portfolio entry_nav signal order fill = record {
    id = id;
    portfolio_id = portfolio.id;
    symbol = order.symbol;
    quantity = fill.quantity;
    average_entry_price = fill.fill_price;
    current_price = fill.fill_price;
    unrealized_pnl = fl.neg fill.fees_rials ⊖ fill.tax_rials;
    stop_loss = signal.invalidation_price;
    target_price = first_target (or_else signal.targets []);
    total_invested_rials = fill.net_value_rials;
    risk_pct =
        risk_per_share fill.fill_price signal.invalidation_price
        ⊗ of_nat fill.quantity
        ⊘ fmax (of_nat 1) entry_nav
        ⊗ of_nat 100;
    expected_days_to_target = signal.time_stop_sessions;
    risk_flags = signal.risk_flags;
    opened_at = fill.executed_at;
    is_open = true;
  }

  unfoldable pub increase_position : BrokerOrder F → OrderFill F → Position F → Position F
  increase_position order fill p =
      let new_quantity = p.quantity + fill.quantity in
      let average =
        (p.average_entry_price ⊗ of_nat p.quantity ⊕ fill.fill_price ⊗ of_nat fill.quantity)
        ⊘ of_nat new_quantity in
      record p {
        average_entry_price = average;
        quantity = new_quantity;
        current_price = fill.fill_price;
        total_invested_rials = p.total_invested_rials ⊕ fill.net_value_rials;
        unrealized_pnl = (fill.fill_price ⊖ average) ⊗ of_nat new_quantity;
        risk_flags =
            if is_scale_in order.order_type
            then add_flag is_scaled_in scaled_in p.risk_flags
            else p.risk_flags;
      }

  unfoldable pub new_log :
      ℕ → F → BrokerOrder F → OrderFill F → Portfolio F → Position F → PaperTradeLog F
  new_log id rr order fill portfolio p = record {
    id = id;
    portfolio_id = portfolio.id;
    symbol = order.symbol;
    entry_price = p.average_entry_price;
    exit_price = none;
    quantity = p.quantity;
    total_invested_rials = p.total_invested_rials;
    entry_at = fill.executed_at;
    exit_at = none;
    gross_pnl = of_nat 0;
    net_pnl = of_nat 0;
    return_pct = of_nat 0;
    risk_reward_ratio = rr;
    exit_reason = open_trade;
    initial_stop = p.stop_loss;
    entry_order_id = order.id;
    scale_in_order_ids = [];
    is_closed = false;
  }

  unfoldable pub updated_log : BrokerOrder F → Position F → PaperTradeLog F → PaperTradeLog F
  updated_log order p l = record l {
    entry_price = p.average_entry_price;
    quantity = p.quantity;
    total_invested_rials = p.total_invested_rials;
    scale_in_order_ids =
        if is_scale_in order.order_type
        then append_new order.id l.scale_in_order_ids
        else l.scale_in_order_ids;
  }

  -- `PaperTradeLog` of the portfolio and the symbol that is not closed.
  abbrev pub open_log_of : ℕ → ℕ → Table (PaperTradeLog F) → Option (PaperTradeLog F)
  open_log_of portfolio symbol logs =
      first_row log_id_of
        (λ l. l.portfolio_id == portfolio && l.symbol == symbol && not l.is_closed) logs

  unfoldable pub buy_row : BrokerOrder F → OrderFill F → Portfolio F → CashLedger F
  buy_row order fill portfolio = record {
    portfolio_id = portfolio.id;
    transaction_type = buy_fill;
    amount_rials = fl.neg fill.net_value_rials;
    settled_cash = portfolio.cash;
    unsettled_cash = of_nat 0;
    reserved_cash = of_nat 0;
    available_cash = portfolio.cash;
    fees_due = fill.fees_rials ⊕ fill.tax_rials;
    reference_id = some order.id;
  }

  -- The log is opened, or follows the position.
  unfoldable pub log_entry : F → BrokerOrder F → OrderFill F → Position F → Book F → Book F
  log_entry rr order fill p b = elim (open_log_of b.portfolio.id order.symbol b.trade_logs) [
    | none ↦ record b {
      trade_logs = add_row (new_log b.next_id rr order fill b.portfolio p) b.trade_logs;
      next_id = b.next_id + 1;
    }
    | some l ↦ record b { trade_logs = update_row log_id_of (updated_log order p l) b.trade_logs }
  ]

  -- `portfolio.positions`: the rows of the portfolio that the session has loaded.
  abbrev pub positions_of : ℕ → Table (Position F) → List (Position F)
  positions_of portfolio t = keep (λ p. p.portfolio_id == portfolio) (loaded position_id_of t)

  abbrev pub buy_audit : BrokerOrder F → OrderFill F → DecisionAudit
  buy_audit order fill = record {
    symbol = order.symbol;
    decision = if is_scale_in order.order_type then scale_in_filled else entry_filled;
    as_of = fill.executed_at;
  }

  -- The rows that every filled purchase ends with.
  unfoldable pub record_buy : BrokerOrder F → OrderFill F → Book F → Book F
  record_buy order fill b = record b {
    cash_rows = b.cash_rows ++ buy_row order fill b.portfolio ∷ [];
    audits = b.audits ++ buy_audit order fill ∷ [];
    filled = b.filled + 1;
  }

  -- `portfolio.cash -= fill.net_value_rials`.
  unfoldable pub pay : ℕ → OrderFill F → Book F → Book F
  pay at fill b = record b {
    portfolio = record b.portfolio {
      cash = b.portfolio.cash ⊖ fill.net_value_rials;
      updated_at = at;
    };
  }

  -- `order.status = "REJECTED"; db.delete(fill)` and the message.
  unfoldable pub reject_fill :
      Orm F → Message → BrokerOrder F → OrderFill F → Book F → Option (Book F)
  reject_fill orm m order fill b = elim (orm.delete_pending fill b.fills) [
    | none ↦ none
    | some fills ↦
        some (say m (set_order (record order { status = rejected }) (record b { fills = fills })))
  ]

  -- The position that the order names, or the open one of its symbol in the portfolio.
  unfoldable pub position_for : Reference → ℕ → ℕ → Table (Position F) → Option (Position F)
  position_for (position_ref id) portfolio symbol t =
      first_row position_id_of (λ p. p.id == id && p.is_open) t
  position_for _ portfolio symbol t =
      first_row position_id_of (λ p. p.portfolio_id == portfolio && p.symbol == symbol && p.is_open)
        t

  -- `signal = None` where the order refers to a position.
  abbrev pub signal_for : Reference → Option (PublishedSignal F) → Option (PublishedSignal F)
  signal_for (position_ref id) approved = none
  signal_for _ approved = approved

  unfoldable pub enter_new : ℕ → PublishedSignal F → BrokerOrder F → OrderFill F → Book F → Book F
  enter_new at signal order fill b =
      let entry_nav = nav_of b.portfolio.cash (positions_of b.portfolio.id b.positions) in
      let p = open_position b.next_id b.portfolio entry_nav signal order fill in
      let paid = pay at fill b in
      record_buy order fill (
        log_entry (reward_risk fill.fill_price signal) order fill p
          (record paid { positions = add_row p paid.positions; next_id = paid.next_id + 1 }))

  unfoldable pub enter_more : ℕ → Position F → BrokerOrder F → OrderFill F → Book F → Book F
  enter_more at p order fill b =
      let p' = increase_position order fill p in
      let paid = pay at fill b in
      record_buy order fill (
        log_entry (of_nat 0) order fill p'
          (record paid { positions = update_row position_id_of p' paid.positions }))

  -- The branch `order.side == "BUY"`, with the fill already added to the session.
  unfoldable pub apply_buy :
      Orm F
      → ℕ
      → Option (PublishedSignal F)
      → BrokerOrder F
      → OrderFill F
      → Book F
      → Option (Book F)
  apply_buy orm at approved order fill b =
      if b.portfolio.cash <f fill.net_value_rials
      then reject_fill orm cash_insufficient order fill b
      else elim (position_for order.signal_id b.portfolio.id order.symbol b.positions) [
        | some p ↦ some (enter_more at p order fill b)
        | none ↦ elim (signal_for order.signal_id approved) [
          | none ↦ reject_fill orm no_reference_found order fill b
          | some signal ↦ some (enter_new at signal order fill b)
        ]
      ]
