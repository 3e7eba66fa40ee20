-- ===== src/Ledger/Exit.antt =====
-- The fill of a sale, in `PaperBrokerService.process_pending_orders`: it reduces or closes the
-- position, moves the cash, realizes the profit, and writes the trade log, the cash ledger, the audit
-- and, at the close, the close record of `_record_closed_trade`.
use iran_market_radar.Base.{
  ℕ, ◌+◌, ◌-◌, Bool, true, false, ◌&&◌, Option, none, some, [], ◌∷◌, ◌++◌, ltb, ◌==◌, if◌then◌else◌,
  is_some, or_else, find,
}
use iran_market_radar.Float.{Float, ◌⊕◌, ◌⊖◌, ◌⊗◌, ◌⊘◌, ◌<f◌, of_nat, fmax}
use iran_market_radar.Domain.{
  Portfolio, Position, BrokerOrder, OrderFill, CashLedger, PaperTradeLog, DecisionAudit, Flag,
  trimmed, OrderType, limit, scale_in, close, stop_exit, target_exit, time_exit, signal_exit,
  kill_exit, trim, Reference, position_ref, sell_fill, ExitReason, manual_exit, stop_loss_hit,
  target_1, time_stop, signal_invalidated, kill_switch, risk_reduction, other_reason, exit_filled,
  trim_filled,
}
use iran_market_radar.Ledger.Book.{
  Book, Orm, Table, Outcome, win, loss, breakeven, ClosedTradeHistory, first_row, update_row,
  add_row, flush, position_id_of, log_id_of, position_invalid,
}
use iran_market_radar.Ledger.Entry.{add_flag, open_log_of, reject_fill}

abbrev pub is_trim : OrderType → Bool
is_trim trim = true
is_trim _ = false

abbrev pub is_trimmed : Flag → Bool
is_trimmed trimmed = true
is_trimmed _ = false

-- `exit_reason_by_order.get(order.order_type, "OTHER")`.
unfoldable pub exit_reason_by_order : OrderType → ExitReason
exit_reason_by_order close = manual_exit
exit_reason_by_order stop_exit = stop_loss_hit
exit_reason_by_order target_exit = target_1
exit_reason_by_order time_exit = time_stop
exit_reason_by_order signal_exit = signal_invalidated
exit_reason_by_order kill_exit = kill_switch
exit_reason_by_order trim = risk_reduction
exit_reason_by_order limit = other_reason
exit_reason_by_order scale_in = other_reason

abbrev at_least_one : ℕ → ℕ
at_least_one n = if ltb n 1 then 1 else n

module _ {F : Type 0} ⦃fl : Float F⦄ where
  abbrev pub allocated_cost : OrderFill F → Position F → F
  allocated_cost fill p = p.total_invested_rials ⊗ (of_nat fill.quantity ⊘ of_nat p.quantity)

  abbrev pub realized_pnl_of : OrderFill F → Position F → F
  realized_pnl_of fill p = fill.net_value_rials ⊖ allocated_cost fill p

  -- The position after the sale; it closes when nothing is left.
  unfoldable pub reduce_position : BrokerOrder F → OrderFill F → Position F → Position F
  reduce_position order fill p =
      let left = p.quantity - fill.quantity in
      record p {
        quantity = left;
        total_invested_rials = fmax (of_nat 0) (p.total_invested_rials ⊖ allocated_cost fill p);
        current_price = fill.fill_price;
        unrealized_pnl =
            if left == 0 then of_nat 0 else (fill.fill_price ⊖ p.average_entry_price) ⊗ of_nat left;
        risk_flags =
            if is_trim order.order_type
            then add_flag is_trimmed trimmed p.risk_flags
            else p.risk_flags;
        is_open = if left == 0 then false else p.is_open;
      }

  -- The trade log: the average exit price over what has been sold so far, and the profit.
  unfoldable pub exit_log :
      BrokerOrder F → OrderFill F → Position F → Position F → PaperTradeLog F → PaperTradeLog F
  exit_log order fill before after l =
      let sold_before = l.quantity - before.quantity in
      let net_pnl = l.net_pnl ⊕ realized_pnl_of fill before in
      record l {
        exit_price = some (
            (or_else l.exit_price (of_nat 0) ⊗ of_nat sold_before
              ⊕ fill.fill_price ⊗ of_nat fill.quantity)
            ⊘ of_nat (at_least_one (sold_before + fill.quantity)));
        gross_pnl = l.gross_pnl ⊕ (fill.fill_price ⊖ l.entry_price) ⊗ of_nat fill.quantity;
        net_pnl = net_pnl;
        return_pct = net_pnl ⊘ fmax (of_nat 1) l.total_invested_rials ⊗ of_nat 100;
        exit_reason = exit_reason_by_order order.order_type;
        exit_at = if after.is_open then l.exit_at else some fill.executed_at;
        is_closed = if after.is_open then l.is_closed else true;
      }

  unfoldable pub sell_row : BrokerOrder F → OrderFill F → Portfolio F → CashLedger F
  sell_row order fill portfolio = record {
    portfolio_id = portfolio.id;
    transaction_type = sell_fill;
    amount_rials = fill.net_value_rials;
    settled_cash = portfolio.cash;
    unsettled_cash = of_nat 0;
    reserved_cash = of_nat 0;
    available_cash = portfolio.cash;
    fees_due = fill.fees_rials ⊕ fill.tax_rials;
    reference_id = some order.id;
  }

  -- `"WIN" if net_pnl > 0 else ("LOSS" if net_pnl < 0 else "BREAKEVEN")`.
  unfoldable pub outcome_of : F → Outcome
  outcome_of pnl = if of_nat 0 <f pnl then win else if pnl <f of_nat 0 then loss else breakeven

  -- The close record, of which the figures of the trade log are kept.
  unfoldable pub closed_record : Position F → PaperTradeLog F → OrderFill F → ClosedTradeHistory F
  closed_record p l fill = record {
    portfolio_id = l.portfolio_id;
    position_id = p.id;
    symbol = p.symbol;
    opened_at = l.entry_at;
    closed_at = fill.executed_at;
    total_quantity = l.quantity;
    gross_pnl = l.gross_pnl;
    net_pnl = l.net_pnl;
    exit_reason = l.exit_reason;
    outcome_status = outcome_of l.net_pnl;
  }

  -- `_record_closed_trade`: one record for a position; adding it flushes the session.
  unfoldable pub record_closed_trade : Position F → PaperTradeLog F → OrderFill F → Book F → Book F
  record_closed_trade p l fill b =
      if is_some (find (λ c. c.position_id == p.id) b.closed_trades.flushed) then b else record b {
        closed_trades = flush (add_row (closed_record p l fill) b.closed_trades);
        positions = flush b.positions;
        fills = flush b.fills;
        trade_logs = flush b.trade_logs;
      }

  unfoldable pub receive : ℕ → OrderFill F → Position F → Book F → Book F
  receive at fill p b = record b {
    portfolio = record b.portfolio {
      cash = b.portfolio.cash ⊕ fill.net_value_rials;
      realized_pnl = b.portfolio.realized_pnl ⊕ realized_pnl_of fill p;
      updated_at = at;
    };
  }

  abbrev pub sell_audit : BrokerOrder F → OrderFill F → DecisionAudit
  sell_audit order fill = record {
    symbol = order.symbol;
    decision = if is_trim order.order_type then trim_filled else exit_filled;
    as_of = fill.executed_at;
  }

  unfoldable pub record_sell : BrokerOrder F → OrderFill F → Book F → Book F
  record_sell order fill b = record b {
    cash_rows = b.cash_rows ++ sell_row order fill b.portfolio ∷ [];
    audits = b.audits ++ sell_audit order fill ∷ [];
    filled = b.filled + 1;
  }

  -- With a trade log it is updated, and the close record follows a position that has closed.
  unfoldable pub log_exit : BrokerOrder F → OrderFill F → Position F → Position F → Book F → Book F
  log_exit order fill before after b = elim (open_log_of b.portfolio.id order.symbol b.trade_logs) [
    | none ↦ record_sell order fill b
    | some l ↦
        let l' = exit_log order fill before after l in
        let logged =
          record_sell order fill (record b { trade_logs = update_row log_id_of l' b.trade_logs }) in
        if after.is_open then logged else record_closed_trade after l' fill logged
  ]

  unfoldable pub leave_position : ℕ → Position F → BrokerOrder F → OrderFill F → Book F → Book F
  leave_position at p order fill b =
      let after = reduce_position order fill p in
      let paid = receive at fill p b in
      log_exit order fill p after
        (record paid { positions = update_row position_id_of after paid.positions })

  abbrev pub named_position : Reference → Table (Position F) → Option (Position F)
  named_position (position_ref id) t = first_row position_id_of (λ p. p.id == id && p.is_open) t
  named_position _ t = none

  -- The branch `order.side == "SELL"`, with the fill already added to the session.
  unfoldable pub apply_sell : Orm F → ℕ → BrokerOrder F → OrderFill F → Book F → Option (Book F)
  apply_sell orm at order fill b = elim (named_position order.signal_id b.positions) [
    | none ↦ reject_fill orm position_invalid order fill b
    | some p ↦
        if ltb p.quantity fill.quantity
        then reject_fill orm position_invalid order fill b
        else some (leave_position at p order fill b)
  ]
