-- ===== src/Ledger/Audited.antt =====
-- Which purchases and sales a run of `process_pending_orders` may carry out, seen through the audit
-- that every filled order leaves.
use iran_market_radar.Base.{
  ◌+◌, ℕ, ◌≡◌, refl, sym, ◌∙◌, ap, Option, [], ◌∷◌, ◌++◌, if◌then◌else◌, ltb, by_if, by_option,
}
use iran_market_radar.Float.{Float, ◌<f◌}
use iran_market_radar.Domain.{
  Position, BrokerOrder, OrderFill, Side, buy, sell, DecisionAudit, Decision, entry_filled,
  scale_in_filled, exit_filled, trim_filled, PublishedSignal, CashLedger, TransactionType, buy_fill,
  sell_fill, initial, other_side,
}
use iran_market_radar.Ledger.Book.{
  Ensures, Book, Orm, Message, cash_insufficient, no_reference_found, position_invalid,
}
use iran_market_radar.Ledger.Entry.{
  is_scale_in, buy_audit, record_buy, buy_row, pay, enter_new, enter_more, reject_fill, apply_buy,
  open_log_of, position_for, signal_for,
}
use iran_market_radar.Ledger.Exit.{
  is_trim, sell_audit, record_sell, sell_row, log_exit, leave_position, receive, apply_sell,
  named_position,
}
use iran_market_radar.Ledger.CashRows.{log_entry-Keeps, record_closed_trade-Keeps}

-- The side of the orders whose fills leave this decision.
abbrev pub decides : Decision → Side
decides entry_filled = buy
decides scale_in_filled = buy
decides exit_filled = sell
decides trim_filled = sell

-- The side of the fill that a cash row is of.
abbrev pub row_side : TransactionType → Side
row_side buy_fill = buy
row_side sell_fill = sell
row_side initial = other_side

module _ {F : Type 0} where
  -- The portfolio and its kill switch stay the same.
  abbrev pub SameMandate : Book F → Book F → Type 0
  SameMandate b b' =
      (b'.portfolio.id ≡ b.portfolio.id)
      × (b'.portfolio.kill_switch_active ≡ b.portfolio.kill_switch_active)

  -- A step adds no audit and no cash row and fills nothing, or it fills one order and adds one audit, for
  -- which `P` holds, and the cash row of the same fill.
  pub data AuditStep (P : DecisionAudit → Type 0) (b b' : Book F) : Type 0 where
    silent :
        SameMandate b b'
        → b'.audits ≡ b.audits
        → b'.filled ≡ b.filled
        → b'.cash_rows ≡ b.cash_rows
        → AuditStep P b b'
    audited :
        (a : DecisionAudit) (r : CashLedger F)
        → SameMandate b b'
        → b'.audits ≡ b.audits ++ a ∷ []
        → b'.filled ≡ b.filled + 1
        → b'.cash_rows ≡ b.cash_rows ++ r ∷ []
        → row_side r.transaction_type ≡ decides a.decision
        → P a
        → AuditStep P b b'

  -- The audit of an order's fill.
  abbrev pub IsAuditOf : BrokerOrder F → ℕ → Side → DecisionAudit → Type 0
  IsAuditOf o at side a = (a.symbol ≡ o.symbol) × (a.as_of ≡ at) × (decides a.decision ≡ side)

  pub AuditStep-map :
      {P Q : DecisionAudit → Type 0} {b b' : Book F}
      → ((a : DecisionAudit) → P a → Q a)
      → AuditStep P b b'
      → AuditStep Q b b'
  AuditStep-map f (silent h i n k) = silent h i n k
  AuditStep-map f (audited a r h i n k side p) = audited a r h i n k side (f a p)

  AuditStep-after :
      {P : DecisionAudit → Type 0} {b c c' : Book F}
      → c'.portfolio ≡ c.portfolio
      → c'.audits ≡ c.audits
      → c'.filled ≡ c.filled
      → c'.cash_rows ≡ c.cash_rows
      → AuditStep P b c
      → AuditStep P b c'
  AuditStep-after same audits count rows (silent h i n k) =
      silent (ap (λ p. p.id) same ∙ h.0, ap (λ p. p.kill_switch_active) same ∙ h.1) (audits ∙ i)
        (count ∙ n) (rows ∙ k)
  AuditStep-after same audits count rows (audited a r h i n k side p) =
      audited a r (ap (λ p. p.id) same ∙ h.0, ap (λ p. p.kill_switch_active) same ∙ h.1)
        (audits ∙ i) (count ∙ n) (rows ∙ k) side p

  entry-decides :
      (o : BrokerOrder F)
      → decides (if is_scale_in o.order_type then scale_in_filled else entry_filled) ≡ buy
  entry-decides o = by_if (λ d. decides d ≡ buy) (is_scale_in o.order_type) (λ _. refl) (λ _. refl)

  exit-decides :
      (o : BrokerOrder F)
      → decides (if is_trim o.order_type then trim_filled else exit_filled) ≡ sell
  exit-decides o = by_if (λ d. decides d ≡ sell) (is_trim o.order_type) (λ _. refl) (λ _. refl)

module _ {F : Type 0} ⦃fl : Float F⦄ where
  record_buy-AuditStep :
      (o : BrokerOrder F) (f : OrderFill F) (b c : Book F)
      → SameMandate b c
      → c.audits ≡ b.audits
      → c.filled ≡ b.filled
      → c.cash_rows ≡ b.cash_rows
      → AuditStep (IsAuditOf o f.executed_at buy) b (record_buy o f c)
  unfolding record_buy buy_row
  record_buy-AuditStep o f b c h audits count rows =
      audited (buy_audit o f) (buy_row o f c.portfolio) h (ap (λ x. x ++ buy_audit o f ∷ []) audits)
        (ap (λ n. n + 1) count) (ap (λ x. x ++ buy_row o f c.portfolio ∷ []) rows)
        (sym (entry-decides o)) (refl, refl, entry-decides o)

  record_sell-AuditStep :
      (o : BrokerOrder F) (f : OrderFill F) (b c : Book F)
      → SameMandate b c
      → c.audits ≡ b.audits
      → c.filled ≡ b.filled
      → c.cash_rows ≡ b.cash_rows
      → AuditStep (IsAuditOf o f.executed_at sell) b (record_sell o f c)
  unfolding record_sell sell_row
  record_sell-AuditStep o f b c h audits count rows =
      audited (sell_audit o f) (sell_row o f c.portfolio) h
        (ap (λ x. x ++ sell_audit o f ∷ []) audits) (ap (λ n. n + 1) count)
        (ap (λ x. x ++ sell_row o f c.portfolio ∷ []) rows) (sym (exit-decides o))
        (refl, refl, exit-decides o)

  log_exit-AuditStep :
      (o : BrokerOrder F) (f : OrderFill F) (before after : Position F) (b c : Book F)
      → SameMandate b c
      → c.audits ≡ b.audits
      → c.filled ≡ b.filled
      → c.cash_rows ≡ b.cash_rows
      → AuditStep (IsAuditOf o f.executed_at sell) b (log_exit o f before after c)
  unfolding log_exit
  log_exit-AuditStep o f before after b c h audits count rows =
      by_option (AuditStep _ b) (open_log_of c.portfolio.id o.symbol c.trade_logs)
        (λ _. record_sell-AuditStep o f b c h audits count rows)
        (λ l _.
          by_if (AuditStep _ b) after.is_open
            (λ _. record_sell-AuditStep o f b _ h audits count rows)
            (λ _.
              let kept = record_closed_trade-Keeps after _ f _ in
              AuditStep-after kept.0 kept.3 kept.2 kept.1
                (record_sell-AuditStep o f b _ h audits count rows)))

  module _ (at : ℕ) (o : BrokerOrder F) (f : OrderFill F) (b : Book F) where
    enter_new-AuditStep :
        (s : PublishedSignal F) → AuditStep (IsAuditOf o f.executed_at buy) b (enter_new at s o f b)
    unfolding enter_new pay
    enter_new-AuditStep s =
        let kept = log_entry-Keeps _ o f _ _ in
        record_buy-AuditStep o f b _ (ap (λ p. p.id) kept.0, ap (λ p. p.kill_switch_active) kept.0)
          kept.3 kept.2 kept.1

    enter_more-AuditStep :
        (p : Position F) → AuditStep (IsAuditOf o f.executed_at buy) b (enter_more at p o f b)
    unfolding enter_more pay
    enter_more-AuditStep p =
        let kept = log_entry-Keeps _ o f _ _ in
        record_buy-AuditStep o f b _ (ap (λ p. p.id) kept.0, ap (λ p. p.kill_switch_active) kept.0)
          kept.3 kept.2 kept.1

    leave_position-AuditStep :
        (p : Position F) → AuditStep (IsAuditOf o f.executed_at sell) b (leave_position at p o f b)
    unfolding leave_position receive
    leave_position-AuditStep p = log_exit-AuditStep o f p _ b _ (refl, refl) refl refl refl

    pub reject_fill-AuditStep :
        (P : DecisionAudit → Type 0) (orm : Orm F) (m : Message)
        → Ensures (AuditStep P b) (reject_fill orm m o f b)
    unfolding reject_fill
    reject_fill-AuditStep P orm m =
        by_option (Ensures (AuditStep P b)) (orm.delete_pending f b.fills) (λ _. tt)
          (λ fills _. silent (refl, refl) refl refl refl)

    pub apply_buy-AuditStep :
        (orm : Orm F) (approved : Option (PublishedSignal F))
        → Ensures (AuditStep (IsAuditOf o f.executed_at buy) b) (apply_buy orm at approved o f b)
    unfolding apply_buy
    apply_buy-AuditStep orm approved =
        by_if (Ensures (AuditStep _ b)) (b.portfolio.cash <f f.net_value_rials)
          (λ _. reject_fill-AuditStep _ orm cash_insufficient)
          (λ _.
            by_option (Ensures (AuditStep _ b))
              (position_for o.signal_id b.portfolio.id o.symbol b.positions)
              (λ _.
                by_option (Ensures (AuditStep _ b)) (signal_for o.signal_id approved)
                  (λ _. reject_fill-AuditStep _ orm no_reference_found)
                  (λ s _. enter_new-AuditStep s))
              (λ p _. enter_more-AuditStep p))

    pub apply_sell-AuditStep :
        (orm : Orm F)
        → Ensures (AuditStep (IsAuditOf o f.executed_at sell) b) (apply_sell orm at o f b)
    unfolding apply_sell
    apply_sell-AuditStep orm =
        by_option (Ensures (AuditStep _ b)) (named_position o.signal_id b.positions)
          (λ _. reject_fill-AuditStep _ orm position_invalid)
          (λ p _.
            by_if (Ensures (AuditStep _ b)) (ltb p.quantity f.quantity)
              (λ _. reject_fill-AuditStep _ orm position_invalid) (λ _. leave_position-AuditStep p))
