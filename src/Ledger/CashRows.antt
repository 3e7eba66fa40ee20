-- ===== src/Ledger/CashRows.antt =====
-- The cash ledger accounts for every change of the cash.
use iran_market_radar.Base.{
  ℕ, ◌+◌, ◌≡◌, refl, ◌∙◌, sym, ap, true, Option, [], ◌∷◌, ◌++◌, arith, ltb, by_if, by_option,
  not-false,
}
use iran_market_radar.Float.{Float, ◌⊕◌, ◌⊖◌, ◌<f◌}
use iran_market_radar.Domain.{
  Position, BrokerOrder, OrderFill, CashLedger, PaperTradeLog, buy_fill, sell_fill, TransactionType,
  initial, PublishedSignal,
}
use iran_market_radar.Ledger.Book.{
  Ensures, Book, Orm, Message, cash_insufficient, no_reference_found, position_invalid,
}
use iran_market_radar.Ledger.Entry.{
  log_entry, record_buy, pay, buy_row, enter_new, enter_more, reject_fill, apply_buy, open_log_of,
  position_for, signal_for,
}
use iran_market_radar.Ledger.Exit.{
  record_sell, sell_row, log_exit, leave_position, receive, apply_sell, record_closed_trade,
  named_position,
}

module _ {F : Type 0} ⦃fl : Float F⦄ where
  -- A row is right after the cash `c`: its settled and available cash are what the transaction
  -- leaves, and a purchase costs no more than `c`.
  abbrev pub RowOk : F → TransactionType → CashLedger F → Type 0
  RowOk c buy_fill r =
      (net : F) × (r.amount_rials ≡ fl.neg net)
      × (r.settled_cash ≡ c ⊖ net)
      × (fl.le net c ≡ true)
      × (r.available_cash ≡ r.settled_cash)
  RowOk c sell_fill r = (r.settled_cash ≡ c ⊕ r.amount_rials) × (r.available_cash ≡ r.settled_cash)
  RowOk c initial r = ⊥

  -- A step of the broker leaves cash, rows and count alone, or appends one row that is right, ends
  -- at the new cash, and is counted as a fill.
  pub data StepRows (b b' : Book F) : Type 0 where
    quiet :
        b'.portfolio.cash ≡ b.portfolio.cash
        → b'.cash_rows ≡ b.cash_rows
        → b'.filled ≡ b.filled
        → StepRows b b'
    booked :
        (r : CashLedger F)
        → b'.cash_rows ≡ b.cash_rows ++ r ∷ []
        → RowOk b.portfolio.cash r.transaction_type r
        → r.settled_cash ≡ b'.portfolio.cash
        → b'.filled ≡ b.filled + 1
        → StepRows b b'

  pub log_entry-Keeps :
      (rr : F) (o : BrokerOrder F) (f : OrderFill F) (p : Position F) (b : Book F)
      → let b' = log_entry rr o f p b in
        (b'.portfolio ≡ b.portfolio)
        × (b'.cash_rows ≡ b.cash_rows)
        × (b'.filled ≡ b.filled)
        × (b'.audits ≡ b.audits)
  unfolding log_entry
  log_entry-Keeps rr o f p b = ground arith

  record_buy-StepRows :
      (o : BrokerOrder F) (f : OrderFill F) (b c : Book F)
      → c.cash_rows ≡ b.cash_rows
      → c.filled ≡ b.filled
      → c.portfolio.cash ≡ b.portfolio.cash ⊖ f.net_value_rials
      → fl.le f.net_value_rials b.portfolio.cash ≡ true
      → StepRows b (record_buy o f c)
  unfolding record_buy buy_row
  record_buy-StepRows o f b c rows count cash afford =
      booked (buy_row o f c.portfolio) (ap (λ r. r ++ buy_row o f c.portfolio ∷ []) rows)
        (f.net_value_rials, refl, cash, afford, refl) refl (ap (λ n. n + 1) count)

  record_sell-StepRows :
      (o : BrokerOrder F) (f : OrderFill F) (b c : Book F)
      → c.cash_rows ≡ b.cash_rows
      → c.filled ≡ b.filled
      → c.portfolio.cash ≡ b.portfolio.cash ⊕ f.net_value_rials
      → StepRows b (record_sell o f c)
  unfolding record_sell sell_row
  record_sell-StepRows o f b c rows count cash =
      booked (sell_row o f c.portfolio) (ap (λ r. r ++ sell_row o f c.portfolio ∷ []) rows)
        (cash, refl) refl (ap (λ n. n + 1) count)

  StepRows-after :
      {b c c' : Book F}
      → c'.portfolio.cash ≡ c.portfolio.cash
      → c'.cash_rows ≡ c.cash_rows
      → c'.filled ≡ c.filled
      → StepRows b c
      → StepRows b c'
  StepRows-after cash rows count (quiet h i j) = quiet (cash ∙ h) (rows ∙ i) (count ∙ j)
  StepRows-after cash rows count (booked r h i j k) =
      booked r (rows ∙ h) i (j ∙ sym cash) (count ∙ k)

  pub record_closed_trade-Keeps :
      (p : Position F) (l : PaperTradeLog F) (f : OrderFill F) (c : Book F)
      → let c' = record_closed_trade p l f c in
        (c'.portfolio ≡ c.portfolio)
        × (c'.cash_rows ≡ c.cash_rows)
        × (c'.filled ≡ c.filled)
        × (c'.audits ≡ c.audits)
  unfolding record_closed_trade
  record_closed_trade-Keeps p l f c = ground arith

  record_closed_trade-StepRows :
      (p : Position F) (l : PaperTradeLog F) (f : OrderFill F) (b c : Book F)
      → StepRows b c
      → StepRows b (record_closed_trade p l f c)
  record_closed_trade-StepRows p l f b c h =
      let kept = record_closed_trade-Keeps p l f c in
      StepRows-after (ap (λ q. q.cash) kept.0) kept.1 kept.2 h

  log_exit-StepRows :
      (o : BrokerOrder F) (f : OrderFill F) (before after : Position F) (b c : Book F)
      → c.cash_rows ≡ b.cash_rows
      → c.filled ≡ b.filled
      → c.portfolio.cash ≡ b.portfolio.cash ⊕ f.net_value_rials
      → StepRows b (log_exit o f before after c)
  unfolding log_exit
  log_exit-StepRows o f before after b c rows count cash =
      by_option (StepRows b) (open_log_of c.portfolio.id o.symbol c.trade_logs)
        (λ _. record_sell-StepRows o f b c rows count cash)
        (λ l _.
          by_if (StepRows b) after.is_open (λ _. record_sell-StepRows o f b _ rows count cash)
            (λ _.
              record_closed_trade-StepRows after _ f b _
                (record_sell-StepRows o f b _ rows count cash)))

  module _ (at : ℕ) (o : BrokerOrder F) (f : OrderFill F) (b : Book F) where
    enter_new-StepRows :
        (s : PublishedSignal F)
        → fl.le f.net_value_rials b.portfolio.cash ≡ true
        → StepRows b (enter_new at s o f b)
    unfolding enter_new pay
    enter_new-StepRows s afford =
        let kept = log_entry-Keeps _ o f _ _ in
        record_buy-StepRows o f b _ kept.1 kept.2 (ap (λ p. p.cash) kept.0) afford

    enter_more-StepRows :
        (p : Position F)
        → fl.le f.net_value_rials b.portfolio.cash ≡ true
        → StepRows b (enter_more at p o f b)
    unfolding enter_more pay
    enter_more-StepRows p afford =
        let kept = log_entry-Keeps _ o f _ _ in
        record_buy-StepRows o f b _ kept.1 kept.2 (ap (λ p. p.cash) kept.0) afford

    leave_position-StepRows : (p : Position F) → StepRows b (leave_position at p o f b)
    unfolding leave_position receive
    leave_position-StepRows p = log_exit-StepRows o f p _ b _ refl refl refl

    pub reject_fill-StepRows :
        (orm : Orm F) (m : Message) → Ensures (StepRows b) (reject_fill orm m o f b)
    unfolding reject_fill
    reject_fill-StepRows orm m =
        by_option (Ensures (StepRows b)) (orm.delete_pending f b.fills) (λ _. tt)
          (λ fills _. quiet refl refl refl)

    pub apply_buy-StepRows :
        (orm : Orm F) (approved : Option (PublishedSignal F))
        → Ensures (StepRows b) (apply_buy orm at approved o f b)
    unfolding apply_buy
    apply_buy-StepRows orm approved =
        by_if (Ensures (StepRows b)) (b.portfolio.cash <f f.net_value_rials)
          (λ _. reject_fill-StepRows orm cash_insufficient)
          (λ enough.
            let afford = not-false _ enough in
            by_option (Ensures (StepRows b))
              (position_for o.signal_id b.portfolio.id o.symbol b.positions)
              (λ _.
                by_option (Ensures (StepRows b)) (signal_for o.signal_id approved)
                  (λ _. reject_fill-StepRows orm no_reference_found)
                  (λ s _. enter_new-StepRows s afford))
              (λ p _. enter_more-StepRows p afford))

    pub apply_sell-StepRows : (orm : Orm F) → Ensures (StepRows b) (apply_sell orm at o f b)
    unfolding apply_sell
    apply_sell-StepRows orm =
        by_option (Ensures (StepRows b)) (named_position o.signal_id b.positions)
          (λ _. reject_fill-StepRows orm position_invalid)
          (λ p _.
            by_if (Ensures (StepRows b)) (ltb p.quantity f.quantity)
              (λ _. reject_fill-StepRows orm position_invalid) (λ _. leave_position-StepRows p))
