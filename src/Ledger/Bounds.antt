-- ===== src/Ledger/Bounds.antt =====
-- Counts that stay within bounds: no order is filled beyond its quantity, and an open position holds
-- at least one share.
use iran_market_radar.Base.{
  ℕ, ◌≤◌, ◌≡◌, true, Option, List, [], ◌∷◌, ltb, ◌==◌, arith, All, All-append, by_if, by_option,
}
use iran_market_radar.Float.{Float, ◌<f◌}
use iran_market_radar.Domain.{Position, PaperTradeLog, BrokerOrder, OrderFill, PublishedSignal}
use iran_market_radar.Ledger.Book.{
  Ensures, Book, Orm, Message, replace_row, order_id_of, position_id_of, cash_insufficient,
  no_reference_found, position_invalid,
}
use iran_market_radar.Ledger.Entry.{
  open_position, increase_position, log_entry, record_buy, pay, enter_new, enter_more, reject_fill,
  apply_buy, position_for, signal_for, open_log_of,
}
use iran_market_radar.Ledger.Exit.{
  reduce_position, record_sell, log_exit, leave_position, receive, apply_sell, record_closed_trade,
  named_position,
}

module _ {F : Type 0} where
  abbrev pub OrderOk : BrokerOrder F → Type 0
  OrderOk o = o.filled_quantity ≤ o.quantity

  abbrev pub PositionOk : Position F → Type 0
  PositionOk p = p.is_open ≡ true → 1 ≤ p.quantity

  abbrev pub WellFormed : Book F → Type 0
  WellFormed b = All OrderOk b.orders × All PositionOk b.positions.current

module _ {A : Type 0} (P : A → Type 0) (id : A → ℕ) where
  pub All-replace : (a : A) (xs : List A) → P a → All P xs → All P (replace_row id a xs)
  All-replace a [] p h = tt
  All-replace a (x ∷ xs) p h =
      by_if (All P) (id x == id a) (λ _. (p, h.1)) (λ _. (h.0, All-replace a xs p h.1))

module _ {F : Type 0} ⦃fl : Float F⦄ where
  -- The rows that these leave as they are.
  log_entry-same :
      (rr : F) (o : BrokerOrder F) (f : OrderFill F) (p : Position F) (b : Book F)
      → WellFormed b
      → WellFormed (log_entry rr o f p b)
  unfolding log_entry
  log_entry-same rr o f p b h = by_option WellFormed _ (λ _. h) (λ l _. h)

  record_closed_trade-same :
      (p : Position F) (l : PaperTradeLog F) (f : OrderFill F) (b : Book F)
      → WellFormed b
      → WellFormed (record_closed_trade p l f b)
  unfolding record_closed_trade
  record_closed_trade-same p l f b h = by_if WellFormed _ (λ _. h) (λ _. h)

  log_exit-same :
      (o : BrokerOrder F) (f : OrderFill F) (before after : Position F) (b : Book F)
      → WellFormed b
      → WellFormed (log_exit o f before after b)
  unfolding log_exit record_sell
  log_exit-same o f before after b h =
      by_option WellFormed (open_log_of b.portfolio.id o.symbol b.trade_logs) (λ _. h)
        (λ l _.
          by_if WellFormed after.is_open (λ _. h) (λ _. record_closed_trade-same after _ f _ h))

  more-PositionOk :
      (o : BrokerOrder F) (f : OrderFill F) (p : Position F)
      → 1 ≤ f.quantity
      → PositionOk (increase_position o f p)
  unfolding increase_position
  more-PositionOk o f p some_shares opened = omega (arith, some_shares)

  left-PositionOk :
      (o : BrokerOrder F) (f : OrderFill F) (p : Position F) → PositionOk (reduce_position o f p)
  unfolding reduce_position
  left-PositionOk o f p opened = ground (arith, opened)

  module _ (at : ℕ) (o : BrokerOrder F) (f : OrderFill F) (b : Book F) where
    enter_new-WellFormed :
        (s : PublishedSignal F) → 1 ≤ f.quantity → WellFormed b → WellFormed (enter_new at s o f b)
    unfolding enter_new pay open_position record_buy
    enter_new-WellFormed s some_shares h =
        log_entry-same _ o f _ _
          (h.0, All-append PositionOk b.positions.current _ h.1 (λ _. some_shares, tt))

    enter_more-WellFormed :
        (p : Position F) → 1 ≤ f.quantity → WellFormed b → WellFormed (enter_more at p o f b)
    unfolding enter_more pay record_buy
    enter_more-WellFormed p some_shares h = log_entry-same _ o f _ _ (
      h.0,
      All-replace PositionOk position_id_of _ b.positions.current
          (more-PositionOk o f p some_shares) h.1,
    )

    leave_position-WellFormed :
        (p : Position F) → WellFormed b → WellFormed (leave_position at p o f b)
    unfolding leave_position receive
    leave_position-WellFormed p h = log_exit-same o f p _ _ (
      h.0,
      All-replace PositionOk position_id_of _ b.positions.current (left-PositionOk o f p) h.1,
    )

    pub reject_fill-WellFormed :
        (orm : Orm F) (m : Message)
        → OrderOk o
        → WellFormed b
        → Ensures WellFormed (reject_fill orm m o f b)
    unfolding reject_fill
    reject_fill-WellFormed orm m ok h =
        by_option (Ensures WellFormed) (orm.delete_pending f b.fills) (λ _. tt)
          (λ fills _. (All-replace OrderOk order_id_of _ b.orders ok h.0, h.1))

    pub apply_buy-WellFormed :
        (orm : Orm F) (approved : Option (PublishedSignal F))
        → OrderOk o
        → 1 ≤ f.quantity
        → WellFormed b
        → Ensures WellFormed (apply_buy orm at approved o f b)
    unfolding apply_buy
    apply_buy-WellFormed orm approved ok some_shares h =
        by_if (Ensures WellFormed) (b.portfolio.cash <f f.net_value_rials)
          (λ _. reject_fill-WellFormed orm cash_insufficient ok h)
          (λ _.
            by_option (Ensures WellFormed)
              (position_for o.signal_id b.portfolio.id o.symbol b.positions)
              (λ _.
                by_option (Ensures WellFormed) (signal_for o.signal_id approved)
                  (λ _. reject_fill-WellFormed orm no_reference_found ok h)
                  (λ s _. enter_new-WellFormed s some_shares h))
              (λ p _. enter_more-WellFormed p some_shares h))

    pub apply_sell-WellFormed :
        (orm : Orm F) → OrderOk o → WellFormed b → Ensures WellFormed (apply_sell orm at o f b)
    unfolding apply_sell
    apply_sell-WellFormed orm ok h =
        by_option (Ensures WellFormed) (named_position o.signal_id b.positions)
          (λ _. reject_fill-WellFormed orm position_invalid ok h)
          (λ p _.
            by_if (Ensures WellFormed) (ltb p.quantity f.quantity)
              (λ _. reject_fill-WellFormed orm position_invalid ok h)
              (λ _. leave_position-WellFormed p h))
