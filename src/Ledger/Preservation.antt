-- ===== src/Ledger/Preservation.antt =====
-- `process_pending_orders` keeps the counts of orders and positions within bounds.
use mathlib.Core.Path.{subst}
use iran_market_radar.Base.{
  ℕ, ◌≤◌, ◌≡◌, Option, none, some, List, [], ◌∷◌, leb, ◌==◌, arith, All, All-map, by_if, by_option,
  false, ◌&&◌,
}
use iran_market_radar.Float.{Float}
use iran_market_radar.Domain.{
  BrokerOrder, OrderFill, MarketSnapshot, Side, Instrument, by_side_cases,
}
use iran_market_radar.Execution.Lifecycle.{simulate_order_fill-IsOutcome, FillMatches, IsOutcome}
use iran_market_radar.Execution.{Simulated}
use iran_market_radar.Trusted.{previous_trusted_snapshot}
use iran_market_radar.Trusted.Freshness.{All-keep}
use iran_market_radar.Ledger.Book.{Ensures, Ensures-apply, Book, Env, Orm, order_id_of, set_order}
use iran_market_radar.Ledger.Pending.{
  apply_fill, process_volume, process_snapshot, process_instrument, process_order, process_orders,
  process_pending_orders, pending_orders, incremental_volume, entry_gate, simulate, incremental_bar,
  is_pending, in_sides,
}
use iran_market_radar.Ledger.Bounds.{
  OrderOk, WellFormed, All-replace, apply_buy-WellFormed, apply_sell-WellFormed,
  reject_fill-WellFormed,
}
use iran_market_radar.Ledger.Justification.{All-sort}

module _ {F : Type 0} ⦃fl : Float F⦄ where
  set_order-WellFormed :
      (o : BrokerOrder F) (b : Book F) → OrderOk o → WellFormed b → WellFormed (set_order o b)
  set_order-WellFormed o b ok h = (All-replace OrderOk order_id_of o b.orders ok h.0, h.1)

  apply_fill-WellFormed :
      (orm : Orm F) (env : Env F) (s : MarketSnapshot F)
      → (o : BrokerOrder F) (f : OrderFill F) (b : Book F) → OrderOk o
      → 1 ≤ f.quantity
      → WellFormed b
      → Ensures WellFormed (apply_fill orm env s o f b)
  unfolding apply_fill
  apply_fill-WellFormed orm env s o f b ok some_shares h =
      by_side_cases (Ensures WellFormed) o.side
        (λ _. apply_buy-WellFormed _ o _ _ orm _ ok some_shares h)
        (λ _. apply_sell-WellFormed _ o _ _ orm ok h)
        (λ _. reject_fill-WellFormed 0 o _ _ orm _ ok h)

  within-OrderOk : (o : BrokerOrder F) (r : Simulated F) → IsOutcome o r → OrderOk r.order
  within-OrderOk o r out = omega (arith, out.within, out.same_quantity)

  pending_orders-OrderOk :
      (allowed : Option (List Side)) (b : Book F)
      → All OrderOk b.orders
      → All OrderOk (pending_orders allowed b)
  unfolding pending_orders
  pending_orders-OrderOk allowed b h = All-sort OrderOk _ (
      All-map _ (λ o k. k.1)
        (All-keep OrderOk
          (λ o. o.portfolio_id == b.portfolio.id && is_pending o.status && in_sides allowed o.side)
          b.orders h))

  fill-has-shares :
      (o o' : BrokerOrder F) {r : Option (OrderFill F)} {f : OrderFill F}
      → FillMatches o o' r
      → r ≡ some f
      → 1 ≤ f.quantity
  fill-has-shares o o' m e = (subst (FillMatches o o') e m).0

  module _ (orm : Orm F) (env : Env F) where
    process_volume-WellFormed :
        (s : MarketSnapshot F) (volume : ℕ) (o : BrokerOrder F) (b : Book F)
        → OrderOk o
        → WellFormed b
        → Ensures WellFormed (process_volume orm env s volume o b)
    unfolding process_volume
    process_volume-WellFormed s volume o b ok h =
        let out =
          simulate_order_fill-IsOutcome _ _ env.now o (incremental_bar s volume) false false ok in
        let ok' = within-OrderOk o _ out in
        by_option (Ensures WellFormed) (simulate env o s volume).fill
          (λ _. set_order-WellFormed _ b ok' h)
          (λ f e.
            apply_fill-WellFormed orm env s _ f _ ok'
              (fill-has-shares o (simulate env o s volume).order out.matches e)
              (set_order-WellFormed _ b ok' h))

    process_snapshot-WellFormed :
        (instrument : ℕ) (found : Option (MarketSnapshot F)) (after : ℕ)
        → (o : BrokerOrder F) (b : Book F) → OrderOk o
        → WellFormed b
        → Ensures WellFormed (process_snapshot orm env instrument found after o b)
    unfolding process_snapshot
    process_snapshot-WellFormed instrument none after o b ok h = h
    process_snapshot-WellFormed instrument (some s) after o b ok h =
        by_if (Ensures WellFormed)
          (incremental_volume (previous_trusted_snapshot env.batches env.snapshots instrument after)
              s
            == 0)
          (λ _. set_order-WellFormed _ b ok h)
          (λ _. process_volume-WellFormed s _ _ _ ok (set_order-WellFormed _ b ok h))

    process_instrument-WellFormed :
        (found : Option Instrument) (o : BrokerOrder F) (b : Book F)
        → OrderOk o
        → WellFormed b
        → Ensures WellFormed (process_instrument orm env found o b)
    unfolding process_instrument
    process_instrument-WellFormed none o b ok h = set_order-WellFormed _ b ok h
    process_instrument-WellFormed (some i) o b ok h = process_snapshot-WellFormed i.id _ _ o b ok h

    process_order-WellFormed :
        (o : BrokerOrder F) (b : Book F)
        → OrderOk o
        → WellFormed b
        → Ensures WellFormed (process_order orm env o b)
    unfolding process_order
    process_order-WellFormed o b ok h =
        by_if (Ensures WellFormed) (leb o.quantity o.filled_quantity)
          (λ _. set_order-WellFormed _ b ok h)
          (λ _.
            by_option (Ensures WellFormed) (entry_gate env b.portfolio o)
              (λ _. process_instrument-WellFormed _ o b ok h)
              (λ m _. set_order-WellFormed _ b ok h))

    process_orders-WellFormed :
        (os : List (BrokerOrder F)) (b : Book F)
        → All OrderOk os
        → WellFormed b
        → Ensures WellFormed (process_orders orm env os b)
    unfolding process_orders
    process_orders-WellFormed [] b oks h = h
    process_orders-WellFormed (o ∷ os) b oks h =
        by_option (Ensures WellFormed) (process_order orm env o b) (λ _. tt)
          (λ c e.
            process_orders-WellFormed os c oks.1
              (Ensures-apply WellFormed (process_order-WellFormed o b oks.0 h) e))

    -- When a batch of pending orders is processed and does not raise: if no order was filled beyond
    -- its quantity and every open position held at least one share, then this still holds.
    pub process_pending_orders-WellFormed :
        (allowed : Option (List Side)) (b b' : Book F)
        → WellFormed b
        → process_pending_orders orm env allowed b ≡ some b'
        → WellFormed b'
    unfolding process_pending_orders
    process_pending_orders-WellFormed allowed b b' h e =
        Ensures-apply WellFormed
          (process_orders-WellFormed _ _ (pending_orders-OrderOk allowed b h.0) h) e
