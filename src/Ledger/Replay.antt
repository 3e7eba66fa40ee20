-- ===== src/Ledger/Replay.antt =====
-- A run of `process_pending_orders` seen through the cash ledger.
use mathlib.Core.Path.{subst}
use iran_market_radar.Base.{
  ℕ, ◌+◌, ◌≡◌, refl, ◌∙◌, sym, ap, Option, none, some, List, [], ◌∷◌, ◌++◌, leb, ◌==◌, arith,
  length, append_assoc, append-nil, by_if, by_option,
}
use iran_market_radar.Float.{Float}
use iran_market_radar.Domain.{
  BrokerOrder, OrderFill, CashLedger, MarketSnapshot, Side, Instrument, by_side_cases,
}
use iran_market_radar.Trusted.{previous_trusted_snapshot}
use iran_market_radar.Ledger.Book.{Ensures, Ensures-apply, Book, Env, Orm}
use iran_market_radar.Ledger.Pending.{
  apply_fill, process_volume, process_snapshot, process_instrument, process_order, process_orders,
  process_pending_orders, incremental_volume, entry_gate, simulate,
}
use iran_market_radar.Ledger.CashRows.{
  RowOk, StepRows, quiet, booked, apply_buy-StepRows, apply_sell-StepRows, reject_fill-StepRows,
}

module _ {F : Type 0} ⦃fl : Float F⦄ where
  -- The rows account for the cash: each is right after the cash that the one before it leaves.
  abbrev pub Replay : F → List (CashLedger F) → F → Type 0
  Replay c [] c' = c' ≡ c
  Replay c (r ∷ rs) c' = RowOk c r.transaction_type r × Replay r.settled_cash rs c'

  pub record Accounts (b b' : Book F) : Type 0 where
    pub rows : List (CashLedger F)
    pub appended : b'.cash_rows ≡ b.cash_rows ++ rows
    pub replayed : Replay b.portfolio.cash rows b'.portfolio.cash
    pub counted : b'.filled ≡ b.filled + length rows

  StepRows-from :
      {b c d : Book F}
      → c.portfolio.cash ≡ b.portfolio.cash
      → c.cash_rows ≡ b.cash_rows
      → c.filled ≡ b.filled
      → StepRows c d
      → StepRows b d
  StepRows-from cash rows count (quiet h i j) = quiet (h ∙ cash) (i ∙ rows) (j ∙ count)
  StepRows-from cash rows count (booked r h i j k) =
      booked r (h ∙ ap (λ x. x ++ r ∷ []) rows) (subst (λ x. RowOk x r.transaction_type r) cash i) j
        (k ∙ ap (λ x. x + 1) count)

  Ensures-from :
      (b c : Book F) (o : Option (Book F))
      → c.portfolio.cash ≡ b.portfolio.cash
      → c.cash_rows ≡ b.cash_rows
      → c.filled ≡ b.filled
      → Ensures (StepRows c) o
      → Ensures (StepRows b) o
  Ensures-from b c none cash rows count h = tt
  Ensures-from b c (some d) cash rows count h = StepRows-from cash rows count h

  module _ (orm : Orm F) (env : Env F) (o : BrokerOrder F) (b : Book F) where
    apply_fill-StepRows :
        (s : MarketSnapshot F) (f : OrderFill F) → Ensures (StepRows b) (apply_fill orm env s o f b)
    unfolding apply_fill
    apply_fill-StepRows s f =
        by_side_cases (Ensures (StepRows b)) o.side
          (λ _. Ensures-from b _ _ refl refl refl (apply_buy-StepRows _ o _ _ orm _))
          (λ _. Ensures-from b _ _ refl refl refl (apply_sell-StepRows _ o _ _ orm))
          (λ _. Ensures-from b _ _ refl refl refl (reject_fill-StepRows 0 o _ _ orm _))

  module _ (orm : Orm F) (env : Env F) where
    process_volume-StepRows :
        (s : MarketSnapshot F) (volume : ℕ) (o : BrokerOrder F) (b : Book F)
        → Ensures (StepRows b) (process_volume orm env s volume o b)
    unfolding process_volume
    process_volume-StepRows s volume o b =
        by_option (Ensures (StepRows b)) (simulate env o s volume).fill (λ _. quiet refl refl refl)
          (λ f _. Ensures-from b _ _ refl refl refl (apply_fill-StepRows orm env _ _ s f))

    process_snapshot-StepRows :
        (instrument : ℕ) (found : Option (MarketSnapshot F)) (after : ℕ)
        → (o : BrokerOrder F) (b : Book F)
        → Ensures (StepRows b) (process_snapshot orm env instrument found after o b)
    unfolding process_snapshot
    process_snapshot-StepRows instrument none after o b = quiet refl refl refl
    process_snapshot-StepRows instrument (some s) after o b =
        by_if (Ensures (StepRows b))
          (incremental_volume (previous_trusted_snapshot env.batches env.snapshots instrument after)
              s
            == 0)
          (λ _. quiet refl refl refl)
          (λ _. Ensures-from b _ _ refl refl refl (process_volume-StepRows s _ _ _))

    process_instrument-StepRows :
        (i : Option Instrument) (o : BrokerOrder F) (b : Book F)
        → Ensures (StepRows b) (process_instrument orm env i o b)
    unfolding process_instrument
    process_instrument-StepRows none o b = quiet refl refl refl
    process_instrument-StepRows (some i) o b = process_snapshot-StepRows i.id _ _ o b

    process_order-StepRows :
        (o : BrokerOrder F) (b : Book F) → Ensures (StepRows b) (process_order orm env o b)
    unfolding process_order
    process_order-StepRows o b =
        by_if (Ensures (StepRows b)) (leb o.quantity o.filled_quantity) (λ _. quiet refl refl refl)
          (λ _.
            by_option (Ensures (StepRows b)) (entry_gate env b.portfolio o)
              (λ _. process_instrument-StepRows _ o b) (λ m _. quiet refl refl refl))

  step-Accounts : {b c d : Book F} → StepRows b c → Accounts c d → Accounts b d
  step-Accounts {d = d} (quiet h i j) a = record {
    rows = a.rows;
    appended = a.appended ∙ ap (λ x. x ++ a.rows) i;
    replayed = subst (λ x. Replay x a.rows d.portfolio.cash) h a.replayed;
    counted = a.counted ∙ ap (λ x. x + length a.rows) j;
  }
  step-Accounts {b} {d = d} (booked r h i j k) a = record {
    rows = r ∷ a.rows;
    appended = a.appended ∙ ap (λ x. x ++ a.rows) h ∙ append_assoc b.cash_rows (r ∷ []) a.rows;
    replayed = (i, subst (λ x. Replay x a.rows d.portfolio.cash) (sym j) a.replayed);
    counted = omega (arith, a.counted, k);
  }

  none-Accounts : (b : Book F) → Accounts b b
  none-Accounts b = record {
    rows = [];
    appended = sym (append-nil b.cash_rows);
    replayed = refl;
    counted = omega arith;
  }

  Ensures-step :
      {b c : Book F} (o : Option (Book F))
      → StepRows b c
      → Ensures (Accounts c) o
      → Ensures (Accounts b) o
  Ensures-step none h a = tt
  Ensures-step (some d) h a = step-Accounts h a

  process_orders-Accounts :
      (orm : Orm F) (env : Env F) (os : List (BrokerOrder F)) (b : Book F)
      → Ensures (Accounts b) (process_orders orm env os b)
  unfolding process_orders
  process_orders-Accounts orm env [] b = none-Accounts b
  process_orders-Accounts orm env (o ∷ os) b =
      by_option (Ensures (Accounts b)) (process_order orm env o b) (λ _. tt)
        (λ c e.
          Ensures-step (process_orders orm env os c)
            (subst (Ensures (StepRows b)) e (process_order-StepRows orm env o b))
            (process_orders-Accounts orm env os c))

  -- When a batch of pending orders is processed and does not raise, the cash rows that it appends
  -- account for the cash: in their order, each shows as settled and available cash what its
  -- transaction leaves of the cash before it, no purchase costs more than the cash before it, the
  -- last row's cash is the portfolio's, and there are as many rows as fills are reported.
  pub process_pending_orders-Replay :
      (orm : Orm F) (env : Env F) (allowed : Option (List Side)) (b b' : Book F)
      → process_pending_orders orm env allowed b ≡ some b'
      → (rows : List (CashLedger F)) × (b'.cash_rows ≡ b.cash_rows ++ rows)
        × Replay b.portfolio.cash rows b'.portfolio.cash
        × (b'.filled ≡ length rows)
  unfolding process_pending_orders
  process_pending_orders-Replay orm env allowed b b' e =
      let a = Ensures-apply (Accounts _) (process_orders-Accounts orm env _ _) e in
      (a.rows, a.appended, a.replayed, omega (arith, a.counted))
