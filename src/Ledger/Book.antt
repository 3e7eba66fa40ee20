-- ===== src/Ledger/Book.antt =====
-- The state of services/paper_broker/ledger.py during a call: the portfolio object and the rows that
-- the session holds. The sessions are made with `autoflush=False` (packages/shared/database.py): a
-- query's filter sees the rows as last flushed, and the rows found are the session's own objects.
use mathlib.Core.Path.{subst}
use iran_market_radar.Base.{
  ◌≡◌, ℕ, Bool, Option, none, some, List, [], ◌∷◌, ◌++◌, ◌==◌, if◌then◌else◌, find, keep, map,
  exists_in,
}
use iran_market_radar.Float.{Float, ◌⊕◌, ◌⊗◌, of_nat, fsum}
use iran_market_radar.Domain.{
  Portfolio, Position, BrokerOrder, OrderFill, CashLedger, DecisionAudit, PaperTradeLog, ExitReason,
  PaperCampaign, PublishedSignal, Instrument, MarketSnapshot, MarketDataBatch,
}

-- A table under a session: the rows as last flushed, and the rows as the session's objects are now.
pub record Table (A : Type 0) : Type 0 where
  pub flushed : List A
  pub current : List A

module _ {A : Type 0} (id : A → ℕ) where
  -- `query.filter(p).first()`.
  abbrev pub first_row : (A → Bool) → Table A → Option A
  first_row p t = elim (find p t.flushed) [
    | none ↦ none
    | some r ↦ find (λ x. id x == id r) t.current
  ]

  -- The session's objects of the rows that were flushed.
  abbrev pub loaded : Table A → List A
  loaded t = keep (λ x. exists_in (λ r. id r == id x) t.flushed) t.current

  -- The object `a` has been changed.
  abbrev pub replace_row : A → List A → List A
  replace_row a [] = []
  replace_row a (x ∷ xs) = if id x == id a then a ∷ xs else x ∷ replace_row a xs

  abbrev pub update_row : A → Table A → Table A
  update_row a t = record t { current = replace_row a t.current }

module _ {A : Type 0} where
  abbrev pub add_row : A → Table A → Table A
  add_row a t = record t { current = t.current ++ a ∷ [] }

  abbrev pub flush : Table A → Table A
  flush t = record t { flushed = t.current }

-- The messages of `process_pending_orders`.
pub data Message : Type 0 where
  campaign_closed kill_switch_blocks signal_invalid unknown_symbol simulated : Message
  cash_insufficient no_reference_found position_invalid : Message

-- The close record, of which the fields computed from the trade log are kept.
pub data Outcome : Type 0 where
  win loss breakeven : Outcome

pub record ClosedTradeHistory (F : Type 0) : Type 0 where
  pub portfolio_id : ℕ
  pub position_id : ℕ
  pub symbol : ℕ
  pub opened_at : ℕ
  pub closed_at : ℕ
  pub total_quantity : ℕ
  pub gross_pnl : F
  pub net_pnl : F
  pub exit_reason : ExitReason
  pub outcome_status : Outcome

pub record Book (F : Type 0) : Type 0 where
  pub portfolio : Portfolio F
  pub orders : List (BrokerOrder F)
  pub positions : Table (Position F)
  pub fills : Table (OrderFill F)
  pub trade_logs : Table (PaperTradeLog F)
  pub cash_rows : List (CashLedger F)
  pub audits : List DecisionAudit
  pub closed_trades : Table (ClosedTradeHistory F)
  pub next_id : ℕ
  pub processed : ℕ
  pub filled : ℕ
  pub messages : List Message

-- What a call reads and does not change. `stale` is the limit on a snapshot's age in microseconds.
pub record Env (F : Type 0) : Type 0 where
  pub campaigns : List (PaperCampaign F)
  pub signals : List (PublishedSignal F)
  pub instruments : List Instrument
  pub batches : List MarketDataBatch
  pub snapshots : List (MarketSnapshot F)
  pub now : ℕ
  pub stale : ℕ

-- `Session.delete` on a fill that was added and not flushed: it raises (`none`) or returns the table.
pub record Orm (F : Type 0) : Type 0 where
  pub delete_pending : OrderFill F → Table (OrderFill F) → Option (Table (OrderFill F))

module _ {F : Type 0} where
  abbrev pub position_id_of : Position F → ℕ
  position_id_of p = p.id

  abbrev pub log_id_of : PaperTradeLog F → ℕ
  log_id_of l = l.id

  abbrev pub order_id_of : BrokerOrder F → ℕ
  order_id_of o = o.id

  abbrev pub set_order : BrokerOrder F → Book F → Book F
  set_order o b = record b { orders = replace_row order_id_of o b.orders }

  abbrev pub say : Message → Book F → Book F
  say m b = record b { messages = b.messages ++ m ∷ [] }

  -- `P` holds of the state that a call returns, if it does not raise.
  abbrev pub Ensures : (Book F → Type 0) → Option (Book F) → Type 0
  Ensures P none = Unit
  Ensures P (some b) = P b

  pub Ensures-apply :
      (P : Book F → Type 0) {o : Option (Book F)} {b : Book F} → Ensures P o → o ≡ some b → P b
  Ensures-apply P h e = subst (Ensures P) e h

module _ {F : Type 0} ⦃fl : Float F⦄ where
  -- `portfolio.cash + sum(item.quantity * item.current_price for open items)`.
  abbrev pub position_value : Position F → F
  position_value p = of_nat p.quantity ⊗ p.current_price

  abbrev pub nav_of : F → List (Position F) → F
  nav_of cash positions = cash ⊕ fsum (map position_value (keep (λ p. p.is_open) positions))
