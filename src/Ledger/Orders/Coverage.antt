-- ===== src/Ledger/Orders/Coverage.antt =====
-- What an accepted purchase guarantees: it is covered by the cash that is not reserved.
use mathlib.Core.Path.{subst}
use iran_market_radar.Base.{
  ℕ, ◌≤◌, ◌≡◌, sym, ap, Bool, true, false, Option, some, List, arith, by_if, by_option,
}
use iran_market_radar.Base.Int.{ℤ, pos_part}
use iran_market_radar.Float.{Float, ◌⊖◌, of_nat, fmax}
use iran_market_radar.Domain.{
  Portfolio, Position, BrokerOrder, PublishedSignal, buy, submitted, limit, scale_in, signal_ref,
  position_ref,
}
use iran_market_radar.Risk.{RiskPolicy}
use iran_market_radar.Sizing.{approved, PreTradeRiskTicket}
use iran_market_radar.Ledger.Orders.{Submission, accepted, open_position_by_id, new_order}
use iran_market_radar.Ledger.Orders.Purchase.{
  create_order_from_signal, order_from_ticket, generate_pre_trade_ticket, scale_in_position,
  scale_in_order, cost_of, reserved_by_waiting, reserved_by_pending,
}

module _ {F : Type 0} ⦃fl : Float F⦄ where
  -- The checks of the ticket, the quantity and the cash.
  order_from_ticket-accepted :
      (id now : ℕ) (portfolio : Portfolio F) (orders : List (BrokerOrder F))
      → (signal : PublishedSignal F) (price : F) (quantity : Option ℤ)
      → (t : PreTradeRiskTicket F) (o : BrokerOrder F)
      → order_from_ticket id now portfolio orders signal price quantity t ≡ accepted o
      → (t.decision ≡ approved)
        × (1 ≤ o.quantity)
        × (o.quantity ≤ pos_part t.recommended_quantity)
        × (fl.le
              (cost_of o.quantity price)
              (fmax (of_nat 0) (portfolio.cash ⊖ reserved_by_waiting orders))
            ≡ true)
        × (o
            ≡ new_order id now portfolio
                (signal_ref signal.id)
                signal.symbol
                buy
                limit
                price
                o.quantity)
  unfolding order_from_ticket
  order_from_ticket-accepted id now portfolio orders signal price quantity t o e = ground arith

  -- An accepted purchase on a signal.
  pub record IsCovered (policy : RiskPolicy F) (portfolio : Portfolio F)
      (positions : List (Position F)) (orders : List (BrokerOrder F)) (signal : PublishedSignal F)
      (price : F) (o : BrokerOrder F) : Type 0 where
    pub ticket : PreTradeRiskTicket F
    pub ticketed : generate_pre_trade_ticket policy portfolio positions signal price ≡ some ticket
    pub is_approved : ticket.decision ≡ approved
    pub no_kill_switch : portfolio.kill_switch_active ≡ false
    pub some_shares : 1 ≤ o.quantity
    pub within_ticket : o.quantity ≤ pos_part ticket.recommended_quantity
    pub covered :
        fl.le
          (cost_of o.quantity o.price)
          (fmax (of_nat 0) (portfolio.cash ⊖ reserved_by_waiting orders))
        ≡ true
    pub is_purchase :
        (o.side ≡ buy) × (o.symbol ≡ signal.symbol) × (o.signal_id ≡ signal_ref signal.id)
    pub waits : (o.status ≡ submitted) × (o.filled_quantity ≡ 0) × (o.price ≡ price)

  -- A purchase that is accepted on a signal: live trading and the kill switch are off; the solver has
  -- approved a ticket; the order is for at least one share and no more than the ticket recommends,
  -- whatever quantity was asked for; and its cost with the fee is within the cash that waiting
  -- purchases do not reserve.
  pub create_order_from_signal-IsCovered :
      (policy : RiskPolicy F) (live : Bool) (id now : ℕ) (portfolio : Portfolio F)
      → (positions : List (Position F)) (orders : List (BrokerOrder F))
      → (signal : PublishedSignal F) (price : F) (quantity : Option ℤ) (o : BrokerOrder F)
      → create_order_from_signal policy live id now portfolio positions orders signal price quantity
        ≡ accepted o
      → (live ≡ false) × IsCovered policy portfolio positions orders signal price o
  unfolding create_order_from_signal
  create_order_from_signal-IsCovered policy live id now portfolio positions orders signal price
        quantity o =
      let R = (live ≡ false) × IsCovered policy portfolio positions orders signal price o in
      let P = λ (s : Submission F). s ≡ accepted o → R in
      by_if P live (λ _ e. cc)
        (λ paper.
          by_if P portfolio.kill_switch_active (λ _ e. cc)
            (λ off.
              by_option P (generate_pre_trade_ticket policy portfolio positions signal price)
                (λ _ e. cc)
                (λ t ticketed e.
                  let passed =
                    order_from_ticket-accepted id now portfolio orders signal price quantity t o
                      e in
                  let same = passed.4 in
                  let priced : o.price ≡ price = ap (λ x. x.price) same in
                  (
                    paper,
                    record {
                      ticket = t;
                      ticketed = ticketed;
                      is_approved = passed.0;
                      no_kill_switch = off;
                      some_shares = passed.1;
                      within_ticket = passed.2;
                      covered =
                          subst
                            (λ x.
                              fl.le (cost_of o.quantity x)
                                (fmax (of_nat 0) (portfolio.cash ⊖ reserved_by_waiting orders))
                              ≡ true)
                            (sym priced) passed.3;
                      is_purchase = (
                        ap (λ x. x.side) same,
                        ap (λ x. x.symbol) same,
                        ap (λ x. x.signal_id) same,
                      );
                      waits = (ap (λ x. x.status) same, ap (λ x. x.filled_quantity) same, priced);
                    },
                  ))))

  scale_in_order-accepted :
      (policy : RiskPolicy F) (id now : ℕ) (portfolio : Portfolio F)
      → (positions : List (Position F)) (orders : List (BrokerOrder F))
      → (p : Position F) (price : F) (o : BrokerOrder F)
      → scale_in_order policy id now portfolio positions orders p price ≡ accepted o
      → (fl.le p.average_entry_price price ≡ true)
        × (1 ≤ o.quantity)
        × (fl.le
              (cost_of o.quantity price)
              (fmax (of_nat 0) (portfolio.cash ⊖ reserved_by_pending orders))
            ≡ true)
        × (o
            ≡ new_order id now portfolio (position_ref p.id) p.symbol buy scale_in price o.quantity)
  unfolding scale_in_order
  scale_in_order-accepted policy id now portfolio positions orders p price o e = ground arith

  -- An accepted addition to a position.
  pub record IsAddition (portfolio : Portfolio F) (positions : List (Position F))
      (orders : List (BrokerOrder F)) (position : ℕ) (price : F) (o : BrokerOrder F) : Type 0 where
    pub held : Position F
    pub found : open_position_by_id position positions ≡ some held
    pub no_kill_switch : portfolio.kill_switch_active ≡ false
    pub not_below : fl.le held.average_entry_price o.price ≡ true
    pub some_shares : 1 ≤ o.quantity
    pub covered :
        fl.le
          (cost_of o.quantity o.price)
          (fmax (of_nat 0) (portfolio.cash ⊖ reserved_by_pending orders))
        ≡ true
    pub is_purchase :
        (o.side ≡ buy)
        × (o.symbol ≡ held.symbol)
        × (o.signal_id ≡ position_ref held.id)
        × (o.portfolio_id ≡ portfolio.id)
    pub waits : (o.status ≡ submitted) × (o.filled_quantity ≡ 0) × (o.price ≡ price)

  scale_in_order-IsAddition :
      (policy : RiskPolicy F) (id now : ℕ) (portfolio : Portfolio F)
      → (positions : List (Position F)) (orders : List (BrokerOrder F))
      → (position : ℕ) (p : Position F) (price : F) (o : BrokerOrder F)
      → portfolio.kill_switch_active ≡ false
      → open_position_by_id position positions ≡ some p
      → scale_in_order policy id now portfolio positions orders p price ≡ accepted o
      → IsAddition portfolio positions orders position price o
  scale_in_order-IsAddition policy id now portfolio positions orders position p price o off found
        e =
      let passed = scale_in_order-accepted policy id now portfolio positions orders p price o e in
      let same = passed.3 in
      let priced : o.price ≡ price = ap (λ x. x.price) same in
      record {
        held = p;
        found = found;
        no_kill_switch = off;
        not_below = subst (λ x. fl.le p.average_entry_price x ≡ true) (sym priced) passed.0;
        some_shares = passed.1;
        covered =
            subst
              (λ x.
                fl.le (cost_of o.quantity x)
                  (fmax (of_nat 0) (portfolio.cash ⊖ reserved_by_pending orders))
                ≡ true)
              (sym priced) passed.2;
        is_purchase = (
          ap (λ x. x.side) same,
          ap (λ x. x.symbol) same,
          ap (λ x. x.signal_id) same,
          ap (λ x. x.portfolio_id) same,
        );
        waits = (ap (λ x. x.status) same, ap (λ x. x.filled_quantity) same, priced);
      }

  -- A purchase that adds to a position and is accepted: the kill switch is off, the position is open
  -- and its average price is not above the order's, so that a losing position is never averaged down;
  -- the order is for the position and its symbol, at the price of the call, and for at least one
  -- share; and its cost with the fee is within the cash that the rest of the pending purchases does
  -- not reserve.
  pub scale_in_position-accepted :
      (policy : RiskPolicy F) (id now : ℕ) (portfolio : Portfolio F)
      → (positions : List (Position F)) (orders : List (BrokerOrder F))
      → (position : ℕ) (price : F) (o : BrokerOrder F)
      → scale_in_position policy id now portfolio positions orders position price ≡ accepted o
      → IsAddition portfolio positions orders position price o
  unfolding scale_in_position
  scale_in_position-accepted policy id now portfolio positions orders position price o =
      let P = λ (s : Submission F).
        s ≡ accepted o → IsAddition portfolio positions orders position price o in
      by_if P portfolio.kill_switch_active (λ _ e. cc)
        (λ off.
          by_option P (open_position_by_id position positions) (λ _ e. cc)
            (λ p found e.
              scale_in_order-IsAddition policy id now portfolio positions orders position p price o
                off found e))
