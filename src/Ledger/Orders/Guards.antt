-- ===== src/Ledger/Orders/Guards.antt =====
-- What an accepted exit guarantees: it never oversells its position.
use mathlib.Core.Path.{subst}
use iran_market_radar.Base.{
  ℕ, ◌+◌, ◌-◌, ◌≤◌, ◌<◌, ◌≡◌, refl, ◌∙◌, sym, ap, true, false, ◌&&◌, some, List, [], ◌∷◌, ◌++◌,
  ◌==◌, find-passes, arith, by_if, by_option,
}
use iran_market_radar.Float.{Float, of_nat}
use iran_market_radar.Domain.{
  Portfolio, Position, BrokerOrder, sell, submitted, position_ref, ExitReason,
}
use iran_market_radar.Ledger.Orders.{
  Submission, accepted, refused, failed, order_type_by_reason, pending_exit_quantity,
  open_position_by_id, new_order, create_exit_order, exit_quantity,
}

module _ {F : Type 0} where
  abbrev order_or : BrokerOrder F → Submission F → BrokerOrder F
  order_or d (accepted o) = o
  order_or d (refused r) = d
  order_or d failed = d

  pub accepted-injective : (a b : BrokerOrder F) → accepted a ≡ accepted b → a ≡ b
  accepted-injective a b e = ap (order_or a) e

  -- One more order adds its remaining shares if it is a pending exit of the position.
  pending_exit_quantity-append :
      (position : ℕ) (orders : List (BrokerOrder F)) (o : BrokerOrder F)
      → o.side ≡ sell
      → o.signal_id ≡ position_ref position
      → o.status ≡ submitted
      → o.filled_quantity ≡ 0
      → pending_exit_quantity position (orders ++ o ∷ [])
        ≡ pending_exit_quantity position orders + o.quantity
  unfolding pending_exit_quantity
  pending_exit_quantity-append position [] o side ref status unfilled = ground arith
  pending_exit_quantity-append position (x ∷ xs) o side ref status unfilled =
      ground (arith, pending_exit_quantity-append position xs o side ref status unfilled)

module _ {F : Type 0} ⦃fl : Float F⦄ where
  exit-fits :
      (p : Position F) (pending : ℕ) (ratio : F)
      → 1 ≤ exit_quantity p pending ratio
      → pending + exit_quantity p pending ratio ≤ p.quantity
  exit-fits p pending ratio some_shares = ground (arith, some_shares)

  -- An accepted exit: which order it is.
  pub record IsExit (portfolio : Portfolio F) (positions : List (Position F))
      (orders : List (BrokerOrder F)) (position : ℕ) (o : BrokerOrder F) : Type 0 where
    pub held : Position F
    pub found : open_position_by_id position positions ≡ some held
    pub is_open : held.is_open ≡ true
    pub same_id : held.id ≡ position
    pub same_symbol : o.symbol ≡ held.symbol
    pub same_portfolio : o.portfolio_id ≡ portfolio.id
    pub is_sale : o.side ≡ sell
    pub refers : o.signal_id ≡ position_ref position
    pub waits : o.status ≡ submitted
    pub some_shares : 1 ≤ o.quantity
    pub no_oversell : pending_exit_quantity position (orders ++ o ∷ []) ≤ held.quantity

  -- An exit order that is accepted, at any ratio and for any reason, sells an open position of the
  -- given identifier, at least one share; and with it in the book, all pending exits of the position
  -- together sell no more than the position holds.
  pub create_exit_order-IsExit :
      (id now : ℕ) (portfolio : Portfolio F)
      → (positions : List (Position F)) (orders : List (BrokerOrder F))
      → (position : ℕ) (price ratio : F) (reason : ExitReason) (o : BrokerOrder F)
      → create_exit_order id now portfolio positions orders position price ratio reason ≡ accepted o
      → IsExit portfolio positions orders position o
  unfolding create_exit_order
  create_exit_order-IsExit id now portfolio positions orders position price ratio reason o =
      let P = λ (s : Submission F). s ≡ accepted o → IsExit portfolio positions orders position o in
      by_option P (open_position_by_id position positions) (λ _ e. cc)
        (λ p found.
          by_if P (exit_quantity p (pending_exit_quantity position orders) ratio == 0) (λ _ e. cc)
            (λ some_left e.
              let pending = pending_exit_quantity position orders in
              let qty = exit_quantity p pending ratio in
              let passed = find-passes (λ x. x.id == position && x.is_open) positions found in
              let least : 1 ≤ qty = ground (arith, some_left) in
              let fits = exit-fits p pending ratio least in
              subst (IsExit portfolio positions orders position) (accepted-injective _ _ e)
                (record {
                  held = p;
                  found = found;
                  is_open = ground (arith, passed);
                  same_id = ground (arith, passed);
                  same_symbol = refl;
                  same_portfolio = refl;
                  is_sale = refl;
                  refers = refl;
                  waits = refl;
                  some_shares = least;
                  no_oversell =
                      subst (λ n. n ≤ p.quantity)
                        (sym (pending_exit_quantity-append position orders _ refl refl refl refl))
                        fits;
                })))

  -- An exit is not blocked by the kill switch or anything else: while an open position has shares
  -- that no pending order sells, a full exit is accepted and sells all of them.
  pub create_exit_order-accepted :
      (id now : ℕ) (portfolio : Portfolio F)
      → (positions : List (Position F)) (orders : List (BrokerOrder F))
      → (position : ℕ) (price ratio : F) (reason : ExitReason) (p : Position F)
      → open_position_by_id position positions ≡ some p
      → pending_exit_quantity position orders < p.quantity
      → fl.le (of_nat 1) ratio ≡ true
      → (o : BrokerOrder F) × (create_exit_order id now portfolio positions orders position price
            ratio reason
          ≡ accepted o)
        × (pending_exit_quantity position (orders ++ o ∷ []) ≡ p.quantity)
  unfolding create_exit_order
  create_exit_order-accepted id now portfolio positions orders position price ratio reason p found
        left full =
      let pending = pending_exit_quantity position orders in
      let some_left : ((p.quantity - pending) == 0) ≡ false = ground (arith, left) in
      let o =
        new_order id now portfolio (position_ref position) p.symbol sell
          (order_type_by_reason reason) price (p.quantity - pending) in
      (
        o,
        ground (arith, found, full, some_left),
        pending_exit_quantity-append position orders o refl refl refl refl ∙ omega (arith, left),
      )
