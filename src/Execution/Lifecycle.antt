-- ===== src/Execution/Lifecycle.antt =====
-- The order lifecycle under the simulator: counts, statuses, when a fill happens, and its price.
use iran_market_radar.Base.{
  ℕ, ◌+◌, ◌-◌, ◌≤◌, ◌<◌, ◌≡◌, refl, ◌↔◌, ◌≢◌, Bool, true, false, ◌&&◌, Option, none, some, arith,
  is_some,
}
use iran_market_radar.Float.{Float, feq}
use iran_market_radar.Domain.{
  BrokerOrder, OrderFill, Side, buy, sell, other_side, partially_filled, filled,
}
use iran_market_radar.Execution.{
  ExecutionBar, Simulated, limit_max, limit_min, buy_fill_of, sell_fill_of, simulate_buy,
  simulate_sell, simulate_order_fill,
}

module _ {F : Type 0} ⦃fl : Float F⦄ where
  abbrev pub fill_quantity : Option (OrderFill F) → ℕ
  fill_quantity none = 0
  fill_quantity (some f) = f.quantity

  -- What a fill says of the order that it fills: its quantity is positive, the order's identity and
  -- side are copied, and the order is complete exactly when nothing remains.
  abbrev pub FillMatches : BrokerOrder F → BrokerOrder F → Option (OrderFill F) → Type 0
  FillMatches o o' none = Unit
  FillMatches o o' (some f) =
      (1 ≤ f.quantity)
      × (f.order_id ≡ o.id)
      × (f.symbol ≡ o.symbol)
      × (f.side ≡ o.side)
      × ((o'.status ≡ filled) ↔ (o'.filled_quantity ≡ o.quantity))
      × (o'.status ≢ filled → o'.status ≡ partially_filled)

  pub record IsOutcome (o : BrokerOrder F) (r : Simulated F) : Type 0 where
    pub same_id : r.order.id ≡ o.id
    pub same_side : r.order.side ≡ o.side
    pub same_symbol : r.order.symbol ≡ o.symbol
    pub same_reference : r.order.signal_id ≡ o.signal_id
    pub same_type : r.order.order_type ≡ o.order_type
    pub same_price : r.order.price ≡ o.price
    pub same_quantity : r.order.quantity ≡ o.quantity
    pub same_created_at : r.order.created_at ≡ o.created_at
    pub counted : r.order.filled_quantity ≡ o.filled_quantity + fill_quantity r.fill
    pub within : r.order.filled_quantity ≤ o.quantity
    pub matches : FillMatches o r.order r.fill

  module _ (bps part : F) (now : ℕ) (o : BrokerOrder F) (bar : ExecutionBar F) where
    buy_fill-IsOutcome :
        o.side ≡ buy
        → o.filled_quantity < o.quantity
        → IsOutcome o (buy_fill_of bps part now o bar (o.quantity - o.filled_quantity))
    unfolding buy_fill_of
    buy_fill-IsOutcome side open_part = ground arith

    sell_fill-IsOutcome :
        o.side ≡ sell
        → o.filled_quantity < o.quantity
        → IsOutcome o (sell_fill_of bps part now o bar (o.quantity - o.filled_quantity))
    unfolding sell_fill_of
    sell_fill-IsOutcome side open_part = ground arith

    simulate_buy-IsOutcome :
        (up : Bool)
        → o.side ≡ buy
        → o.filled_quantity ≤ o.quantity
        → IsOutcome o (simulate_buy bps part now up o bar)
    unfolding simulate_buy
    simulate_buy-IsOutcome up side h = ground (arith, buy_fill-IsOutcome side)

    simulate_sell-IsOutcome :
        (down : Bool)
        → o.side ≡ sell
        → o.filled_quantity ≤ o.quantity
        → IsOutcome o (simulate_sell bps part now down o bar)
    unfolding simulate_sell
    simulate_sell-IsOutcome down side h = ground (arith, sell_fill-IsOutcome side)

    -- Whatever the bar and the locks: the order keeps its identity, its filled quantity grows by
    -- exactly the fill and stays within its quantity; and a fill copies the order's identity, is
    -- positive, and leaves the order filled exactly when nothing remains, else partially filled.
    pub simulate_order_fill-IsOutcome :
        (up down : Bool)
        → o.filled_quantity ≤ o.quantity
        → IsOutcome o (simulate_order_fill bps part now up down o bar)
    unfolding simulate_order_fill
    simulate_order_fill-IsOutcome up down h =
        ground (arith, simulate_buy-IsOutcome up, simulate_sell-IsOutcome down)

  -- When an order is filled: trading volume, no lock at the limit on its side, something left to
  -- fill, and a bar that reaches its price.
  abbrev pub FillsWhen : Side → Bool → Bool → BrokerOrder F → ExecutionBar F → Type 0
  FillsWhen buy up down o bar =
      (up ≡ false)
      × ((feq bar.low (limit_max bar) && feq bar.high (limit_max bar)) ≡ false)
      × (0 < bar.volume)
      × (o.filled_quantity < o.quantity)
      × (fl.le bar.low o.price ≡ true)
  FillsWhen sell up down o bar =
      (down ≡ false)
      × ((feq bar.low (limit_min bar) && feq bar.high (limit_min bar)) ≡ false)
      × (0 < bar.volume)
      × (o.filled_quantity < o.quantity)
      × (fl.le o.price bar.high ≡ true)
  FillsWhen other_side up down o bar = ⊥

  module _ (bps part : F) (now : ℕ) (up down : Bool) (o : BrokerOrder F)
      (bar : ExecutionBar F) where
    buy-FillsWhen :
        o.side ≡ buy
        → (is_some (simulate_order_fill bps part now up down o bar).fill ≡ true)
          ↔ FillsWhen buy up down o bar
    unfolding simulate_order_fill simulate_buy buy_fill_of
    buy-FillsWhen e = rw e (ground arith)

    sell-FillsWhen :
        o.side ≡ sell
        → (is_some (simulate_order_fill bps part now up down o bar).fill ≡ true)
          ↔ FillsWhen sell up down o bar
    unfolding simulate_order_fill simulate_sell sell_fill_of
    sell-FillsWhen e = rw e (ground arith)

    by_side-FillsWhen :
        (s : Side)
        → o.side ≡ s
        → (is_some (simulate_order_fill bps part now up down o bar).fill ≡ true)
          ↔ FillsWhen s up down o bar
    unfolding simulate_order_fill
    by_side-FillsWhen buy e = buy-FillsWhen e
    by_side-FillsWhen sell e = sell-FillsWhen e
    by_side-FillsWhen other_side e = rw e (ground arith)

    -- A fill happens exactly under these conditions.
    pub simulate_order_fill-FillsWhen :
        (is_some (simulate_order_fill bps part now up down o bar).fill ≡ true)
        ↔ FillsWhen o.side up down o bar
    simulate_order_fill-FillsWhen = by_side-FillsWhen o.side refl
