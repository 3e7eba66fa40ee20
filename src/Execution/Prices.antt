-- ===== src/Execution/Prices.antt =====
-- The size and the price of a fill against the liquidity and the price limits of its bar.
use mathlib.Core.Path.{subst}
use iran_market_radar.Base.{ℕ, ◌-◌, ◌≤◌, ◌≡◌, Bool, true, some, arith, ◌⊎◌}
use iran_market_radar.Base.Int.{pos_part}
use iran_market_radar.Float.{Float, IsOrdered, ◌⊗◌, of_nat, fmin-le_left, le-fmax_left}
use iran_market_radar.Domain.{BrokerOrder, OrderFill, Side, buy, sell, other_side}
use iran_market_radar.Execution.{
  ExecutionBar, limit_max, limit_min, buy_fill_of, sell_fill_of, simulate_buy, simulate_sell,
  simulate_order_fill, buy_price, sell_price,
}

-- What an order may always take of a bar with a volume.
abbrev pub least_share : Side → ℕ
least_share buy = 100
least_share _ = 1

module _ {F : Type 0} ⦃fl : Float F⦄ where
  -- A fill is within the allowed part of the bar's volume, in whole shares, or it is one of the small
  -- fills that are always allowed: 100 shares for a purchase and one for a sale.
  abbrev pub InVolume : Side → ExecutionBar F → F → ℕ → Type 0
  InVolume s bar part quantity =
      (quantity ≤ pos_part (fl.trunc (of_nat bar.volume ⊗ part))) ⊎ (quantity ≤ least_share s)

  -- The price of a fill is on the allowed side of the day's limit.
  abbrev pub InLimit : Side → ExecutionBar F → F → Type 0
  InLimit buy bar price = fl.le price (limit_max bar) ≡ true
  InLimit sell bar price = fl.le (limit_min bar) price ≡ true
  InLimit other_side bar price = ⊥

  abbrev pub FillFits : Side → ExecutionBar F → F → OrderFill F → Type 0
  FillFits s bar part f = InVolume s bar part f.quantity × InLimit s bar f.fill_price

  module _ (laws : IsOrdered F)
      (round_mono : (x y : F) → fl.le x y ≡ true → fl.le (fl.round 2 x) (fl.round 2 y) ≡ true) where
    module _ (bps part : F) (now : ℕ) (o : BrokerOrder F) (bar : ExecutionBar F) where
      buy_price-InLimit :
          (remaining : ℕ)
          → fl.round 2 (limit_max bar) ≡ limit_max bar
          → fl.le (buy_price bps o bar remaining) (limit_max bar) ≡ true
      buy_price-InLimit remaining ticks =
          subst (λ t. fl.le (buy_price bps o bar remaining) t ≡ true) ticks
            (round_mono _ (limit_max bar) (fmin-le_left laws (limit_max bar) _))

      sell_price-InLimit :
          (remaining : ℕ)
          → fl.round 2 (limit_min bar) ≡ limit_min bar
          → fl.le (limit_min bar) (sell_price bps o bar remaining) ≡ true
      sell_price-InLimit remaining ticks =
          subst (λ t. fl.le t (sell_price bps o bar remaining) ≡ true) ticks
            (round_mono (limit_min bar) _ (le-fmax_left laws (limit_min bar) _))

      buy-FillFits :
          (up : Bool) {f : OrderFill F}
          → fl.round 2 (limit_max bar) ≡ limit_max bar
          → (simulate_buy bps part now up o bar).fill ≡ some f
          → FillFits buy bar part f
      unfolding simulate_buy buy_fill_of
      buy-FillFits up ticks e =
          let priced = buy_price-InLimit (o.quantity - o.filled_quantity) ticks in ground arith

      sell-FillFits :
          (down : Bool) {f : OrderFill F}
          → fl.round 2 (limit_min bar) ≡ limit_min bar
          → (simulate_sell bps part now down o bar).fill ≡ some f
          → FillFits sell bar part f
      unfolding simulate_sell sell_fill_of
      sell-FillFits down ticks e =
          let priced = sell_price-InLimit (o.quantity - o.filled_quantity) ticks in ground arith

      -- Where the bar's limits are prices of two decimals: a fill is within the allowed part of the
      -- bar's volume, in whole shares, or is for no more than 100 shares of a purchase or one of a
      -- sale; a purchase is priced at or below the upper limit of the day, and a sale at or above
      -- the lower one.
      pub simulate_order_fill-FillFits :
          (up down : Bool) {f : OrderFill F}
          → fl.round 2 (limit_max bar) ≡ limit_max bar
          → fl.round 2 (limit_min bar) ≡ limit_min bar
          → (simulate_order_fill bps part now up down o bar).fill ≡ some f
          → FillFits o.side bar part f
      unfolding simulate_order_fill
      simulate_order_fill-FillFits up down {f} top bottom e =
          ground (arith, buy-FillFits up {f = f} top, sell-FillFits down {f = f} bottom)
