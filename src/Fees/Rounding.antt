-- ===== src/Fees/Rounding.antt =====
-- The fees of a trade: how they round, and how near they are to the exact rate.
use iran_market_radar.Base.{ℕ, zero, suc, ◌+◌, ◌*◌, ◌^◌, ◌≤◌, ◌<◌, ◌≡◌, refl, arith}
use native.Mathlib.Nat.{pow-suc}
use iran_market_radar.Base.Int.{pos, pos_part, neg_part, ◌+ℤ◌}
use iran_market_radar.Fees.{
  Decimal, InstrumentClass, FeeSide, buy_side, sell_side, get_cost_schedule, half_up, charge,
  calculate_trade_fees, total_sell_deduction_rate,
}

-- A half-up quotient is the nearest whole number, and a tie goes up.
half_up_nearest :
    (n step : ℕ)
    → 0 < step
    → (2 * (half_up n step * step) ≤ 2 * n + step) × (2 * n < 2 * (half_up n step * step) + step)
half_up_nearest n step h = grind arith

pow_pos : (k : ℕ) → 0 < 10 ^ k
pow_pos zero = omega arith
pow_pos (suc k) = rw (pow-suc 10 k) (omega (arith, pow_pos k))

-- A value of zero or more rials, with `k` decimal places.
abbrev pub amount : ℕ → ℕ → Decimal
amount u k = record { units = pos u; scale = k }

half_up_zero : (step : ℕ) → 0 < step → half_up 0 step ≡ 0
half_up_zero step h = grind arith

charge-amount : (u k rate : ℕ) → charge (amount u k) rate ≡ pos (half_up (u * rate) (10 ^ (k + 6)))
unfolding charge
charge-amount u k rate =
    let zero_part = half_up_zero (10 ^ (k + 6)) (pow_pos (k + 6)) in ground arith

-- The rate that a side pays in all.
abbrev pub side_rate : FeeSide → InstrumentClass → ℕ
side_rate buy_side cls = (get_cost_schedule cls).buy_fee_rate
side_rate sell_side cls = total_sell_deduction_rate (get_cost_schedule cls)

pos-add : (a b : ℕ) → pos a +ℤ pos b ≡ pos (a + b)
unfolding ◌+ℤ◌
pos-add a b = ground arith

-- The two rates of a sale.
abbrev sell_rates : InstrumentClass → ℕ × ℕ
sell_rates cls = ((get_cost_schedule cls).sell_fee_rate, (get_cost_schedule cls).sell_tax_rate)

-- Of a value of u / 10^k rials, the fees are the sum of the broker's part and the tax, none of them
-- is negative, a buyer pays no tax, and the sum is within one rial of the exact rate of the side.
pub calculate_trade_fees_near :
    (u k : ℕ) (side : FeeSide) (cls : InstrumentClass)
    → let f = calculate_trade_fees (amount u k) side cls in
      let step = 10 ^ (k + 6) in
      (f.total_fee ≡ f.broker_exchange_fee +ℤ f.tax)
      × (neg_part f.broker_exchange_fee ≡ 0)
      × (neg_part f.tax ≡ 0)
      × (side ≡ buy_side → f.tax ≡ pos 0)
      × (pos_part f.total_fee * step ≤ u * side_rate side cls + step)
      × (u * side_rate side cls ≤ pos_part f.total_fee * step + step)
unfolding calculate_trade_fees
calculate_trade_fees_near u k buy_side cls =
    let rate = (get_cost_schedule cls).buy_fee_rate in
    let step = 10 ^ (k + 6) in
    let near = half_up_nearest (u * rate) step (pow_pos (k + 6)) in
    rw (charge-amount u k rate, pos-add) (refl, refl, refl, λ _. refl, omega arith, omega arith)
calculate_trade_fees_near u k sell_side cls =
    let (fee, tax) = sell_rates cls in
    let step = 10 ^ (k + 6) in
    let near = half_up_nearest (u * fee) step (pow_pos (k + 6)) in
    let near_tax = half_up_nearest (u * tax) step (pow_pos (k + 6)) in
    rw (charge-amount u k fee, charge-amount u k tax, pos-add)
      (refl, refl, refl, λ e. cc, omega arith, omega arith)
