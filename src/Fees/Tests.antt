-- ===== src/Fees/Tests.antt =====
-- The fees of a sale of 1,234,567.8 rials.
use iran_market_radar.Base.{◌+◌, ◌*◌, ◌^◌, ◌≤◌, ◌≡◌}
use iran_market_radar.Base.Int.{pos, pos_part, neg_part, ◌+ℤ◌}
use iran_market_radar.Fees.{calculate_trade_fees, sell_side, buy_side, equity}
use iran_market_radar.Fees.Rounding.{amount, side_rate, calculate_trade_fees_near}

calculate_trade_fees_near_example :
    let f = calculate_trade_fees (amount 12_345_678 1) sell_side equity in
    let step = 10 ^ (1 + 6) in
    (f.total_fee ≡ f.broker_exchange_fee +ℤ f.tax)
    × (neg_part f.broker_exchange_fee ≡ 0)
    × (neg_part f.tax ≡ 0)
    × (sell_side ≡ buy_side → f.tax ≡ pos 0)
    × (pos_part f.total_fee * step ≤ 12_345_678 * side_rate sell_side equity + step)
    × (12_345_678 * side_rate sell_side equity ≤ pos_part f.total_fee * step + step)
calculate_trade_fees_near_example = calculate_trade_fees_near 12_345_678 1 sell_side equity
