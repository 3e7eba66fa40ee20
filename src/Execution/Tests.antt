-- ===== src/Execution/Tests.antt =====
-- The simulator on a purchase of 300 shares, of which five per cent of 4,000 traded are filled.
use iran_market_radar.Execution.Exits.{
  Held, Look, evaluate_exits_and_trailing_stop, evaluations, last_held, trim_count, NoLower,
  evaluations-NoLower, evaluate-full_exit, IsRuled,
}
use iran_market_radar.Base.{
  ◌+◌, ◌≤◌, List, [], ◌∷◌, ℕ, ◌*◌, ◌≡◌, refl, ◌↔◌, true, false, Option, none, some, arith, is_some,
}
use iran_market_radar.Base.Int.{pos, ◌+ℤ◌}
use iran_market_radar.Fees.{calculate_trade_fees, charge}
use iran_market_radar.Float.Fixed.{Fixed, fixed_float, Fixed-IsOrdered, Fixed-round_mono}
use iran_market_radar.Domain.{BrokerOrder, OrderFill, buy, submitted, limit, signal_ref}
use iran_market_radar.Execution.{ExecutionBar, simulate_order_fill, simulate_buy, buy_fill_of}
use iran_market_radar.Execution.Lifecycle.{
  IsOutcome, FillsWhen, simulate_order_fill-IsOutcome, simulate_order_fill-FillsWhen,
}
use iran_market_radar.Execution.Prices.{FillFits, simulate_order_fill-FillFits}

abbrev rials : ℕ → Fixed
rials n = pos (n * 1_000_000)

abbrev order : BrokerOrder Fixed
order = record {
  id = 1;
  portfolio_id = 1;
  signal_id = signal_ref 7;
  symbol = 10;
  side = buy;
  order_type = limit;
  price = rials 5000;
  quantity = 300;
  filled_quantity = 0;
  status = submitted;
  created_at = 100;
  updated_at = 100;
  last_evaluated_snapshot_at = none;
}

abbrev bar : ExecutionBar Fixed
bar = record {
  open_price = rials 4980;
  high = rials 5010;
  low = rials 4970;
  close = rials 5000;
  volume = 4000;
  allowed_min = none;
  allowed_max = some (rials 5200);
}

abbrev bps : Fixed
bps = rials 20

abbrev part : Fixed
part = pos 50_000

simulate_order_fill-IsOutcome_example :
    IsOutcome order (simulate_order_fill bps part 120 false false order bar)
simulate_order_fill-IsOutcome_example =
    simulate_order_fill-IsOutcome bps part 120 order bar false false (ground arith)

simulate_order_fill-FillsWhen_example :
    (is_some (simulate_order_fill bps part 120 false false order bar).fill ≡ true)
    ↔ FillsWhen buy false false order bar
simulate_order_fill-FillsWhen_example =
    simulate_order_fill-FillsWhen bps part 120 false false order bar

abbrev fill_or : OrderFill Fixed → Option (OrderFill Fixed) → OrderFill Fixed
fill_or d none = d
fill_or d (some f) = f

abbrev no_fill_yet : OrderFill Fixed
no_fill_yet = record {
  order_id = 0;
  symbol = 0;
  side = buy;
  fill_price = rials 0;
  quantity = 0;
  slippage_rials = rials 0;
  fees_rials = rials 0;
  tax_rials = rials 0;
  net_value_rials = rials 0;
  executed_at = 0;
}

abbrev fill : OrderFill Fixed
fill = fill_or no_fill_yet (simulate_order_fill bps part 120 false false order bar).fill

fill-found : (simulate_order_fill bps part 120 false false order bar).fill ≡ some fill
unfolding simulate_order_fill simulate_buy buy_fill_of calculate_trade_fees charge ◌+ℤ◌
fill-found = refl

simulate_order_fill-FillFits_example : FillFits buy bar part fill
simulate_order_fill-FillFits_example =
    simulate_order_fill-FillFits Fixed-IsOrdered Fixed-round_mono bps part 120 order bar false false
      refl refl fill-found

-- A position from 1,000 at a risk of 100: a bar at 1,250 trims it, one at 1,320 trims it again.
abbrev entered : Held Fixed
entered = record {
  average_entry_price = rials 1000;
  stop_price = some (rials 900);
  stage_exit_level = 0;
}

abbrev look_at : ℕ → Look Fixed
look_at price = record {
  bar = record bar {
    open_price = rials price;
    high = rials price;
    low = rials price;
    close = rials price;
  };
  initial_risk = rials 100;
  holding_sessions = 3;
}

abbrev looks : List (Look Fixed)
looks = look_at 1250 ∷ look_at 1320 ∷ look_at 1330 ∷ []

two_trims : trim_count (evaluations entered looks) ≡ 2
unfolding evaluations evaluate_exits_and_trailing_stop
two_trims = refl

evaluations-NoLower_example :
    let es = evaluations entered looks in
    NoLower entered.stop_price (last_held entered es).stop_price
    × ((last_held entered es).stage_exit_level ≡ entered.stage_exit_level + trim_count es)
    × (entered.stage_exit_level + trim_count es ≤ 2)
evaluations-NoLower_example = evaluations-NoLower Fixed-IsOrdered refl entered looks (ground arith)

evaluate-full_exit_example :
    IsRuled entered (look_at 890) (evaluate_exits_and_trailing_stop entered (look_at 890))
evaluate-full_exit_example = evaluate-full_exit entered (look_at 890)
