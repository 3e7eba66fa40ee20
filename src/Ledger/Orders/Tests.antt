-- ===== src/Ledger/Orders/Tests.antt =====
-- Orders submitted on a concrete book: a purchase on a signal, an addition and an exit.
use iran_market_radar.Base.{◌<◌, ◌≡◌, refl, true, false, none, some, List, [], ◌∷◌, ◌++◌, arith}
use iran_market_radar.Base.Int.{pos}
use iran_market_radar.Float.Fixed.{Fixed, fixed_float}
use iran_market_radar.Domain.{
  Portfolio, Position, BrokerOrder, PublishedSignal, manual_exit, risk_on,
}
use iran_market_radar.Risk.{active_risk_policy}
use iran_market_radar.Sizing.{drawdown_pct, drawdown_limits, sector_exposure, final_position}
use iran_market_radar.Sizing.Solve.{
  solve, situation, available_cash_of, capacities, final_quantity, open_risk_after_pct,
  sector_after_pct, decide,
}
use iran_market_radar.Ledger.Fixtures.{start, held, rials, at, sale}
use iran_market_radar.Ledger.Orders.{
  Submission, accepted, refused, failed, pending_exit_quantity, create_exit_order,
}
use iran_market_radar.Ledger.Orders.Purchase.{
  create_order_from_signal, order_from_ticket, generate_pre_trade_ticket, scale_in_position,
  scale_in_order,
}
use iran_market_radar.Ledger.Orders.Guards.{
  IsExit, create_exit_order-IsExit, create_exit_order-accepted,
}
use iran_market_radar.Ledger.Orders.Coverage.{
  IsAddition, IsCovered, create_order_from_signal-IsCovered, scale_in_position-accepted,
}

abbrev rich : Portfolio Fixed
rich = record start.portfolio { cash = rials 1_000_000_000; initial_cash = rials 1_000_000_000 }

abbrev positions : List (Position Fixed)
positions = held ∷ []

-- The signal's entry, invalidation and targets give a loss of ten per cent.
abbrev pub signal : PublishedSignal Fixed
signal = record {
  id = 7;
  symbol = 10;
  actionable = true;
  expires_at = some (at 500);
  entry_low = some (rials 5000);
  invalidation_price = some (rials 4500);
  targets = some (rials 6000 ∷ []);
  sector = none;
  regime = risk_on;
  time_stop_sessions = 5;
  risk_flags = [];
}

abbrev order_in : Submission Fixed → BrokerOrder Fixed
order_in (accepted o) = o
order_in (refused r) = sale
order_in failed = sale

-- Half of the position goes out, beside a pending exit of 40 of its 100 shares.
abbrev exit_submission : Submission Fixed
exit_submission =
    create_exit_order 200 (at 130) rich positions (sale ∷ []) 5 (rials 1100) (pos 500_000)
      manual_exit

exit-accepted : exit_submission ≡ accepted (order_in exit_submission)
unfolding create_exit_order pending_exit_quantity
exit-accepted = refl

exit_size : (order_in exit_submission).quantity ≡ 50
unfolding create_exit_order pending_exit_quantity
exit_size = refl

create_exit_order-IsExit_example : IsExit rich positions (sale ∷ []) 5 (order_in exit_submission)
create_exit_order-IsExit_example =
    create_exit_order-IsExit 200 (at 130) rich positions (sale ∷ []) 5 (rials 1100) (pos 500_000)
      manual_exit (order_in exit_submission) exit-accepted

some_held_left : pending_exit_quantity 5 (sale ∷ []) < held.quantity
unfolding pending_exit_quantity
some_held_left = ground arith

create_exit_order-accepted_example :
    (o : BrokerOrder Fixed) × (create_exit_order 200
        (at 130)
        rich
        positions
        (sale ∷ [])
        5
        (rials 1100)
        (rials 1)
        manual_exit
      ≡ accepted o)
    × (pending_exit_quantity 5 ((sale ∷ []) ++ o ∷ []) ≡ held.quantity)
create_exit_order-accepted_example =
    create_exit_order-accepted 200 (at 130) rich positions (sale ∷ []) 5 (rials 1100) (rials 1)
      manual_exit held refl some_held_left refl

abbrev purchase_submission : Submission Fixed
purchase_submission =
    create_order_from_signal active_risk_policy false 201 (at 130) rich positions (sale ∷ []) signal
      (rials 5000) (some (pos 300))

purchase-accepted : purchase_submission ≡ accepted (order_in purchase_submission)
unfolding create_order_from_signal order_from_ticket generate_pre_trade_ticket solve situation
    available_cash_of capacities final_quantity open_risk_after_pct sector_after_pct decide
    drawdown_pct drawdown_limits sector_exposure final_position
purchase-accepted = refl

create_order_from_signal-IsCovered_example :
    (false ≡ false)
    × IsCovered active_risk_policy rich positions
        (sale ∷ [])
        signal
        (rials 5000)
        (order_in purchase_submission)
create_order_from_signal-IsCovered_example =
    create_order_from_signal-IsCovered active_risk_policy false 201 (at 130) rich positions
      (sale ∷ []) signal (rials 5000) (some (pos 300)) (order_in purchase_submission)
      purchase-accepted

abbrev addition_submission : Submission Fixed
addition_submission =
    scale_in_position active_risk_policy 202 (at 130) rich positions (sale ∷ []) 5 (rials 1000)

addition-accepted : addition_submission ≡ accepted (order_in addition_submission)
unfolding scale_in_position scale_in_order
addition-accepted = refl

scale_in_position-accepted_example :
    IsAddition rich positions (sale ∷ []) 5 (rials 1000) (order_in addition_submission)
scale_in_position-accepted_example =
    scale_in_position-accepted active_risk_policy 202 (at 130) rich positions (sale ∷ []) 5
      (rials 1000) (order_in addition_submission) addition-accepted
