-- ===== src/Sizing/Tests.antt =====
-- Tickets on a concrete portfolio.
use iran_market_radar.Base.{ℕ, ◌*◌, ◌≡◌, refl, true, false, none, some, [], ◌∷◌}
use iran_market_radar.Base.Int.{pos}
use iran_market_radar.Float.Fixed.{Fixed, fixed_float, Fixed-IsOrdered}
use iran_market_radar.Domain.{Portfolio, Position, PublishedSignal, risk_on}
use iran_market_radar.Risk.{active_risk_policy}
use iran_market_radar.Sizing.{
  PreTradeRiskTicket, Request, approved, drawdown_pct, drawdown_limits, sector_exposure,
  final_position,
}
use iran_market_radar.Sizing.Solve.{
  solve, situation, available_cash_of, capacities, final_quantity, open_risk_after_pct,
  sector_after_pct, decide, ticket,
}
use iran_market_radar.Sizing.Capacity.{IsSafe, solve-IsSafe}

abbrev rials : ℕ → Fixed
rials n = pos (n * 1_000_000)

abbrev portfolio : Portfolio Fixed
portfolio = record {
  id = 1;
  is_paper = true;
  cash = rials 1_000_000_000;
  initial_cash = rials 1_000_000_000;
  realized_pnl = rials 0;
  is_active = true;
  kill_switch_active = false;
  updated_at = 0;
}

abbrev held : Position Fixed
held = record {
  id = 5;
  portfolio_id = 1;
  symbol = 20;
  quantity = 1000;
  average_entry_price = rials 900;
  current_price = rials 1000;
  unrealized_pnl = rials 0;
  stop_loss = some (rials 850);
  target_price = none;
  total_invested_rials = rials 900_000;
  risk_pct = rials 0;
  expected_days_to_target = 0;
  risk_flags = [];
  opened_at = 1;
  is_open = true;
}

abbrev signal : PublishedSignal Fixed
signal = record {
  id = 7;
  symbol = 10;
  actionable = true;
  expires_at = none;
  entry_low = some (rials 5000);
  invalidation_price = some (rials 4500);
  targets = some (rials 6000 ∷ []);
  sector = some 3;
  regime = risk_on;
  time_stop_sessions = 5;
  risk_flags = [];
}

abbrev request : Request Fixed
request = record {
  current_market_price = rials 5050;
  adtv_20d_rials = rials 50_000_000_000;
  sector_name = some 3;
  rolling_correlations = [];
  daily_already_allocated_notional_rials = rials 0;
  hwm_nav_rials = none;
}

shares :
    let s = situation active_risk_policy portfolio (held ∷ []) signal request in
    final_quantity (final_position (capacities active_risk_policy signal request s)) s.price
    ≡ some (pos 5_707)
unfolding situation available_cash_of capacities final_quantity drawdown_pct drawdown_limits
    sector_exposure final_position
shares = refl

abbrev approved_ticket : PreTradeRiskTicket Fixed
approved_ticket =
    ticket active_risk_policy signal request
      (situation active_risk_policy portfolio (held ∷ []) signal request) (rials 6000, rials 6390)
      (pos 5_707)

solved : solve active_risk_policy portfolio (held ∷ []) signal request ≡ some approved_ticket
unfolding solve situation available_cash_of capacities final_quantity drawdown_pct drawdown_limits
    sector_exposure final_position
solved = refl

ticket-approved : approved_ticket.decision ≡ approved
unfolding situation available_cash_of capacities final_quantity open_risk_after_pct sector_after_pct
    decide drawdown_pct drawdown_limits sector_exposure final_position
ticket-approved = refl

solve-IsSafe_example :
    IsSafe active_risk_policy portfolio (held ∷ []) signal request approved_ticket
solve-IsSafe_example =
    solve-IsSafe Fixed-IsOrdered active_risk_policy portfolio (held ∷ []) signal request
      approved_ticket solved ticket-approved
