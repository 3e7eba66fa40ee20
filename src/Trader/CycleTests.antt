-- ===== src/Trader/CycleTests.antt =====
-- Whole cycles: one that sells, buys and enters, and one that the data block.
use iran_market_radar.Base.{
  ◌+◌, ◌≤◌, ◌≡◌, refl, ◌++◌, true, false, Option, none, some, [], ◌∷◌, map, All, length, ℕ,
}
use iran_market_radar.Float.Fixed.{Fixed, fixed_float, Fixed-IsOrdered}
use iran_market_radar.Domain.{position_ref, entry_filled, trim_filled}
use iran_market_radar.Risk.{active_risk_policy}
use iran_market_radar.Campaign.{
  opening_snapshot, opening_snapshot_is_valid, identity_error, validate_campaign_opening_snapshot,
  is_pristine, ensure_initial_campaign_snapshot, portfolio_of_campaign,
  get_active_campaign_portfolio,
}
use iran_market_radar.Campaign.Tests.{after}
use iran_market_radar.Gates.Tests.{state}
use iran_market_radar.Ledger.Entry.{
  positions_of, open_position, increase_position, new_log, updated_log, buy_row, log_entry,
  record_buy, pay, reject_fill, position_for, enter_new, enter_more, apply_buy,
}
use iran_market_radar.Ledger.Fixtures.{start, raising}
use iran_market_radar.Trader.Entries.{
  open_positions, max_new, submit_entry, submit_entries, enter_best, drawdown_of, guard_drawdown,
  snapshot_portfolio,
}
use iran_market_radar.Trader.Cycle.{
  enter_on, CycleInput, Report, Stage, synced, completed, gate_blocked, ends, run_cycle,
  process_buys, finish, enter, pass_gates, after_exits, trade, resolve, after_sync,
}
use iran_market_radar.Trader.Gated.{Cleared}
use iran_market_radar.Trader.Cleared.{run_cycle-entries}
use iran_market_radar.Trader.Tests.{bars_until}
use iran_market_radar.Ledger.Pending.{
  campaign_allows_entry, entry_gate, after_timestamp, incremental_volume, pending_orders,
  apply_fill, process_volume, process_snapshot, process_instrument, process_order, process_orders,
  process_pending_orders,
}
use iran_market_radar.Ledger.Exit.{
  exit_reason_by_order, reduce_position, exit_log, sell_row, outcome_of, closed_record,
  record_closed_trade, receive, record_sell, log_exit, leave_position, apply_sell,
}
use iran_market_radar.Ledger.Orders.{pending_exit_quantity, create_exit_order}
use iran_market_radar.Ledger.Orders.Purchase.{
  generate_pre_trade_ticket, order_from_ticket, create_order_from_signal, scale_in_order,
  scale_in_position,
}
use iran_market_radar.Trusted.{
  is_trusted, trusted_market_snapshot_query, latest_trusted_market_snapshot_after,
  latest_trusted_market_snapshot, previous_trusted_snapshot,
}
use iran_market_radar.Trusted.History.{
  bar_is_trusted, client_row_is_trusted, trusted_eod_query, trusted_client_type_query,
}
use iran_market_radar.Trader.Exits.{
  add_submission, count_exit, scale_in_step, trim_step, next_stop, trail_position, trail_desk,
  final_reason, close_step, managed, manage_desk, check_exits,
}
use iran_market_radar.Trader.Manage.{
  look_at, initial_risk_per_share, current_r, exit_signal, may_scale_in, may_trim, proposed_stop,
  holding_sessions, time_is_up,
}
use iran_market_radar.Gates.{healthy_fundamental_receipts}
use iran_market_radar.Gates.Data.{
  receipt_is_usable, snapshot_reasons, batch_reasons, gate_reasons, evaluate_data_gate,
}
use iran_market_radar.Execution.{
  buy_fill_of, sell_fill_of, simulate_buy, simulate_sell, simulate_order_fill,
}
use iran_market_radar.Fees.{charge, calculate_trade_fees}
use iran_market_radar.Sizing.{drawdown_pct, drawdown_limits, sector_exposure, final_position}
use iran_market_radar.Sizing.Solve.{
  situation, available_cash_of, capacities, final_quantity, open_risk_after_pct, sector_after_pct,
  decide, solve,
}
use iran_market_radar.Base.Int.{◌+ℤ◌, ◌-ℤ◌, ◌*ℤ◌, quot_ℤ}
use iran_market_radar.Trader.Scan.{
  instrument_data_quality_score, scan_at, scan_symbol, scan_symbols,
}
use iran_market_radar.Trader.Signals.{publish, signal_of, assemble_all, scan}
use iran_market_radar.Strategies.{propose, only_if, raise_if}
use iran_market_radar.Strategies.Trend.{momentum, trend, pullback, ichimoku}
use iran_market_radar.Strategies.Volume.{breakout, volume, squeeze, reversion}
use iran_market_radar.Strategies.Flow.{accumulation, rotation, confluence, divergence}
use iran_market_radar.Strategies.Registry.{evaluate_all}
use iran_market_radar.Scorer.Votes.{
  add_vote, family_votes, qualifying_families, bullish_strategy_count, technical_gate_passed,
  raw_ensemble_score,
}
use iran_market_radar.Scorer.Assemble.{
  evaluate_execution_feasibility, confidence_of, opportunity_of, liquidity_of, grade_of,
  publication_gate, assemble_at, assemble_published_signal,
}
use iran_market_radar.Gates.Fundamental.{
  filing_reasons, number_reasons, source_reasons, evaluate_snapshot, evaluate_fundamental_gate,
}
use iran_market_radar.Trader.ScanTests.{
  running_campaign, rich, book, market, bars_of_third, scan_input,
}

abbrev input : CycleInput Fixed
input = record {
  paper_only = true;
  live_trading = false;
  manual = false;
  auto_enabled = true;
  market_open = true;
  sync = synced true;
  campaign_db = record after {
    portfolios = rich ∷ [];
    snapshots = opening_snapshot running_campaign rich ∷ [];
  };
  orm = raising;
  env = market;
  policy = active_risk_policy;
  bars = bars_of_third ++ bars_until 30;
  clients = [];
  compute_symbol_features =
      λ bars clients. record { rsi_14 = none; ema_20 = none; real_buyer_power_ratio = none };
  gate = state;
  scan_input = scan_input;
}

abbrev report_of : Option (Report Fixed) → Report Fixed
report_of none = ends Stage.disabled start
report_of (some r) = r

abbrev report : Report Fixed
report = report_of (run_cycle input book)

abbrev blocked : Report Fixed
blocked = report_of (run_cycle (record input { gate = record state { market_open = false } }) book)

report_is :
    (report.stage ≡ completed)
    × (map (λ a. a.decision) report.book.audits ≡ trim_filled ∷ (entry_filled ∷ []))
    × (length report.entries ≡ 1)
unfolding instrument_data_quality_score scan_at scan_symbol scan_symbols publish signal_of
    assemble_all scan propose only_if raise_if momentum trend pullback ichimoku breakout volume
    squeeze reversion accumulation rotation confluence divergence evaluate_all add_vote family_votes
    qualifying_families bullish_strategy_count technical_gate_passed raw_ensemble_score
    evaluate_execution_feasibility confidence_of opportunity_of liquidity_of grade_of
    publication_gate assemble_at assemble_published_signal filing_reasons number_reasons
    source_reasons evaluate_snapshot evaluate_fundamental_gate enter_on campaign_allows_entry
    entry_gate after_timestamp incremental_volume pending_orders apply_fill process_volume
    process_snapshot process_instrument process_order process_orders process_pending_orders
    open_position increase_position new_log updated_log buy_row log_entry record_buy pay reject_fill
    position_for enter_new enter_more apply_buy exit_reason_by_order reduce_position exit_log
    sell_row outcome_of closed_record record_closed_trade receive record_sell log_exit
    leave_position apply_sell pending_exit_quantity create_exit_order generate_pre_trade_ticket
    order_from_ticket create_order_from_signal scale_in_order scale_in_position
    opening_snapshot_is_valid identity_error validate_campaign_opening_snapshot is_pristine
    ensure_initial_campaign_snapshot portfolio_of_campaign get_active_campaign_portfolio is_trusted
    trusted_market_snapshot_query latest_trusted_market_snapshot_after
    latest_trusted_market_snapshot previous_trusted_snapshot bar_is_trusted client_row_is_trusted
    trusted_eod_query trusted_client_type_query process_buys finish enter pass_gates after_exits
    trade resolve after_sync run_cycle add_submission count_exit scale_in_step trim_step next_stop
    trail_position trail_desk final_reason close_step managed manage_desk check_exits look_at
    initial_risk_per_share current_r exit_signal may_scale_in may_trim proposed_stop
    holding_sessions time_is_up max_new submit_entry submit_entries enter_best drawdown_of
    guard_drawdown snapshot_portfolio healthy_fundamental_receipts receipt_is_usable
    snapshot_reasons batch_reasons gate_reasons evaluate_data_gate buy_fill_of sell_fill_of
    simulate_buy simulate_sell simulate_order_fill charge calculate_trade_fees drawdown_pct
    drawdown_limits sector_exposure final_position situation available_cash_of capacities
    final_quantity open_risk_after_pct sector_after_pct decide solve ◌+ℤ◌ ◌-ℤ◌ ◌*ℤ◌ quot_ℤ
report_is = (refl, refl, refl)

blocked_is :
    (blocked.stage ≡ gate_blocked) × (map (λ a. a.decision) blocked.book.audits ≡ trim_filled ∷ [])
unfolding instrument_data_quality_score scan_at scan_symbol scan_symbols publish signal_of
    assemble_all scan propose only_if raise_if momentum trend pullback ichimoku breakout volume
    squeeze reversion accumulation rotation confluence divergence evaluate_all add_vote family_votes
    qualifying_families bullish_strategy_count technical_gate_passed raw_ensemble_score
    evaluate_execution_feasibility confidence_of opportunity_of liquidity_of grade_of
    publication_gate assemble_at assemble_published_signal filing_reasons number_reasons
    source_reasons evaluate_snapshot evaluate_fundamental_gate enter_on campaign_allows_entry
    entry_gate after_timestamp incremental_volume pending_orders apply_fill process_volume
    process_snapshot process_instrument process_order process_orders process_pending_orders
    open_position increase_position new_log updated_log buy_row log_entry record_buy pay reject_fill
    position_for enter_new enter_more apply_buy exit_reason_by_order reduce_position exit_log
    sell_row outcome_of closed_record record_closed_trade receive record_sell log_exit
    leave_position apply_sell pending_exit_quantity create_exit_order generate_pre_trade_ticket
    order_from_ticket create_order_from_signal scale_in_order scale_in_position
    opening_snapshot_is_valid identity_error validate_campaign_opening_snapshot is_pristine
    ensure_initial_campaign_snapshot portfolio_of_campaign get_active_campaign_portfolio is_trusted
    trusted_market_snapshot_query latest_trusted_market_snapshot_after
    latest_trusted_market_snapshot previous_trusted_snapshot bar_is_trusted client_row_is_trusted
    trusted_eod_query trusted_client_type_query process_buys finish enter pass_gates after_exits
    trade resolve after_sync run_cycle add_submission count_exit scale_in_step trim_step next_stop
    trail_position trail_desk final_reason close_step managed manage_desk check_exits look_at
    initial_risk_per_share current_r exit_signal may_scale_in may_trim proposed_stop
    holding_sessions time_is_up max_new submit_entry submit_entries enter_best drawdown_of
    guard_drawdown snapshot_portfolio healthy_fundamental_receipts receipt_is_usable
    snapshot_reasons batch_reasons gate_reasons evaluate_data_gate buy_fill_of sell_fill_of
    simulate_buy simulate_sell simulate_order_fill charge calculate_trade_fees drawdown_pct
    drawdown_limits sector_exposure final_position situation available_cash_of capacities
    final_quantity open_risk_after_pct sector_after_pct decide solve ◌+ℤ◌ ◌-ℤ◌ ◌*ℤ◌ quot_ℤ
blocked_is = (refl, refl)

cycle_ends : run_cycle input book ≡ some report
unfolding instrument_data_quality_score scan_at scan_symbol scan_symbols publish signal_of
    assemble_all scan propose only_if raise_if momentum trend pullback ichimoku breakout volume
    squeeze reversion accumulation rotation confluence divergence evaluate_all add_vote family_votes
    qualifying_families bullish_strategy_count technical_gate_passed raw_ensemble_score
    evaluate_execution_feasibility confidence_of opportunity_of liquidity_of grade_of
    publication_gate assemble_at assemble_published_signal filing_reasons number_reasons
    source_reasons evaluate_snapshot evaluate_fundamental_gate enter_on campaign_allows_entry
    entry_gate after_timestamp incremental_volume pending_orders apply_fill process_volume
    process_snapshot process_instrument process_order process_orders process_pending_orders
    open_position increase_position new_log updated_log buy_row log_entry record_buy pay reject_fill
    position_for enter_new enter_more apply_buy exit_reason_by_order reduce_position exit_log
    sell_row outcome_of closed_record record_closed_trade receive record_sell log_exit
    leave_position apply_sell pending_exit_quantity create_exit_order generate_pre_trade_ticket
    order_from_ticket create_order_from_signal scale_in_order scale_in_position
    opening_snapshot_is_valid identity_error validate_campaign_opening_snapshot is_pristine
    ensure_initial_campaign_snapshot portfolio_of_campaign get_active_campaign_portfolio is_trusted
    trusted_market_snapshot_query latest_trusted_market_snapshot_after
    latest_trusted_market_snapshot previous_trusted_snapshot bar_is_trusted client_row_is_trusted
    trusted_eod_query trusted_client_type_query process_buys finish enter pass_gates after_exits
    trade resolve after_sync run_cycle add_submission count_exit scale_in_step trim_step next_stop
    trail_position trail_desk final_reason close_step managed manage_desk check_exits look_at
    initial_risk_per_share current_r exit_signal may_scale_in may_trim proposed_stop
    holding_sessions time_is_up max_new submit_entry submit_entries enter_best drawdown_of
    guard_drawdown snapshot_portfolio healthy_fundamental_receipts receipt_is_usable
    snapshot_reasons batch_reasons gate_reasons evaluate_data_gate buy_fill_of sell_fill_of
    simulate_buy simulate_sell simulate_order_fill charge calculate_trade_fees drawdown_pct
    drawdown_limits sector_exposure final_position situation available_cash_of capacities
    final_quantity open_risk_after_pct sector_after_pct decide solve ◌+ℤ◌ ◌-ℤ◌ ◌*ℤ◌ quot_ℤ
cycle_ends = refl

run_cycle-entries_example :
    (length report.entries ≤ 3)
    × All (λ o. (n : ℕ) × (o.signal_id ≡ position_ref n)) report.submitted
    × (1 ≤ length report.entries
        → length report.entries
            + length (open_positions (positions_of report.book.portfolio.id report.book.positions))
          ≤ input.policy.portfolio_limits.max_active_positions)
run_cycle-entries_example = run_cycle-entries Fixed-IsOrdered input book cycle_ends
