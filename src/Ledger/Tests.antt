-- ===== src/Ledger/Tests.antt =====
-- Runs of the paper broker on concrete books: one purchase on a signal, one partial sale, one order
-- on a symbol that is not known.
use iran_market_radar.Base.{◌≡◌, refl, Option, none, some, List, ◌++◌, length, All, arith}
use iran_market_radar.Float.Fixed.{Fixed, fixed_float}
use iran_market_radar.Domain.{BrokerOrder, DecisionAudit, CashLedger}
use iran_market_radar.Execution.{
  simulate_order_fill, simulate_buy, simulate_sell, buy_fill_of, sell_fill_of,
}
use iran_market_radar.Fees.{calculate_trade_fees, charge}
use iran_market_radar.Base.Int.{◌+ℤ◌}
use iran_market_radar.Trusted.{
  is_trusted, trusted_market_snapshot_query, latest_trusted_market_snapshot_after,
  previous_trusted_snapshot,
}
use iran_market_radar.Ledger.Book.{Book}
use iran_market_radar.Ledger.Entry.{
  apply_buy, enter_new, pay, record_buy, log_entry, open_position, position_for,
}
use iran_market_radar.Ledger.Exit.{
  apply_sell, leave_position, receive, record_sell, log_exit, reduce_position,
}
use iran_market_radar.Ledger.Pending.{
  apply_fill, process_volume, process_snapshot, process_instrument, process_order, process_orders,
  process_pending_orders, pending_orders, incremental_volume, entry_gate, after_timestamp,
  campaign_allows_entry,
}
use iran_market_radar.Ledger.Fixtures.{start, env, raising}
use iran_market_radar.Ledger.Replay.{Replay, process_pending_orders-Replay}
use iran_market_radar.Ledger.Mandate.{Justified}
use iran_market_radar.Ledger.Justification.{Paired, IsCandidate, process_pending_orders-Justified}
use iran_market_radar.Ledger.Bounds.{WellFormed}
use iran_market_radar.Ledger.Preservation.{process_pending_orders-WellFormed}

abbrev run : Option (Book Fixed)
run = process_pending_orders raising env none start

abbrev after : Book Fixed
after = elim run [ none ↦ start | some b ↦ b ]

run-after : run ≡ some after
unfolding process_pending_orders process_orders pending_orders process_order entry_gate
    campaign_allows_entry process_instrument after_timestamp latest_trusted_market_snapshot_after
    previous_trusted_snapshot trusted_market_snapshot_query is_trusted process_snapshot
    incremental_volume process_volume simulate_order_fill simulate_buy simulate_sell buy_fill_of
    sell_fill_of apply_fill apply_buy apply_sell enter_new leave_position pay receive record_buy
    record_sell log_entry log_exit open_position reduce_position position_for calculate_trade_fees
    charge ◌+ℤ◌
run-after = refl

-- Two of the three orders are filled.
two_filled : (after.filled ≡ 2) × (length after.cash_rows ≡ 2) × (after.processed ≡ 2)
unfolding process_pending_orders process_orders pending_orders process_order entry_gate
    campaign_allows_entry process_instrument after_timestamp latest_trusted_market_snapshot_after
    previous_trusted_snapshot trusted_market_snapshot_query is_trusted process_snapshot
    incremental_volume process_volume simulate_order_fill simulate_buy simulate_sell buy_fill_of
    sell_fill_of apply_fill apply_buy apply_sell enter_new leave_position pay receive record_buy
    record_sell log_entry log_exit open_position reduce_position position_for calculate_trade_fees
    charge ◌+ℤ◌
two_filled = (refl, refl, refl)

process_pending_orders-Replay_example :
    (rows : List (CashLedger Fixed)) × (after.cash_rows ≡ start.cash_rows ++ rows)
    × Replay start.portfolio.cash rows after.portfolio.cash
    × (after.filled ≡ length rows)
process_pending_orders-Replay_example =
    process_pending_orders-Replay raising env none start after run-after

process_pending_orders-Justified_example :
    (added : List DecisionAudit) × (after.audits ≡ start.audits ++ added)
    × (after.filled ≡ length added)
    × ((rows : List (CashLedger Fixed)) × (after.cash_rows ≡ start.cash_rows ++ rows)
        × Paired added rows)
    × All
        (λ a.
          (o : BrokerOrder Fixed) × IsCandidate none start o × Justified env start.portfolio o a)
        added
process_pending_orders-Justified_example =
    process_pending_orders-Justified raising env none start after run-after

start-WellFormed : WellFormed start
start-WellFormed = ((ground arith, (ground arith, (ground arith, tt))), (λ _. ground arith, tt))

process_pending_orders-WellFormed_example : WellFormed after
process_pending_orders-WellFormed_example =
    process_pending_orders-WellFormed raising env none start after start-WellFormed run-after
