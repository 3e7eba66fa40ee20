-- ===== src/Trader/Tests.antt =====
-- The rules for open positions and a whole cycle on concrete inputs.
use iran_market_radar.Base.{
  ℕ, zero, suc, ◌≡◌, refl, true, false, Option, none, some, List, [], ◌∷◌, map, All,
}
use iran_market_radar.Float.Fixed.{Fixed, fixed_float, Fixed-IsOrdered}
use iran_market_radar.Domain.{
  Position, PaperTradeLog, MarketDataBatch, cdn_history, history_v1, official_direct, manual_exit,
}
use iran_market_radar.Domain.History.{EodBar}
use iran_market_radar.Risk.{active_risk_policy}
use iran_market_radar.Ledger.Fixtures.{start, env, held, rials, at}
use iran_market_radar.Trader.{Desk, fresh_desk}
use iran_market_radar.Trader.Manage.{
  Watch, look_at, initial_risk_per_share, current_r, exit_signal, may_scale_in, may_trim,
  proposed_stop, holding_sessions, time_is_up,
}
use iran_market_radar.Trader.Exits.{
  check_exits, manage_desk, add_submission, count_exit, scale_in_step, trim_step, next_stop,
  trail_position, trail_desk, final_reason, close_step, managed,
}
use iran_market_radar.Ledger.Orders.{create_exit_order, pending_exit_quantity}
use iran_market_radar.Trusted.History.{trusted_eod_query, trusted_client_type_query, bar_is_trusted}
use iran_market_radar.Trusted.{
  latest_trusted_market_snapshot, trusted_market_snapshot_query, is_trusted,
}
use iran_market_radar.Trader.Kept.{AllKept}
use iran_market_radar.Trader.Stops.{IsSubmitted, check_exits-AllKept}

abbrev pub history_batch : MarketDataBatch
history_batch = record {
  id = 2;
  source_key = cdn_history;
  schema_version = history_v1;
  complete = true;
  trade_eligible = true;
  trust_tier = official_direct;
}

abbrev bar_at : ℕ → EodBar Fixed
bar_at day = record {
  instrument_id = 2;
  trading_date = day;
  open_price = rials 1000;
  high = rials 1000;
  low = rials 1000;
  close = rials 1000;
  last = rials 1000;
  yesterday_price = rials 1000;
  volume = 1;
  value = rials 1000;
  source_key = cdn_history;
  batch_id = some 2;
  trust_tier = official_direct;
  trade_eligible = true;
}

abbrev pub bars_until : ℕ → List (EodBar Fixed)
bars_until zero = []
bars_until (suc n) = bar_at n ∷ bars_until n

abbrev log : PaperTradeLog Fixed
log = record {
  id = 1;
  portfolio_id = 1;
  symbol = 20;
  entry_price = rials 900;
  exit_price = none;
  quantity = 100;
  total_invested_rials = rials 90_000;
  entry_at = at 1;
  exit_at = none;
  gross_pnl = rials 0;
  net_pnl = rials 0;
  return_pct = rials 0;
  risk_reward_ratio = rials 0;
  exit_reason = manual_exit;
  initial_stop = some (rials 800);
  entry_order_id = 1;
  scale_in_order_ids = [];
  is_closed = false;
}

-- The price is at 2.5 times the initial risk.
abbrev watch : Watch Fixed
watch = record {
  policy = active_risk_policy;
  portfolio = start.portfolio;
  orders = [];
  instruments = env.instruments;
  batches = history_batch ∷ env.batches;
  snapshots = env.snapshots;
  bars = bars_until 30;
  clients = [];
  logs = log ∷ [];
  compute_symbol_features =
      λ bars clients. record { rsi_14 = none; ema_20 = none; real_buyer_power_ratio = none };
  now = at 120;
  stale = at 60;
}

abbrev outcome_of : Option (List (Position Fixed) × Desk Fixed) → List (Position Fixed) × Desk Fixed
outcome_of none = ([], fresh_desk 0)
outcome_of (some r) = r

abbrev exits : Option (List (Position Fixed) × Desk Fixed)
exits = check_exits watch [] (held ∷ []) (fresh_desk 50)

-- A quarter is sold, and the stop goes to half the initial risk above the entry.
exits_are :
    (map (λ p. p.stop_loss) (outcome_of exits).0 ≡ some (rials 950) ∷ [])
    × (map (λ o. o.quantity) (outcome_of exits).1.submitted ≡ 25 ∷ [])
unfolding check_exits manage_desk look_at initial_risk_per_share current_r exit_signal may_scale_in
    may_trim proposed_stop holding_sessions time_is_up add_submission count_exit scale_in_step
    trim_step next_stop trail_position trail_desk final_reason close_step managed create_exit_order
    trusted_eod_query trusted_client_type_query bar_is_trusted latest_trusted_market_snapshot
    trusted_market_snapshot_query is_trusted pending_exit_quantity
exits_are = (refl, refl)

exits-some : exits ≡ some (outcome_of exits)
unfolding check_exits manage_desk look_at initial_risk_per_share current_r exit_signal may_scale_in
    may_trim proposed_stop holding_sessions time_is_up add_submission count_exit scale_in_step
    trim_step next_stop trail_position trail_desk final_reason close_step managed create_exit_order
    trusted_eod_query trusted_client_type_query bar_is_trusted latest_trusted_market_snapshot
    trusted_market_snapshot_query is_trusted pending_exit_quantity
exits-some = refl

check_exits-AllKept_example :
    AllKept (held ∷ []) (outcome_of exits).0
    × All (IsSubmitted watch (held ∷ [])) (outcome_of exits).1.submitted
check_exits-AllKept_example = check_exits-AllKept Fixed-IsOrdered watch (held ∷ []) 50 exits-some
