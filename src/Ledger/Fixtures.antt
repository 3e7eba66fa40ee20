-- ===== src/Ledger/Fixtures.antt =====
-- A concrete book, its surroundings and its session, for the tests.
use iran_market_radar.Base.{ℕ, ◌*◌, true, false, none, some, [], ◌∷◌}
use iran_market_radar.Base.Int.{pos}
use iran_market_radar.Float.Fixed.{Fixed, fixed_float}
use iran_market_radar.Domain.{
  BrokerOrder, Side, buy, sell, submitted, limit, trim, signal_ref, position_ref, Position, running,
  risk_on, MarketSnapshot, cdn_market_watch, market_watch_v1, official_direct,
}
use iran_market_radar.Ledger.Book.{Book, Env, Orm}

abbrev pub rials : ℕ → Fixed
rials n = pos (n * 1_000_000)

abbrev pub at : ℕ → ℕ
at seconds = seconds * 1_000_000

abbrev pub order_of : ℕ → ℕ → Side → BrokerOrder Fixed
order_of id symbol side = record {
  id = id;
  portfolio_id = 1;
  signal_id = signal_ref 7;
  symbol = symbol;
  side = side;
  order_type = limit;
  price = rials 5000;
  quantity = 300;
  filled_quantity = 0;
  status = submitted;
  created_at = at 100;
  updated_at = at 100;
  last_evaluated_snapshot_at = none;
}

abbrev pub purchase : BrokerOrder Fixed
purchase = order_of 1 10 buy

abbrev pub sale : BrokerOrder Fixed
sale = record (order_of 2 20 sell) {
  signal_id = position_ref 5;
  order_type = trim;
  price = rials 1000;
  quantity = 40;
}

abbrev pub unknown : BrokerOrder Fixed
unknown = order_of 3 99 buy

abbrev pub held : Position Fixed
held = record {
  id = 5;
  portfolio_id = 1;
  symbol = 20;
  quantity = 100;
  average_entry_price = rials 900;
  current_price = rials 1000;
  unrealized_pnl = rials 0;
  stop_loss = none;
  target_price = none;
  total_invested_rials = rials 90_000;
  risk_pct = rials 0;
  expected_days_to_target = 0;
  risk_flags = [];
  opened_at = at 1;
  is_open = true;
}

abbrev pub start : Book Fixed
start = record {
  portfolio = record {
    id = 1;
    is_paper = true;
    cash = rials 10_000_000;
    initial_cash = rials 10_000_000;
    realized_pnl = rials 0;
    is_active = true;
    kill_switch_active = false;
    updated_at = at 1;
  };
  orders = purchase ∷ sale ∷ unknown ∷ [];
  positions = record { flushed = held ∷ []; current = held ∷ [] };
  fills = record { flushed = []; current = [] };
  trade_logs = record { flushed = []; current = [] };
  cash_rows = [];
  audits = [];
  closed_trades = record { flushed = []; current = [] };
  next_id = 100;
  processed = 0;
  filled = 0;
  messages = [];
}

abbrev pub snapshot_at : ℕ → ℕ → ℕ → ℕ → MarketSnapshot Fixed
snapshot_at instrument seconds price volume = record {
  instrument_id = instrument;
  source_timestamp = at seconds;
  last_price = rials price;
  volume = volume;
  allowed_min = rials 500;
  allowed_max = rials 9000;
  source_key = cdn_market_watch;
  batch_id = some 1;
  trust_tier = official_direct;
  trade_eligible = true;
}

abbrev pub env : Env Fixed
env = record {
  campaigns =
      record {
        id = 1;
        portfolio_id = 1;
        status = running;
        starts_at = at 0;
        ends_at = at 1000;
        initial_capital_rials = rials 10_000_000;
      }
      ∷ [];
  signals =
      record {
        id = 7;
        symbol = 10;
        actionable = true;
        expires_at = some (at 500);
        entry_low = none;
        invalidation_price = some (rials 4500);
        targets = some (rials 6000 ∷ []);
        sector = none;
        regime = risk_on;
        time_stop_sessions = 5;
        risk_flags = [];
      }
      ∷ [];
  instruments =
      record { id = 1; ticker = 10; is_active = true }
      ∷ record { id = 2; ticker = 20; is_active = true }
      ∷ [];
  batches =
      record {
        id = 1;
        source_key = cdn_market_watch;
        schema_version = market_watch_v1;
        complete = true;
        trade_eligible = true;
        trust_tier = official_direct;
      }
      ∷ [];
  snapshots =
      snapshot_at 1 90 4990 1000
      ∷ snapshot_at 1 110 4980 11_000
      ∷ snapshot_at 2 95 1100 1000
      ∷ snapshot_at 2 112 1150 9000
      ∷ [];
  now = at 120;
  stale = at 60;
}

-- `Session.delete` raises on a row that was never flushed.
abbrev pub raising : Orm Fixed
raising = record { delete_pending = λ f t. none }
