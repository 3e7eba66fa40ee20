-- ===== src/Trader.antt =====
-- services/paper_broker/auto_trader.py, `AutoPaperTrader`: what one cycle reads, and the audits
-- that it writes. `Manage` has the rules for an open position, `Exits` applies them to each, `Scan`
-- and `Signals` find the opportunities, `Entries` submits purchases, and `Cycle` is the whole
-- cycle. The features of a symbol are an arbitrary function of its history.
pub mod Manage
pub mod Exits
pub mod Kept
pub mod Stops
pub mod Entries
pub mod Scan
pub mod Signals
pub mod Found
pub mod Cycle
pub mod Counted
pub mod Gated
pub mod Cleared
pub mod Tests
pub mod ScanTests
pub mod CycleTests
use iran_market_radar.Base.{ℕ, Bool, true, false, Option, List, []}
use iran_market_radar.Domain.{ExitReason, BrokerOrder}
use iran_market_radar.Domain.History.{EodBar, ClientTypeSnapshot}

-- Why `_check_exits` leaves a position.
pub data ExitSignal : Type 0 where
  indicator_deterioration target_hit stop_hit time_stop : ExitSignal

pub data TraderDecision : Type 0 where
  auto_scale_in_submitted auto_trim_submitted trailing_stop_updated : TraderDecision
  exit_submitted : ExitReason → TraderDecision

pub record TraderAudit : Type 0 where
  pub symbol : ℕ
  pub decision : TraderDecision
  pub as_of : ℕ

-- `compute_symbol_features`, of which the exits read three, and none for a feature that is missing.
pub record Features (F : Type 0) : Type 0 where
  pub rsi_14 : Option F
  pub ema_20 : Option F
  pub real_buyer_power_ratio : Option F

-- What a look at the market shows of a position's symbol.
pub record Look (F : Type 0) : Type 0 where
  pub price : F
  pub source_timestamp : ℕ
  pub features : Features F
  pub dates : List ℕ

-- The work of `_check_exits`: the rows added to the session, the count of exits, and the next new
-- identifier. `portfolio.orders` was loaded before and shows none of the orders that are added.
pub record Desk (F : Type 0) : Type 0 where
  pub submitted : List (BrokerOrder F)
  pub audits : List TraderAudit
  pub exits : ℕ
  pub next_id : ℕ

-- Before the loop.
abbrev pub fresh_desk : {F : Type 0} → ℕ → Desk F
fresh_desk id = record { submitted = []; audits = []; exits = 0; next_id = id }
