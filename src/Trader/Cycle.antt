-- ===== src/Trader/Cycle.antt =====
-- `AutoPaperTrader.run_cycle`: sales before the gates, purchases after them. `none` is an exception,
-- after which the session is rolled back; the other ends are the stages.
use iran_market_radar.Base.{
  ◌&&◌, Bool, true, false, not, Option, none, some, List, [], ◌∷◌, ◌==◌, if◌then◌else◌, keep,
}
use iran_market_radar.Float.{Float}
use iran_market_radar.Domain.{buy, sell, Position, Portfolio, BrokerOrder}
use iran_market_radar.Domain.History.{EodBar, ClientTypeSnapshot}
use iran_market_radar.Risk.{RiskPolicy}
use iran_market_radar.Campaign.{
  Db, PortfolioSnapshot, Result, ok, error, get_active_campaign_portfolio,
}
use iran_market_radar.Gates.Data.{GateInput, evaluate_data_gate}
use iran_market_radar.Ledger.Book.{Book, Env, Orm, Table, update_row, position_id_of}
use iran_market_radar.Ledger.Entry.{positions_of}
use iran_market_radar.Ledger.Pending.{process_pending_orders}
use iran_market_radar.Trader.{Features, TraderAudit, Desk, fresh_desk}
use iran_market_radar.Trader.Manage.{Watch}
use iran_market_radar.Trader.Exits.{check_exits}
use iran_market_radar.Trader.Scan.{ScanInput, ScanResult, scan_raised, no_regime_evidence, scanned}
use iran_market_radar.Trader.Signals.{scan}
use iran_market_radar.Trader.Entries.{
  Opportunity, Market, enter_best, guard_drawdown, snapshot_portfolio,
}

-- `sync_live_cycle`, or the statistics that are provided.
pub data SyncResult : Type 0 where
  sync_failed : SyncResult
  synced : Bool → SyncResult

pub data Stage : Type 0 where
  disabled outside_session no_sync not_eligible no_campaign killed outside_window gate_blocked :
      Stage
  no_regime completed : Stage

-- What a cycle reads. `paper_only` is `trading_mode == "paper" and not live_trading_enabled`.
pub record CycleInput (F : Type 0) : Type 0 where
  pub paper_only : Bool
  pub live_trading : Bool
  pub manual : Bool
  pub auto_enabled : Bool
  pub market_open : Bool
  pub sync : SyncResult
  pub campaign_db : Db F
  pub orm : Orm F
  pub env : Env F
  pub policy : RiskPolicy F
  pub bars : List (EodBar F)
  pub clients : List (ClientTypeSnapshot F)
  pub compute_symbol_features : List (EodBar F) → List (ClientTypeSnapshot F) → Features F
  pub gate : GateInput F
  pub scan_input : ScanInput F

-- How a cycle ends: `submitted` are the orders and `audits` the decisions that `_check_exits` adds,
-- and `entries` the purchases.
pub record Report (F : Type 0) : Type 0 where
  pub stage : Stage
  pub book : Book F
  pub submitted : List (BrokerOrder F)
  pub audits : List TraderAudit
  pub entries : List (BrokerOrder F)
  pub snapshots : List (PortfolioSnapshot F)

module _ {F : Type 0} where
  abbrev pub ends : Stage → Book F → Report F
  ends stage b = record {
    stage = stage;
    book = b;
    submitted = [];
    audits = [];
    entries = [];
    snapshots = [];
  }

  abbrev pub ends_after : Stage → Desk F → Book F → Report F
  ends_after stage d b = record (ends stage b) { submitted = d.submitted; audits = d.audits }

  -- The portfolio's objects as the loop has left them.
  abbrev pub put_positions : List (Position F) → Table (Position F) → Table (Position F)
  put_positions [] t = t
  put_positions (p ∷ ps) t = put_positions ps (update_row position_id_of p t)

  -- The trade logs are read as last flushed.
  abbrev pub watch_of : CycleInput F → Book F → Watch F
  watch_of inp b = record {
    policy = inp.policy;
    portfolio = b.portfolio;
    orders = keep (λ o. o.portfolio_id == b.portfolio.id) b.orders;
    instruments = inp.env.instruments;
    batches = inp.env.batches;
    snapshots = inp.env.snapshots;
    bars = inp.bars;
    clients = inp.clients;
    logs = b.trade_logs.flushed;
    compute_symbol_features = inp.compute_symbol_features;
    now = inp.env.now;
    stale = inp.env.stale;
  }

  abbrev pub db_of : CycleInput F → Db F
  db_of inp = record inp.campaign_db { campaigns = inp.env.campaigns }

module _ {F : Type 0} ⦃fl : Float F⦄ where
  abbrev pub market_of : CycleInput F → Book F → Market F
  market_of inp b = record {
    policy = inp.policy;
    live_trading = inp.live_trading;
    portfolio = b.portfolio;
    positions = positions_of b.portfolio.id b.positions;
    orders = keep (λ o. o.portfolio_id == b.portfolio.id) b.orders;
    batches = inp.env.batches;
    snapshots = inp.env.snapshots;
    now = inp.env.now;
    stale = inp.env.stale;
  }

  -- The pending purchases, and how the cycle goes on.
  unfoldable pub process_buys :
      CycleInput F → (Book F → Option (Report F)) → Book F → Option (Report F)
  process_buys inp k b = elim (process_pending_orders inp.orm inp.env (some (buy ∷ [])) b) [
    | none ↦ none
    | some b' ↦ k b'
  ]

  -- Steps 4 and 5.
  unfoldable pub finish : CycleInput F → Desk F → List (Opportunity F) → Book F → Option (Report F)
  finish inp d opportunities b =
      let positions = positions_of b.portfolio.id b.positions in
      let snapshots = inp.campaign_db.snapshots in
      elim (enter_best (market_of inp b) d.next_id opportunities) [
        | none ↦ none
        | some entries ↦ some (record {
          stage = completed;
          book = record b {
            portfolio = guard_drawdown inp.policy inp.env.now b.portfolio positions snapshots;
          };
          submitted = d.submitted;
          audits = d.audits;
          entries = entries;
          snapshots = snapshot_portfolio inp.env.now b.portfolio positions snapshots ∷ [];
        })
      ]

  -- Step 3 reads the same tables at the same time as the rest of the cycle.
  abbrev pub scan_of : CycleInput F → ScanInput F
  scan_of inp = record inp.scan_input {
    instruments = inp.env.instruments;
    batches = inp.env.batches;
    bars = inp.bars;
    clients = inp.clients;
    snapshots = inp.env.snapshots;
    now = inp.env.now;
    stale = inp.env.stale;
  }

  unfoldable pub enter_on : CycleInput F → Desk F → Book F → ScanResult F → Option (Report F)
  enter_on inp d b scan_raised = none
  enter_on inp d b no_regime_evidence = some (ends_after no_regime d b)
  enter_on inp d b (scanned opportunities) = finish inp d opportunities b

  -- Step 3 and what follows.
  unfoldable pub enter : CycleInput F → Desk F → Book F → Option (Report F)
  enter inp d b = enter_on inp d b (scan (scan_of inp) (positions_of b.portfolio.id b.positions))

  -- The gates, once the exits are submitted: `in_window` tells whether the campaign is still resolved
  -- with the execution window required.
  unfoldable pub pass_gates :
      CycleInput F → Desk F → Book F → Result (Option (Portfolio F)) → Option (Report F)
  pass_gates inp d b (error e) = process_buys inp (λ b'. some (ends_after outside_window d b')) b
  pass_gates inp d b (ok p) =
      if not (evaluate_data_gate inp.gate true).allowed
      then some (ends_after gate_blocked d b)
      else process_buys inp (enter inp d) b

  unfoldable pub after_exits : CycleInput F → Desk F → Book F → Option (Report F)
  after_exits inp d b =
      if b.portfolio.kill_switch_active
      then process_buys inp (λ b'. some (ends_after killed d b')) b
      else pass_gates inp d b (get_active_campaign_portfolio (db_of inp) inp.env.now true)

  -- The pending sales and the open positions of the portfolio.
  unfoldable pub trade : CycleInput F → Book F → Option (Report F)
  trade inp b = elim (process_pending_orders inp.orm inp.env (some (sell ∷ [])) b) [
    | none ↦ none
    | some b' ↦
        elim (check_exits (watch_of inp b') [] (positions_of b'.portfolio.id b'.positions)
          (fresh_desk b'.next_id)) [
            | none ↦ none
            | some (positions, d) ↦
                after_exits inp d (record b' { positions = put_positions positions b'.positions })
          ]
  ]

  unfoldable pub resolve : CycleInput F → Book F → Result (Option (Portfolio F)) → Option (Report F)
  resolve inp b (error e) = none
  resolve inp b (ok none) = some (ends no_campaign b)
  resolve inp b (ok (some p)) = trade inp (record b { portfolio = p })

  unfoldable pub after_sync : CycleInput F → Book F → SyncResult → Option (Report F)
  after_sync inp b sync_failed = some (ends no_sync b)
  after_sync inp b (synced eligible) =
      if not eligible
      then some (ends not_eligible b)
      else resolve inp b (get_active_campaign_portfolio (db_of inp) inp.env.now false)

  unfoldable pub run_cycle : CycleInput F → Book F → Option (Report F)
  run_cycle inp b =
      if not inp.paper_only
      then none
      else if not inp.manual && not inp.auto_enabled
      then some (ends disabled b)
      else if not inp.market_open
      then some (ends outside_session b)
      else after_sync inp b inp.sync
