-- ===== src/Trader/ScanTests.antt =====
-- A session in which the scan finds one opportunity.
use iran_market_radar.Base.{◌≡◌, refl, true, Option, none, some, List, [], ◌∷◌, map, All}
use iran_market_radar.Float.Fixed.{Fixed, fixed_float}
use iran_market_radar.Domain.{PaperCampaign, Portfolio}
use iran_market_radar.Campaign.Tests.{campaign, portfolio}
use iran_market_radar.Ledger.Book.{Book, Env}
use iran_market_radar.Ledger.Fixtures.{start, env, rials, at, held, snapshot_at}
use iran_market_radar.Trader.Tests.{bars_until, history_batch}
use iran_market_radar.Trusted.{
  is_trusted, trusted_market_snapshot_query, latest_trusted_market_snapshot,
}
use iran_market_radar.Trusted.History.{
  bar_is_trusted, client_row_is_trusted, trusted_eod_query, trusted_client_type_query,
}
use iran_market_radar.Gates.{healthy_fundamental_receipts}
use iran_market_radar.Trader.Scan.{
  instrument_data_quality_score, scan_at, scan_symbol, scan_symbols, ScanInput, ScanResult,
  scan_raised, no_regime_evidence, scanned,
}
use iran_market_radar.Trader.Signals.{publish, signal_of, assemble_all, scan}
use iran_market_radar.Strategies.{
  propose, only_if, raise_if, Feature, close, ret_20d, ret_60d, ema_20, ema_trend_score,
  basic_metals,
}
use iran_market_radar.Strategies.Trend.{momentum, trend, pullback, ichimoku}
use iran_market_radar.Strategies.Volume.{breakout, volume, squeeze, reversion}
use iran_market_radar.Strategies.Flow.{accumulation, rotation, confluence, divergence}
use iran_market_radar.Strategies.Registry.{evaluate_all}
use iran_market_radar.Scorer.Votes.{
  add_vote, family_votes, qualifying_families, bullish_strategy_count, technical_gate_passed,
  raw_ensemble_score,
}
use iran_market_radar.Scorer.Assemble.{
  evaluate_execution_feasibility, confidence_of, opportunity_of, liquidity_of, grade_of,
  publication_gate, assemble_at, assemble_published_signal,
}
use iran_market_radar.Gates.Fundamental.{
  filing_reasons, number_reasons, source_reasons, evaluate_snapshot, evaluate_fundamental_gate,
}
use iran_market_radar.Trader.Found.{IsFound, scan-IsFound}
use iran_market_radar.Domain.History.{EodBar}
use iran_market_radar.Regime.{neutral}
use iran_market_radar.Base.Int.{pos}
use iran_market_radar.Gates.Tests.{numbers, filing, evidence}
use iran_market_radar.Trader.Entries.{Opportunity}

abbrev pub running_campaign : PaperCampaign Fixed
running_campaign = record campaign {
  starts_at = at 0;
  ends_at = at 1000;
  initial_capital_rials = rials 1_000_000_000;
}

abbrev pub rich : Portfolio Fixed
rich = record portfolio { cash = rials 1_000_000_000; initial_cash = rials 1_000_000_000 }

abbrev pub book : Book Fixed
book = record start { portfolio = rich }

-- A third symbol, which is not held, beside those of the session.
abbrev pub market : Env Fixed
market = record env {
  campaigns = running_campaign ∷ [];
  batches = history_batch ∷ env.batches;
  instruments = record { id = 3; ticker = 30; is_active = true } ∷ env.instruments;
  snapshots = snapshot_at 3 115 5000 1000 ∷ env.snapshots;
}

abbrev pub bars_of_third : List (EodBar Fixed)
bars_of_third = map {A = EodBar Fixed} (λ b. record b { instrument_id = 3 }) (bars_until 30)

abbrev rising : Feature → Option Fixed
rising close = some (rials 5000)
rising ret_20d = some (pos 100_000)
rising ret_60d = some (pos 90_000)
rising ema_20 = some (rials 4750)
rising ema_trend_score = some (rials 1)
rising _ = none

-- Gates that two families and three strategies pass.
abbrev pub scan_input : ScanInput Fixed
scan_input = record {
  instruments = market.instruments;
  batches = market.batches;
  bars = bars_of_third;
  clients = [];
  snapshots = market.snapshots;
  now = market.now;
  stale = market.stale;
  min_history_sessions = 30;
  compute_symbol_features =
      λ bars clients. record { features = rising; avg_turnover_20d = some (rials 1_000_000_000) };
  regime = some neutral;
  sector_of = λ id. some 1;
  sector_kind = λ n. basic_metals;
  settings = record {
    min_family_vote = pos 600_000;
    min_independent_technical_families = 2;
    min_bullish_strategies = 3;
    min_data_quality_score = rials 60;
    min_liquidity_score = rials 60;
    min_opportunity_score = rials 60;
    min_confidence = rials 50;
  };
  calibrator = record { available = true; predict_p_profit = λ x. pos 900_000 };
  fundamental = record evidence {
    snapshots = record numbers { instrument_id = 3 } ∷ [];
    filings = record filing { instrument_id = 3; symbol = 30 } ∷ [];
  };
  name_signal = λ symbol now. symbol;
}

abbrev found_in : ScanResult Fixed → List (Opportunity Fixed)
found_in scan_raised = []
found_in no_regime_evidence = []
found_in (scanned xs) = xs

abbrev found_there : List (Opportunity Fixed)
found_there = found_in (scan scan_input (held ∷ []))

one_found : map (λ o. o.instrument_id) found_there ≡ 3 ∷ []
unfolding instrument_data_quality_score scan_at scan_symbol scan_symbols publish signal_of
    assemble_all scan propose only_if raise_if momentum trend pullback ichimoku breakout volume
    squeeze reversion accumulation rotation confluence divergence evaluate_all add_vote family_votes
    qualifying_families bullish_strategy_count technical_gate_passed raw_ensemble_score
    evaluate_execution_feasibility confidence_of opportunity_of liquidity_of grade_of
    publication_gate assemble_at assemble_published_signal filing_reasons number_reasons
    source_reasons evaluate_snapshot evaluate_fundamental_gate is_trusted
    trusted_market_snapshot_query latest_trusted_market_snapshot trusted_eod_query
    trusted_client_type_query bar_is_trusted client_row_is_trusted healthy_fundamental_receipts
one_found = refl

scan_ends : scan scan_input (held ∷ []) ≡ scanned found_there
unfolding instrument_data_quality_score scan_at scan_symbol scan_symbols publish signal_of
    assemble_all scan propose only_if raise_if momentum trend pullback ichimoku breakout volume
    squeeze reversion accumulation rotation confluence divergence evaluate_all add_vote family_votes
    qualifying_families bullish_strategy_count technical_gate_passed raw_ensemble_score
    evaluate_execution_feasibility confidence_of opportunity_of liquidity_of grade_of
    publication_gate assemble_at assemble_published_signal filing_reasons number_reasons
    source_reasons evaluate_snapshot evaluate_fundamental_gate is_trusted
    trusted_market_snapshot_query latest_trusted_market_snapshot trusted_eod_query
    trusted_client_type_query bar_is_trusted client_row_is_trusted healthy_fundamental_receipts
scan_ends = refl

scan-IsFound_example : All (IsFound scan_input (held ∷ [])) found_there
scan-IsFound_example = scan-IsFound scan_input (held ∷ []) scan_ends
