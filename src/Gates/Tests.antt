-- ===== src/Gates/Tests.antt =====
-- Both gates on data that passes, and on data that does not.
use iran_market_radar.Base.{◌≡◌, ◌↔◌, refl, true, false, none, some, [], ◌∷◌}
use iran_market_radar.Base.Int.{pos}
use iran_market_radar.Float.Fixed.{Fixed, fixed_float}
use iran_market_radar.Domain.{
  MarketSnapshot, MarketDataBatch, cdn_market_watch, market_watch_v1, official_direct,
}
use iran_market_radar.Trusted.{is_trusted}
use iran_market_radar.Gates.{
  DataSourceReceipt, market_watch, codal_disclosures, other_key, healthy_fundamental_receipts,
}
use iran_market_radar.Gates.Data.{
  GateInput, stale_snapshot, market_closed, snapshot_reasons, batch_reasons, receipt_is_usable,
  gate_reasons, evaluate_data_gate,
}
use iran_market_radar.Gates.Fundamental.{
  FundamentalSnapshot, Filing, FundamentalInput, filing_reasons, number_reasons, source_reasons,
  evaluate_snapshot, evaluate_fundamental_gate,
}
use iran_market_radar.Gates.Passing.{IsReady, evaluate_data_gate-allowed}

abbrev batch : MarketDataBatch
batch = record {
  id = 1;
  source_key = cdn_market_watch;
  schema_version = market_watch_v1;
  complete = true;
  trade_eligible = true;
  trust_tier = official_direct;
}

abbrev snapshot : MarketSnapshot Fixed
snapshot = record {
  instrument_id = 1;
  source_timestamp = 40_000_000;
  last_price = pos 1_000_000_000;
  volume = 100;
  allowed_min = pos 950_000_000;
  allowed_max = pos 1_050_000_000;
  source_key = cdn_market_watch;
  batch_id = some 1;
  trust_tier = official_direct;
  trade_eligible = true;
}

abbrev watch : DataSourceReceipt
watch = record {
  source_key = market_watch;
  is_fundamental = false;
  is_healthy = true;
  is_official = true;
  last_success_at = some 90_000_000;
  independence_key = none;
  upstream_family = none;
  provider_name = 7;
}

abbrev codal : DataSourceReceipt
codal = record watch { source_key = codal_disclosures; is_fundamental = true; provider_name = 8 }

abbrev second_source : DataSourceReceipt
second_source = record codal { source_key = other_key 3; upstream_family = some 9 }

abbrev pub state : GateInput Fixed
state = record {
  now = 100_000_000;
  official_mode = true;
  critical_market_stale_seconds = 60;
  fundamental_receipt_stale = 86_400_000_000;
  minimum_fundamental_sources = 2;
  is_fixture = λ i. false;
  instruments = [];
  batches = batch ∷ [];
  snapshots = snapshot ∷ [];
  receipts = watch ∷ codal ∷ second_source ∷ [];
  market_open = true;
}

opens : (evaluate_data_gate state true).allowed ≡ true
unfolding evaluate_data_gate gate_reasons snapshot_reasons batch_reasons receipt_is_usable
    is_trusted healthy_fundamental_receipts
opens = refl

closes :
    (evaluate_data_gate (record state { now = 101_000_001; market_open = false }) true).reasons
    ≡ stale_snapshot ∷ market_closed ∷ []
unfolding evaluate_data_gate gate_reasons snapshot_reasons batch_reasons receipt_is_usable
    is_trusted healthy_fundamental_receipts
closes = refl

-- A snapshot of the future counts as fresh.
opens_on_the_future :
    (evaluate_data_gate
      (record state {
        now = 5_000_000;
        receipts =
            watch
            ∷ record codal { last_success_at = some 0 }
            ∷ record second_source { last_success_at = some 0 }
            ∷ [];
      })
      true).allowed
    ≡ true
unfolding evaluate_data_gate gate_reasons snapshot_reasons batch_reasons receipt_is_usable
    is_trusted healthy_fundamental_receipts
opens_on_the_future = refl

evaluate_data_gate-allowed_example :
    ((evaluate_data_gate state true).allowed ≡ true) ↔ IsReady state true
evaluate_data_gate-allowed_example = evaluate_data_gate-allowed state true

abbrev pub numbers : FundamentalSnapshot Fixed
numbers = record {
  instrument_id = 1;
  as_of = 50_000_000;
  fundamental_score = pos 70_000_000;
  piotroski_f_score = 6;
  monthly_sales_growth_yoy = pos 12_000_000;
  debt_to_equity = pos 1_000_000;
  source_keys = codal_disclosures ∷ other_key 3 ∷ codal_disclosures ∷ [];
}

abbrev pub filing : Filing Fixed
filing = record {
  instrument_id = 1;
  symbol = 4;
  published_at = 60_000_000;
  from_codal = true;
  is_negative = true;
  impact_score = pos 6_000_000;
}

abbrev pub evidence : FundamentalInput Fixed
evidence = record {
  minimum_fundamental_sources = 2;
  fundamental_receipt_stale = 86_400_000_000;
  receipts = watch ∷ codal ∷ second_source ∷ [];
  snapshots = numbers ∷ [];
  filings = filing ∷ [];
}

-- Before the disclosure was published there is nothing to go by.
too_early : (evaluate_fundamental_gate evidence 1 4 55_000_000).passed ≡ false
unfolding evaluate_fundamental_gate evaluate_snapshot source_reasons number_reasons filing_reasons
    healthy_fundamental_receipts
too_early = refl
