-- ===== src/Trusted/Tests.antt =====
-- The trusted queries on two snapshots, of which the later one is fresh.
use iran_market_radar.Base.{ℕ, ◌+◌, ◌≤◌, ◌<◌, ◌≡◌, refl, true, List, [], ◌∷◌, some}
use iran_market_radar.Domain.{
  MarketSnapshot, MarketDataBatch, cdn_market_watch, market_watch_v1, official_direct,
}
use iran_market_radar.Trusted.{
  is_trusted, trusted_market_snapshot_query, latest_trusted_market_snapshot_after,
}
use iran_market_radar.Trusted.Freshness.{latest_trusted_market_snapshot_after-fresh}

abbrev batches : List MarketDataBatch
batches =
    record {
      id = 1;
      source_key = cdn_market_watch;
      schema_version = market_watch_v1;
      complete = true;
      trade_eligible = true;
      trust_tier = official_direct;
    }
    ∷ []

abbrev snapshot_at : ℕ → MarketSnapshot ℕ
snapshot_at time = record {
  instrument_id = 3;
  source_timestamp = time;
  last_price = 5000;
  volume = 100;
  allowed_min = 4800;
  allowed_max = 5200;
  source_key = cdn_market_watch;
  batch_id = some 1;
  trust_tier = official_direct;
  trade_eligible = true;
}

abbrev snapshots : List (MarketSnapshot ℕ)
snapshots = snapshot_at 40 ∷ snapshot_at 90 ∷ []

found : latest_trusted_market_snapshot_after batches snapshots 100 60 3 40 ≡ some (snapshot_at 90)
unfolding latest_trusted_market_snapshot_after trusted_market_snapshot_query is_trusted
found = refl

latest_trusted_market_snapshot_after-fresh_example :
    (is_trusted batches (snapshot_at 90) ≡ true)
    × ((snapshot_at 90).instrument_id ≡ 3)
    × (40 < 90)
    × (90 ≤ 100)
    × (100 ≤ 90 + 60)
latest_trusted_market_snapshot_after-fresh_example =
    latest_trusted_market_snapshot_after-fresh batches snapshots 100 60 3 40 found
