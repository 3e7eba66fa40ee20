-- ===== src/Trusted.antt =====
-- services/collector/trusted_queries.py: the snapshots that decisions and fills may use. A table is
-- a list of rows; times are microseconds.
pub mod Freshness
pub mod History
mod Tests
use iran_market_radar.Base.{
  ℕ, zero, suc, ◌+◌, ◌*◌, Bool, true, false, ◌&&◌, Option, none, some, List, [], ◌∷◌, leb, ltb,
  ◌==◌, if◌then◌else◌, keep, exists_in,
}
use iran_market_radar.Domain.{
  MarketSnapshot, MarketDataBatch, SourceKey, cdn_market_watch, cdn_history, other_source,
  SchemaVersion, market_watch_v1, history_v1, other_schema, TrustTier, official_direct, other_tier,
}

abbrev pub is_market_watch : SourceKey → Bool
is_market_watch cdn_market_watch = true
is_market_watch _ = false

abbrev pub is_market_watch_v1 : SchemaVersion → Bool
is_market_watch_v1 market_watch_v1 = true
is_market_watch_v1 _ = false

abbrev pub is_official_direct : TrustTier → Bool
is_official_direct official_direct = true
is_official_direct other_tier = false

-- `.order_by(key.asc()).first()` and `.order_by(key.desc()).first()`.
module _ {ℓ} {A : Type ℓ} (key : A → ℕ) where
  abbrev pub first_of_two : A → Option A → A
  first_of_two x none = x
  first_of_two x (some y) = if leb (key x) (key y) then x else y

  abbrev pub last_of_two : A → Option A → A
  last_of_two x none = x
  last_of_two x (some y) = if leb (key y) (key x) then x else y

  abbrev pub earliest : List A → Option A
  earliest [] = none
  earliest (x ∷ xs) = some (first_of_two x (earliest xs))

  abbrev pub latest : List A → Option A
  latest [] = none
  latest (x ∷ xs) = some (last_of_two x (latest xs))

-- The condition on the joined batch.
abbrev pub batch_is_trusted : MarketDataBatch → Bool
batch_is_trusted b =
    is_market_watch b.source_key
    && is_market_watch_v1 b.schema_version
    && b.complete
    && b.trade_eligible
    && is_official_direct b.trust_tier

abbrev pub has_trusted_batch : List MarketDataBatch → Option ℕ → Bool
has_trusted_batch batches none = false
has_trusted_batch batches (some id) = exists_in (λ b. b.id == id && batch_is_trusted b) batches

module _ {F : Type 0} where
  unfoldable pub is_trusted : List MarketDataBatch → MarketSnapshot F → Bool
  is_trusted batches s =
      is_market_watch s.source_key
      && s.trade_eligible
      && is_official_direct s.trust_tier
      && has_trusted_batch batches s.batch_id

  -- `trusted_market_snapshot_query(db, instrument_id)`.
  unfoldable pub trusted_market_snapshot_query :
      List MarketDataBatch → List (MarketSnapshot F) → ℕ → List (MarketSnapshot F)
  trusted_market_snapshot_query batches snapshots instrument =
      keep (λ s. is_trusted batches s && s.instrument_id == instrument) snapshots

  abbrev time_of : MarketSnapshot F → ℕ
  time_of s = s.source_timestamp

  -- The filter `source_timestamp >= now - max_age`, and the check of the age of the snapshot found:
  -- `0 <= age <= max_age_seconds`.
  abbrev pub not_older : ℕ → ℕ → MarketSnapshot F → Bool
  not_older now max_age s = leb now (s.source_timestamp + max_age)

  abbrev pub checked_age : ℕ → ℕ → Option (MarketSnapshot F) → Option (MarketSnapshot F)
  checked_age now max_age none = none
  checked_age now max_age (some s) =
      if leb s.source_timestamp now && not_older now max_age s then some s else none

  -- With `after`: the first snapshot later than it. `max_age` is in microseconds.
  unfoldable pub latest_trusted_market_snapshot_after :
      List MarketDataBatch → List (MarketSnapshot F) → ℕ → ℕ → ℕ → ℕ → Option (MarketSnapshot F)
  latest_trusted_market_snapshot_after batches snapshots now max_age instrument after =
      checked_age now max_age (
        earliest time_of (
          keep (λ s. not_older now max_age s && ltb after s.source_timestamp)
            (trusted_market_snapshot_query batches snapshots instrument)))

  -- Without `after`: the newest snapshot.
  unfoldable pub latest_trusted_market_snapshot :
      List MarketDataBatch → List (MarketSnapshot F) → ℕ → ℕ → ℕ → Option (MarketSnapshot F)
  latest_trusted_market_snapshot batches snapshots now max_age instrument =
      checked_age now max_age (
        latest time_of (
          keep (not_older now max_age)
            (trusted_market_snapshot_query batches snapshots instrument)))

  -- `.filter(source_timestamp <= after).order_by(desc).first()` of the trusted snapshots.
  unfoldable pub previous_trusted_snapshot :
      List MarketDataBatch → List (MarketSnapshot F) → ℕ → ℕ → Option (MarketSnapshot F)
  previous_trusted_snapshot batches snapshots instrument after = latest time_of (
      keep (λ s. leb s.source_timestamp after)
        (trusted_market_snapshot_query batches snapshots instrument))
