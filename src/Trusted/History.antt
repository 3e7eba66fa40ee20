-- ===== src/Trusted/History.antt =====
-- services/collector/trusted_queries.py: the daily bars and client types that decisions may use.
use iran_market_radar.Base.{
  ℕ, Bool, true, false, ◌&&◌, Option, none, some, List, [], ◌∷◌, ◌==◌, leb, if◌then◌else◌, keep,
  exists_in,
}
use iran_market_radar.Domain.{MarketDataBatch, SourceKey, cdn_history, SchemaVersion, history_v1}
use iran_market_radar.Domain.History.{EodBar, ClientTypeSnapshot}
use iran_market_radar.Trusted.{is_official_direct}

abbrev pub is_history : SourceKey → Bool
is_history cdn_history = true
is_history _ = false

abbrev pub is_history_v1 : SchemaVersion → Bool
is_history_v1 history_v1 = true
is_history_v1 _ = false

abbrev pub history_batch_is_trusted : MarketDataBatch → Bool
history_batch_is_trusted b =
    is_history b.source_key
    && is_history_v1 b.schema_version
    && b.complete
    && b.trade_eligible
    && is_official_direct b.trust_tier

abbrev pub has_history_batch : List MarketDataBatch → Option ℕ → Bool
has_history_batch batches none = false
has_history_batch batches (some id) =
    exists_in (λ b. b.id == id && history_batch_is_trusted b) batches

module _ {F : Type 0} where
  -- `trusted_eod_base_query`.
  unfoldable pub bar_is_trusted : List MarketDataBatch → EodBar F → Bool
  bar_is_trusted batches b =
      is_history b.source_key
      && b.trade_eligible
      && is_official_direct b.trust_tier
      && has_history_batch batches b.batch_id

  -- `trusted_client_type_base_query`.
  unfoldable pub client_row_is_trusted : List MarketDataBatch → ClientTypeSnapshot F → Bool
  client_row_is_trusted batches c =
      is_history c.source_key
      && c.trade_eligible
      && is_official_direct c.trust_tier
      && has_history_batch batches c.batch_id

  -- `.order_by(trading_date.asc())`.
  abbrev pub insert_by_date : EodBar F → List (EodBar F) → List (EodBar F)
  insert_by_date b [] = b ∷ []
  insert_by_date b (x ∷ xs) =
      if leb b.trading_date x.trading_date then b ∷ x ∷ xs else x ∷ insert_by_date b xs

  abbrev pub sort_by_date : List (EodBar F) → List (EodBar F)
  sort_by_date [] = []
  sort_by_date (b ∷ bs) = insert_by_date b (sort_by_date bs)

  abbrev pub insert_client_by_date :
      ClientTypeSnapshot F → List (ClientTypeSnapshot F) → List (ClientTypeSnapshot F)
  insert_client_by_date c [] = c ∷ []
  insert_client_by_date c (x ∷ xs) =
      if leb c.trading_date x.trading_date then c ∷ x ∷ xs else x ∷ insert_client_by_date c xs

  abbrev pub sort_clients_by_date : List (ClientTypeSnapshot F) → List (ClientTypeSnapshot F)
  sort_clients_by_date [] = []
  sort_clients_by_date (c ∷ cs) = insert_client_by_date c (sort_clients_by_date cs)

  unfoldable pub trusted_eod_query : List MarketDataBatch → List (EodBar F) → ℕ → List (EodBar F)
  trusted_eod_query batches bars instrument =
      sort_by_date (keep (λ b. bar_is_trusted batches b && b.instrument_id == instrument) bars)

  unfoldable pub trusted_client_type_query :
      List MarketDataBatch → List (ClientTypeSnapshot F) → ℕ → List (ClientTypeSnapshot F)
  trusted_client_type_query batches rows instrument =
      sort_clients_by_date
        (keep (λ c. client_row_is_trusted batches c && c.instrument_id == instrument) rows)
