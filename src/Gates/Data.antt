-- ===== src/Gates/Data.antt =====
-- `evaluate_data_gate` of services/collector/quality.py.
use iran_market_radar.Base.{
  ℕ, ◌-◌, ◌/◌, ◌&&◌, Bool, true, false, not, Option, none, some, List, [], ◌∷◌, ◌++◌, map, length,
  ltb, ◌==◌, if◌then◌else◌, find, keep, is_some,
}
use iran_market_radar.Domain.{Instrument, MarketSnapshot, MarketDataBatch}
use iran_market_radar.Trusted.{is_trusted, latest}
use iran_market_radar.Gates.{
  DataSourceReceipt, market_watch, same_receipt_key, fundamental_independence_key, count_distinct,
  healthy_fundamental_receipts,
}

pub data BlockReason : Type 0 where
  not_official fixtures_present no_snapshot stale_snapshot no_receipt no_batch : BlockReason
  few_sources market_closed : BlockReason

-- What the gate reads. `is_fixture` is `source_instrument_code LIKE 'INS\_%'`, and `market_open` the
-- answer of `is_tse_market_open()`.
pub record GateInput (F : Type 0) : Type 0 where
  pub now : ℕ
  pub official_mode : Bool
  pub critical_market_stale_seconds : ℕ
  pub fundamental_receipt_stale : ℕ
  pub minimum_fundamental_sources : ℕ
  pub is_fixture : Instrument → Bool
  pub instruments : List Instrument
  pub batches : List MarketDataBatch
  pub snapshots : List (MarketSnapshot F)
  pub receipts : List DataSourceReceipt
  pub market_open : Bool

pub record DataGateDecision : Type 0 where
  pub allowed : Bool
  pub reasons : List BlockReason
  pub market_age_seconds : Option ℕ
  pub official_fundamental_sources : ℕ
  pub fixture_instruments : ℕ

-- `if condition: reasons.append(reason)`.
abbrev pub reason_if : Bool → BlockReason → List BlockReason
reason_if c r = if c then r ∷ [] else []

-- `max(0, int((now - t).total_seconds()))`.
abbrev pub age_seconds : ℕ → ℕ → ℕ
age_seconds now t = (now - t) / 1_000_000

abbrev pub no_reason : List BlockReason → Bool
no_reason [] = true
no_reason (r ∷ rs) = false

-- `db.get(MarketDataBatch, batch_id)`.
abbrev pub batch_by_id : List MarketDataBatch → Option ℕ → Option MarketDataBatch
batch_by_id batches none = none
batch_by_id batches (some id) = find (λ b. b.id == id) batches

unfoldable pub receipt_is_usable : Option DataSourceReceipt → Bool
receipt_is_usable none = false
receipt_is_usable (some r) = r.is_healthy && r.is_official

module _ {F : Type 0} where
  abbrev pub fixtures : GateInput F → ℕ
  fixtures g = length (keep (λ i. i.is_active && g.is_fixture i) g.instruments)

  abbrev pub newest_snapshot : GateInput F → Option (MarketSnapshot F)
  newest_snapshot g = latest (λ s. s.source_timestamp) (keep (is_trusted g.batches) g.snapshots)

  unfoldable pub snapshot_reasons : GateInput F → Option (MarketSnapshot F) → List BlockReason
  snapshot_reasons g none = no_snapshot ∷ []
  snapshot_reasons g (some s) =
      reason_if (ltb g.critical_market_stale_seconds (age_seconds g.now s.source_timestamp))
        stale_snapshot

  unfoldable pub batch_reasons : GateInput F → Option (MarketSnapshot F) → List BlockReason
  batch_reasons g none = []
  batch_reasons g (some s) = reason_if (not (is_some (batch_by_id g.batches s.batch_id))) no_batch

  abbrev pub independent_sources : GateInput F → ℕ
  independent_sources g = count_distinct (
      map fundamental_independence_key
        (healthy_fundamental_receipts g.receipts g.fundamental_receipt_stale g.now))

  abbrev pub watch_receipt : GateInput F → Option DataSourceReceipt
  watch_receipt g = find (λ r. same_receipt_key r.source_key market_watch) g.receipts

  -- `require` is `require_market_open`.
  unfoldable pub gate_reasons : GateInput F → Bool → List BlockReason
  gate_reasons g require =
      reason_if (not g.official_mode) not_official
      ++ (reason_if (ltb 0 (fixtures g)) fixtures_present
          ++ (snapshot_reasons g (newest_snapshot g)
              ++ (reason_if (not (receipt_is_usable (watch_receipt g))) no_receipt
                  ++ (batch_reasons g (newest_snapshot g)
                      ++ (reason_if (ltb (independent_sources g) g.minimum_fundamental_sources)
                            few_sources
                          ++ reason_if (require && not g.market_open) market_closed)))))

  abbrev pub age_of : GateInput F → Option (MarketSnapshot F) → Option ℕ
  age_of g none = none
  age_of g (some s) = some (age_seconds g.now s.source_timestamp)

  unfoldable pub evaluate_data_gate : GateInput F → Bool → DataGateDecision
  evaluate_data_gate g require = record {
    allowed = no_reason (gate_reasons g require);
    reasons = gate_reasons g require;
    market_age_seconds = age_of g (newest_snapshot g);
    official_fundamental_sources = independent_sources g;
    fixture_instruments = fixtures g;
  }
