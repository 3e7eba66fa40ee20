-- ===== src/Trader/Scan.antt =====
-- `AutoPaperTrader.run_cycle`, step 3: the symbols without an open position are scored, ranked and
-- assembled into signals, of which the actionable ones are the opportunities. `quality.py` gives the
-- quality of a symbol's data.
use iran_market_radar.Base.{
  ℕ, ◌&&◌, ◌||◌, Bool, Option, none, some, List, [], ◌∷◌, ◌++◌, map, length, ltb, ◌==◌,
  if◌then◌else◌, keep, exists_in,
}
use iran_market_radar.Float.{Float, ◌⊕◌, ◌⊗◌, ◌⊘◌, ◌≤f◌, ◌<f◌, of_nat, fmin}
use iran_market_radar.Domain.{
  Position, Instrument, MarketSnapshot, MarketDataBatch, Regime, other_regime,
}
use iran_market_radar.Domain.History.{EodBar, ClientTypeSnapshot}
use iran_market_radar.Regime.{RegimeLabel, risk_on, risk_off, distribution, neutral}
use iran_market_radar.Trusted.{latest_trusted_market_snapshot}
use iran_market_radar.Trusted.History.{trusted_eod_query, trusted_client_type_query}
use iran_market_radar.Gates.Fundamental.{FundamentalInput}
use iran_market_radar.Strategies
use iran_market_radar.Strategies.{Sector, Feature}
use iran_market_radar.Strategies.Registry.{evaluate_all, default_strategies}
use iran_market_radar.Scorer
use iran_market_radar.Scorer.{GateSettings, Calibrator, Published}
use iran_market_radar.Trader.Manage.{distinct_dates}
use iran_market_radar.Trader.Entries.{Opportunity}

-- The features of a symbol: those of the strategies, and the turnover that the scorer reads.
pub record SymbolFeatures (F : Type 0) : Type 0 where
  pub features : Feature → Option F
  pub avg_turnover_20d : Option F

-- What step 3 reads: `regime` is the classified regime, if there is evidence for it, and
-- `name_signal` numbers the identifier that is made of a symbol and a time. The least history is
-- positive.
pub record ScanInput (F : Type 0) : Type 0 where
  pub instruments : List Instrument
  pub batches : List MarketDataBatch
  pub bars : List (EodBar F)
  pub clients : List (ClientTypeSnapshot F)
  pub snapshots : List (MarketSnapshot F)
  pub now : ℕ
  pub stale : ℕ
  pub min_history_sessions : ℕ
  pub compute_symbol_features : List (EodBar F) → List (ClientTypeSnapshot F) → SymbolFeatures F
  pub regime : Option RegimeLabel
  pub sector_of : ℕ → Option ℕ
  pub sector_kind : ℕ → Sector
  pub settings : GateSettings F
  pub calibrator : Calibrator F
  pub fundamental : FundamentalInput F
  pub name_signal : ℕ → ℕ → ℕ

-- A symbol with candidates.
pub record Scanned (F : Type 0) : Type 0 where
  pub instrument : Instrument
  pub features : SymbolFeatures F
  pub allowed_min : F
  pub allowed_max : F
  pub candidates : List (iran_market_radar.Strategies.CandidateResult F)
  pub data_quality : F
  pub sample_support : F

pub data ScanResult (F : Type 0) : Type 0 where
  scan_raised no_regime_evidence : ScanResult F
  scanned : List (Opportunity F) → ScanResult F

abbrev pub regime_of : RegimeLabel → Regime
regime_of risk_on = Regime.risk_on
regime_of risk_off = Regime.risk_off
regime_of distribution = other_regime
regime_of neutral = Regime.neutral

abbrev pub scored_regime : RegimeLabel → iran_market_radar.Scorer.MarketRegime
scored_regime risk_on = iran_market_radar.Scorer.MarketRegime.risk_on
scored_regime neutral = iran_market_radar.Scorer.MarketRegime.neutral
scored_regime risk_off = iran_market_radar.Scorer.MarketRegime.other
scored_regime distribution = iran_market_radar.Scorer.MarketRegime.other

module _ {F : Type 0} ⦃fl : Float F⦄ where
  abbrev pub is_valid_bar : EodBar F → Bool
  is_valid_bar b =
      (of_nat 0 <f fmin (fmin (fmin (fmin b.open_price b.high) b.low) b.close) b.last)
      && (b.low ≤f b.high)
      && (of_nat 0 ≤f b.value)

  -- The dates of the bars are those that the client rows are to cover.
  unfoldable pub instrument_data_quality_score :
      ℕ → List (EodBar F) → List (ClientTypeSnapshot F) → F
  instrument_data_quality_score required bars clients =
      let count = length bars in
      let dates = distinct_dates (map (λ b. b.trading_date) bars) in
      let covered =
        distinct_dates
          (keep (λ d. exists_in (λ x. x == d) dates) (map (λ c. c.trading_date) clients)) in
      if count == 0
      then of_nat 0
      else fl.round 1 (
          of_nat 100
          ⊗ (fl.dec 50 2
                ⊗ fmin (of_nat 1) (of_nat count ⊘ of_nat (if ltb required 1 then 1 else required))
              ⊕ fl.dec 30 2 ⊗ (of_nat (length (keep is_valid_bar bars)) ⊘ of_nat count)
              ⊕ fl.dec 20 2 ⊗ (of_nat (length covered) ⊘ of_nat (length dates))))

  abbrev pub is_held : List (Position F) → Instrument → Bool
  is_held positions i = exists_in (λ p. p.symbol == i.ticker && p.is_open) positions

  abbrev pub context_of :
      ScanInput F
      → RegimeLabel
      → Instrument
      → SymbolFeatures F
      → iran_market_radar.Strategies.StrategyContext F
  context_of s regime i f = record {
    sector_name = elim (s.sector_of i.id) [ none ↦ none | some n ↦ some (s.sector_kind n) ];
    horizon = iran_market_radar.Strategies.days_5;
    features = f.features;
    market_regime = regime;
  }

  -- The candidates of a symbol join the pending ones, if there are any.
  abbrev pub pending_if :
      ScanInput F
      → Instrument
      → List (EodBar F)
      → List (ClientTypeSnapshot F)
      → MarketSnapshot F
      → Option (List (iran_market_radar.Strategies.CandidateResult F))
      → Option (List (Scanned F))
  pending_if s i bars clients snapshot none = none
  pending_if s i bars clients snapshot (some []) = some []
  pending_if s i bars clients snapshot (some (c ∷ cs)) = some (
      record {
        instrument = i;
        features = s.compute_symbol_features bars clients;
        allowed_min = snapshot.allowed_min;
        allowed_max = snapshot.allowed_max;
        candidates = c ∷ cs;
        data_quality = instrument_data_quality_score s.min_history_sessions bars clients;
        sample_support =
            fmin (of_nat 100) (of_nat (length bars) ⊘ of_nat s.min_history_sessions ⊗ of_nat 100);
      }
      ∷ [])

  -- What the strategies answer for a symbol with a snapshot.
  unfoldable pub scan_at :
      ScanInput F
      → RegimeLabel
      → Instrument
      → List (EodBar F)
      → List (ClientTypeSnapshot F)
      → MarketSnapshot F
      → Option (List (Scanned F))
  scan_at s regime i bars clients snapshot = pending_if s i bars clients snapshot (
      evaluate_all default_strategies
        (context_of s regime i (s.compute_symbol_features bars clients)))

  -- The limits of the snapshot, which a signal needs.
  abbrev pub with_limits : MarketSnapshot F → Option (List (Scanned F)) → Option (List (Scanned F))
  with_limits snapshot answer =
      if (snapshot.allowed_min ≤f of_nat 0) || (snapshot.allowed_max ≤f of_nat 0)
      then some []
      else answer

  -- One symbol: nothing where the loop goes on to the next one, and `none` for an exception.
  unfoldable pub scan_symbol :
      ScanInput F → RegimeLabel → List (Position F) → Instrument → Option (List (Scanned F))
  scan_symbol s regime positions i =
      let bars = trusted_eod_query s.batches s.bars i.id in
      let clients = trusted_client_type_query s.batches s.clients i.id in
      if ltb (length bars) s.min_history_sessions
      then some []
      else if is_held positions i
      then some []
      else elim (latest_trusted_market_snapshot s.batches s.snapshots s.now s.stale i.id) [
        | none ↦ some []
        | some snapshot ↦ with_limits snapshot (scan_at s regime i bars clients snapshot)
      ]

  abbrev pub join_scans :
      Option (List (Scanned F)) → Option (List (Scanned F)) → Option (List (Scanned F))
  join_scans none rest = none
  join_scans (some xs) none = none
  join_scans (some xs) (some ys) = some (xs ++ ys)

  unfoldable pub scan_symbols :
      ScanInput F → RegimeLabel → List (Position F) → List Instrument → Option (List (Scanned F))
  scan_symbols s regime positions [] = some []
  scan_symbols s regime positions (i ∷ is) =
      join_scans (scan_symbol s regime positions i) (scan_symbols s regime positions is)
