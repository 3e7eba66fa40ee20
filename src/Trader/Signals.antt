-- ===== src/Trader/Signals.antt =====
-- `AutoPaperTrader.run_cycle`, step 3: the scanned symbols are ranked and assembled into signals, of
-- which the actionable ones are the opportunities.
use iran_market_radar.Base.{
  ℕ, ◌+◌, ◌*◌, Option, none, some, List, [], ◌∷◌, ◌++◌, map, length, ltb, if◌then◌else◌, keep,
}
use iran_market_radar.Float.{Float, ◌⊖◌, ◌⊗◌, ◌⊘◌, ◌≤f◌, ◌<f◌, of_nat, fmax}
use iran_market_radar.Domain.{Position, PublishedSignal, Instrument}
use iran_market_radar.Regime.{RegimeLabel}
use iran_market_radar.Gates.Fundamental.{evaluate_fundamental_gate}
use iran_market_radar.Strategies
use iran_market_radar.Strategies.{Sector, Feature}
use iran_market_radar.Scorer
use iran_market_radar.Scorer.{GateSettings, Calibrator, Published}
use iran_market_radar.Scorer.Assemble.{assemble_published_signal}
use iran_market_radar.Trader.Entries.{Opportunity}
use iran_market_radar.Trader.Scan.{
  scan_raised, no_regime_evidence, scanned, ScanInput, ScanResult, Scanned, regime_of, scan_symbols,
  scored_regime,
}

module _ {F : Type 0} ⦃fl : Float F⦄ where
  abbrev pub best_vote : F → List (iran_market_radar.Strategies.CandidateResult F) → F
  best_vote best [] = best
  best_vote best (c ∷ cs) = best_vote (fmax best c.vote) cs

  abbrev pub top_vote : Scanned F → F
  top_vote x = elim x.candidates [ [] ↦ of_nat 0 | c ∷ cs ↦ best_vote c.vote cs ]

  -- `sort(key=max vote, reverse=True)`, which keeps the order of equals.
  abbrev pub insert_by_vote : Scanned F → List (Scanned F) → List (Scanned F)
  insert_by_vote x [] = x ∷ []
  insert_by_vote x (y ∷ ys) =
      if top_vote y ≤f top_vote x then x ∷ y ∷ ys else y ∷ insert_by_vote x ys

  abbrev pub sort_by_vote : List (Scanned F) → List (Scanned F)
  sort_by_vote [] = []
  sort_by_vote (x ∷ xs) = insert_by_vote x (sort_by_vote xs)

  abbrev pub rank_pct : ℕ → ℕ → F
  rank_pct index count =
      of_nat 100 ⊖ of_nat index ⊘ of_nat (if ltb count 1 then 1 else count) ⊗ of_nat 100

  abbrev pub scored :
      iran_market_radar.Strategies.CandidateResult F → iran_market_radar.Scorer.CandidateResult F
  scored c = record { family = c.family; vote = c.vote; risk_flags = c.risk_flags }

  abbrev pub evidence_of :
      ScanInput F → Instrument → iran_market_radar.Scorer.FundamentalGateEvidence F
  evidence_of s i =
      let e = evaluate_fundamental_gate s.fundamental i.id i.ticker s.now in
      record { passed = e.passed; score = e.score; reasons = length e.reasons }

  -- `assemble_published_signal` at a rank.
  unfoldable pub publish : ScanInput F → RegimeLabel → ℕ → ℕ → Scanned F → Option (Published F)
  publish s regime index count x =
      assemble_published_signal s.settings
        (record {
          close = x.features.features Feature.close;
          avg_turnover_20d = x.features.avg_turnover_20d;
          allowed_min = x.allowed_min;
          allowed_max = x.allowed_max;
          market_regime = scored_regime regime;
        })
        (map scored x.candidates) s.calibrator (rank_pct index count) x.data_quality
        x.sample_support (some (evidence_of s x.instrument))

  -- `max(candidates, key=vote)`, the first of equals.
  abbrev pub primary_from :
      iran_market_radar.Strategies.CandidateResult F
      → List (iran_market_radar.Strategies.CandidateResult F)
      → iran_market_radar.Strategies.CandidateResult F
  primary_from best [] = best
  primary_from best (c ∷ cs) =
      if best.vote <f c.vote then primary_from c cs else primary_from best cs

  -- The signal with the plan of the primary candidate; it expires after five days, and the texts
  -- among its risk flags are left out.
  unfoldable pub signal_of : ScanInput F → RegimeLabel → Scanned F → Published F → PublishedSignal F
  signal_of s regime x p = record {
    id = s.name_signal x.instrument.ticker s.now;
    symbol = x.instrument.ticker;
    actionable = p.actionable;
    expires_at = some (s.now + 5 * 86_400_000_000);
    entry_low = elim x.candidates [ [] ↦ none | c ∷ cs ↦ some (primary_from c cs).entry_low ];
    invalidation_price = elim x.candidates [
      | [] ↦ none
      | c ∷ cs ↦ some (primary_from c cs).stop_price
    ];
    targets = elim x.candidates [ [] ↦ none | c ∷ cs ↦ some (primary_from c cs).target_prices ];
    sector = s.sector_of x.instrument.id;
    regime = regime_of regime;
    time_stop_sessions = elim x.candidates [
      | [] ↦ 0
      | c ∷ cs ↦ (primary_from c cs).time_stop_sessions
    ];
    risk_flags = [];
  }

  abbrev pub opportunity_if :
      ScanInput F → RegimeLabel → Scanned F → Option (Published F) → List (Opportunity F)
  opportunity_if s regime x none = []
  opportunity_if s regime x (some p) =
      if p.actionable
      then record {
        signal = signal_of s regime x p;
        instrument_id = x.instrument.id;
        opportunity_score = p.opportunity_score;
      }
        ∷ []
      else []

  -- The loop over the ranked symbols, `count` in all.
  unfoldable pub assemble_all :
      ScanInput F → RegimeLabel → ℕ → ℕ → List (Scanned F) → List (Opportunity F)
  assemble_all s regime count index [] = []
  assemble_all s regime count index (x ∷ xs) =
      opportunity_if s regime x (publish s regime index count x)
      ++ assemble_all s regime count (index + 1) xs

  abbrev pub ranked : ScanInput F → RegimeLabel → Option (List (Scanned F)) → ScanResult F
  ranked s regime none = scan_raised
  ranked s regime (some xs) = scanned (assemble_all s regime (length xs) 0 (sort_by_vote xs))

  -- Step 3.
  unfoldable pub scan : ScanInput F → List (Position F) → ScanResult F
  scan s positions = elim s.regime [
    | none ↦ no_regime_evidence
    | some regime ↦
        ranked s regime (scan_symbols s regime positions (keep (λ i. i.is_active) s.instruments))
  ]
