-- ===== src/Scorer/Tests.antt =====
-- Five candidates of four families, one of which is composite, under the default settings.
use iran_market_radar.Base.{ℕ, ◌*◌, ◌≡◌, ◌≢◌, refl, true, Option, some, List, [], ◌∷◌, length, All}
use iran_market_radar.Base.Int.{pos}
use iran_market_radar.Float.Fixed.{Fixed, fixed_float}
use iran_market_radar.Scorer.{
  Family, composite, named, CandidateResult, GateSettings, Calibrator, FundamentalGateEvidence,
  StrategyContext, risk_on, c, Published,
}
use iran_market_radar.Scorer.Votes.{
  add_vote, family_votes, qualifying_families, technical_gate_passed, bullish_strategy_count,
  raw_ensemble_score,
}
use iran_market_radar.Scorer.Assemble.{
  evaluate_execution_feasibility, publication_gate, confidence_of, opportunity_of, liquidity_of,
  assemble_at, assemble_published_signal,
}
use iran_market_radar.Scorer.Families.{Distinct, Source, qualifying_families-Distinct}
use iran_market_radar.Scorer.Gate.{IsTradable, assemble_published_signal-IsTradable}

-- A number of hundredths.
abbrev cents : ℕ → Fixed
cents n = pos (n * 10_000)

abbrev settings : GateSettings Fixed
settings = record {
  min_family_vote = cents 60;
  min_independent_technical_families = 3;
  min_bullish_strategies = 4;
  min_data_quality_score = cents 8500;
  min_liquidity_score = cents 6000;
  min_opportunity_score = cents 7000;
  min_confidence = cents 5500;
}

abbrev candidate : Family → ℕ → CandidateResult Fixed
candidate family vote = record { family = family; vote = cents vote; risk_flags = 0 }

abbrev candidates : List (CandidateResult Fixed)
candidates =
    candidate (named 1) 80
    ∷ candidate (named 1) 70
    ∷ candidate (named 2) 90
    ∷ candidate (named 3) 85
    ∷ candidate composite 95
    ∷ []

three_families : length (qualifying_families settings candidates) ≡ 3
unfolding qualifying_families family_votes add_vote
three_families = refl

qualifying_families-Distinct_example :
    Distinct (qualifying_families settings candidates)
    × All
        (λ q.
          (fixed_float.le settings.min_family_vote q.vote ≡ true)
          × Source candidates q.family q.vote)
        (qualifying_families settings candidates)
qualifying_families-Distinct_example = qualifying_families-Distinct settings candidates

abbrev context : StrategyContext Fixed
context = record {
  close = some (cents 500_000);
  avg_turnover_20d = some (cents 100_000_000_000);
  allowed_min = cents 475_000;
  allowed_max = cents 525_000;
  market_regime = risk_on;
}

abbrev calibrator : Calibrator Fixed
calibrator = record { available = true; predict_p_profit = λ x. cents 90 }

abbrev evidence : Option (FundamentalGateEvidence Fixed)
evidence = some (record { passed = true; score = cents 8000; reasons = 0 })

abbrev published : Published Fixed
published =
    assemble_at settings context candidates calibrator (cents 9000) (cents 9500) (cents 10_000)
      evidence (cents 500_000)

assembled :
    assemble_published_signal settings context candidates calibrator
      (cents 9000)
      (cents 9500)
      (cents 10_000)
      evidence
    ≡ some published
unfolding assemble_published_signal
assembled = refl

published_actionable : published.actionable ≡ true
unfolding assemble_at qualifying_families family_votes add_vote technical_gate_passed
    bullish_strategy_count raw_ensemble_score evaluate_execution_feasibility publication_gate
    confidence_of opportunity_of liquidity_of
published_actionable = refl

assemble_published_signal-IsTradable_example :
    (published.actionable ≡ true
      → IsTradable settings context candidates calibrator (cents 9500) evidence published)
    × (published.grade ≢ c → published.actionable ≡ true)
assemble_published_signal-IsTradable_example =
    assemble_published_signal-IsTradable settings context candidates calibrator (cents 9000)
      (cents 9500) (cents 10_000) evidence published assembled
