-- ===== src/Scorer/Assemble.antt =====
-- `assemble_published_signal` of services/scorer/ensemble.py and `evaluate_execution_feasibility` of
-- packages/market_rules/queue_model.py.
use iran_market_radar.Base.{
  ℕ, Bool, true, false, not, ◌&&◌, ◌||◌, Option, none, some, List, [], ◌∷◌, length, ltb, exists_in,
  if◌then◌else◌, or_else,
}
use iran_market_radar.Base.Int.{pos_part}
use iran_market_radar.Float.{Float, ◌⊕◌, ◌⊖◌, ◌⊗◌, ◌⊘◌, ◌≤f◌, ◌<f◌, of_nat, fmax, fmin}
use iran_market_radar.Scorer.{
  CandidateResult, GateSettings, Calibrator, FundamentalGateEvidence, MarketRegime, risk_on,
  neutral, other, StrategyContext, ExecutionFeasibility, Grade, a_plus, a, b, c, Published,
  at_least_one,
}
use iran_market_radar.Scorer.Votes.{qualifying_families, technical_gate_passed, raw_ensemble_score}

module _ {F : Type 0} ⦃fl : Float F⦄ where
  -- `evaluate_execution_feasibility`.
  unfoldable pub evaluate_execution_feasibility : F → F → F → ℕ → ℕ → ExecutionFeasibility F
  evaluate_execution_feasibility last low_limit high_limit bid_queue avg_volume =
      let ratio = of_nat bid_queue ⊘ of_nat (at_least_one avg_volume) in
      if (of_nat 0 <f high_limit) && (fl.abs (last ⊖ high_limit) ⊘ high_limit <f fl.dec 2 3)
      then record {
        fill_probability_score = fl.round 1 (
            if fl.dec 5 1 <f ratio
            then fmax (of_nat 10) (of_nat 50 ⊖ ratio ⊗ of_nat 30)
            else of_nat 65);
        is_locked_limit_up = true;
        is_locked_limit_down = false;
        flagged = true;
      }
      else if (of_nat 0 <f low_limit) && (fl.abs (last ⊖ low_limit) ⊘ low_limit <f fl.dec 2 3)
      then record {
        fill_probability_score = fl.round 1 (of_nat 85);
        is_locked_limit_up = false;
        is_locked_limit_down = true;
        flagged = true;
      }
      else record {
        fill_probability_score = fl.round 1 (of_nat 90);
        is_locked_limit_up = false;
        is_locked_limit_down = false;
        flagged = false;
      }

  -- The confidence before its bounds, as the code adds it up.
  abbrev pub regime_factor : MarketRegime → F
  regime_factor risk_on = fl.dec 90 2
  regime_factor neutral = fl.dec 70 2
  regime_factor other = fl.dec 40 2

  unfoldable pub confidence_of : GateSettings F → ℕ → F → F → MarketRegime → F
  confidence_of set families support quality regime =
      of_nat 100
      ⊗ fmin (of_nat 1) (
          fl.dec 25 2 ⊗ fmin (of_nat 1) (fmax (of_nat 0) (support ⊘ of_nat 100))
          ⊕ fl.dec 25 2 ⊗ (quality ⊘ of_nat 100)
          ⊕ fl.dec 30 2
            ⊗ fmin (of_nat 1)
                (of_nat families ⊘ of_nat (at_least_one set.min_independent_technical_families))
          ⊕ fl.dec 20 2 ⊗ regime_factor regime)

  unfoldable pub opportunity_of : F → F → F → F → F → F → Bool → F
  opportunity_of strength p_profit confidence exec_score regime fundamental flagged =
      let score =
        of_nat 100
        ⊗ (fl.dec 30 2 ⊗ (strength ⊘ of_nat 100)
            ⊕ fl.dec 20 2 ⊗ fmax (of_nat 0) ((p_profit ⊖ fl.dec 50 2) ⊘ fl.dec 50 2)
            ⊕ fl.dec 15 2 ⊗ (confidence ⊘ of_nat 100)
            ⊕ fl.dec 15 2 ⊗ (exec_score ⊘ of_nat 100)
            ⊕ fl.dec 10 2 ⊗ regime
            ⊕ fl.dec 10 2 ⊗ fundamental)
        ⊗ (if flagged then fl.dec 90 2 else of_nat 1) in
      fl.round 1 (fmax (of_nat 0) (fmin (of_nat 100) score))

  unfoldable pub liquidity_of : Option F → F
  liquidity_of turnover =
      fl.round 1
        (fmin (of_nat 100) (fmax (of_nat 0) (or_else turnover (of_nat 0) ⊘ fl.dec 10_000_000 0)))

  unfoldable pub grade_of : Bool → F → F → Grade
  grade_of gate opportunity confidence =
      if gate && (of_nat 85 ≤f opportunity) && (of_nat 70 ≤f confidence)
      then a_plus
      else if gate && (of_nat 78 ≤f opportunity)
      then a
      else if gate && (of_nat 68 ≤f opportunity)
      then b
      else c

  abbrev pub evidence_passed : Option (FundamentalGateEvidence F) → Bool
  evidence_passed none = false
  evidence_passed (some e) = e.passed

  abbrev pub evidence_score : Option (FundamentalGateEvidence F) → F
  evidence_score none = of_nat 0
  evidence_score (some e) = e.score ⊘ of_nat 100

  -- Whether evidence that has not passed adds a flag: absent evidence does.
  abbrev pub evidence_flags : Option (FundamentalGateEvidence F) → Bool
  evidence_flags none = true
  evidence_flags (some e) = not e.passed && ltb 0 e.reasons

  -- `publication_gate_passed`.
  unfoldable pub publication_gate :
      GateSettings F → Bool → Bool → Bool → F → F → Bool → F → F → Bool
  publication_gate set technical fundamental calibrated quality liquidity locked opportunity
        confidence =
      technical
      && fundamental
      && calibrated
      && (set.min_data_quality_score ≤f quality)
      && (set.min_liquidity_score ≤f liquidity)
      && not locked
      && (set.min_opportunity_score ≤f opportunity)
      && (set.min_confidence ≤f confidence)

  -- The signal at a price that is positive, with limits that are.
  unfoldable pub assemble_at :
      GateSettings F
      → StrategyContext F
      → List (CandidateResult F)
      → Calibrator F
      → F
      → F
      → F
      → Option (FundamentalGateEvidence F)
      → F
      → Published F
  assemble_at set ctx cands cal strength quality support evidence price =
      let families = qualifying_families set cands in
      let technical = technical_gate_passed set cands in
      let p_profit =
        if cal.available then cal.predict_p_profit (raw_ensemble_score families) else of_nat 0 in
      let exec =
        evaluate_execution_feasibility price ctx.allowed_min ctx.allowed_max 0
          (pos_part (fl.trunc (or_else ctx.avg_turnover_20d (of_nat 0) ⊘ fmax (of_nat 1) price))) in
      let flagged =
        exec.flagged
        || exists_in (λ x. ltb 0 x.risk_flags) cands
        || not technical
        || evidence_flags evidence
        || not cal.available in
      let confidence = confidence_of set (length families) support quality ctx.market_regime in
      let opportunity =
        opportunity_of strength p_profit confidence exec.fill_probability_score
          (regime_factor ctx.market_regime) (evidence_score evidence) flagged in
      let liquidity = liquidity_of ctx.avg_turnover_20d in
      let gate =
        publication_gate set technical (evidence_passed evidence) cal.available quality liquidity
          exec.is_locked_limit_up opportunity confidence in
      record {
        actionable = gate;
        grade = grade_of gate opportunity confidence;
        opportunity_score = opportunity;
        p_profit = fl.round 2 p_profit;
        confidence = fl.round 1 confidence;
        liquidity_score = liquidity;
        data_quality = quality;
      }

  -- `none` where no signal is made.
  unfoldable pub assemble_published_signal :
      GateSettings F
      → StrategyContext F
      → List (CandidateResult F)
      → Calibrator F
      → F
      → F
      → F
      → Option (FundamentalGateEvidence F)
      → Option (Published F)
  assemble_published_signal set ctx [] cal strength quality support evidence = none
  assemble_published_signal set ctx (x ∷ xs) cal strength quality support evidence =
      elim ctx.close [
        | none ↦ none
        | some price ↦
            if (price ≤f of_nat 0) || (ctx.allowed_min ≤f of_nat 0) || (ctx.allowed_max ≤f of_nat 0)
            then none
            else some (assemble_at set ctx (x ∷ xs) cal strength quality support evidence price)
      ]
