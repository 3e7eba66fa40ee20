-- ===== src/Scorer/Gate.antt =====
-- What a signal that may be traded has passed.
use mathlib.Core.Path.{subst}
use mathlib.Core.Option.{some-injective}
use iran_market_radar.Base.{
  ℕ, ◌≤◌, ◌≡◌, refl, ◌≢◌, Bool, true, false, ◌&&◌, ◌||◌, Option, some, List, [], ◌∷◌, length, arith,
  by_if, by_option,
}
use iran_market_radar.Float.{Float, ◌⊖◌, ◌⊘◌, ◌≤f◌, ◌<f◌, of_nat}
use iran_market_radar.Scorer.{
  CandidateResult, GateSettings, Calibrator, FundamentalGateEvidence, StrategyContext, c, Published,
}
use iran_market_radar.Scorer.Votes.{
  qualifying_families, technical_gate_passed, bullish_strategy_count,
}
use iran_market_radar.Scorer.Assemble.{
  evaluate_execution_feasibility, publication_gate, grade_of, evidence_passed, assemble_at,
  assemble_published_signal,
}

module _ {F : Type 0} ⦃fl : Float F⦄ where
  gate-facts :
      (set : GateSettings F) (technical fundamental calibrated locked : Bool)
      → (quality liquidity opportunity confidence : F)
      → publication_gate set technical fundamental calibrated quality liquidity locked opportunity
          confidence
        ≡ true
      → (technical ≡ true)
        × (fundamental ≡ true)
        × (calibrated ≡ true)
        × (locked ≡ false)
        × (fl.le set.min_data_quality_score quality ≡ true)
        × (fl.le set.min_liquidity_score liquidity ≡ true)
        × (fl.le set.min_opportunity_score opportunity ≡ true)
        × (fl.le set.min_confidence confidence ≡ true)
  unfolding publication_gate
  gate-facts set technical fundamental calibrated locked quality liquidity opportunity confidence
        h =
      ground arith

  technical-facts :
      (set : GateSettings F) (cands : List (CandidateResult F))
      → technical_gate_passed set cands ≡ true
      → (set.min_independent_technical_families ≤ length (qualifying_families set cands))
        × (set.min_bullish_strategies ≤ bullish_strategy_count set cands)
  unfolding technical_gate_passed
  technical-facts set cands h = ground arith

  unlocked-facts :
      (price low high : F) (queue volume : ℕ)
      → (evaluate_execution_feasibility price low high queue volume).is_locked_limit_up ≡ false
      → ((of_nat 0 <f high) && (fl.abs (price ⊖ high) ⊘ high <f fl.dec 2 3)) ≡ false
  unfolding evaluate_execution_feasibility
  unlocked-facts price low high queue volume h = ground arith

  grade-gated :
      (gate : Bool) (opportunity confidence : F)
      → grade_of gate opportunity confidence ≢ c
      → gate ≡ true
  unfolding grade_of
  grade-gated gate opportunity confidence h = ground (arith, h)

  -- What holds of a signal that may be traded, for its price.
  pub record IsTradable (set : GateSettings F) (ctx : StrategyContext F)
      (cands : List (CandidateResult F)) (cal : Calibrator F) (quality : F)
      (evidence : Option (FundamentalGateEvidence F)) (p : Published F) : Type 0 where
    pub price : F
    pub priced : ctx.close ≡ some price
    pub positive : fl.le price (of_nat 0) ≡ false
    pub unlocked :
        ((of_nat 0 <f ctx.allowed_max)
          && (fl.abs (price ⊖ ctx.allowed_max) ⊘ ctx.allowed_max <f fl.dec 2 3))
        ≡ false
    pub independent :
        set.min_independent_technical_families ≤ length (qualifying_families set cands)
    pub bullish : set.min_bullish_strategies ≤ bullish_strategy_count set cands
    pub fundamental : evidence_passed evidence ≡ true
    pub calibrated : cal.available ≡ true
    pub sound_data : fl.le set.min_data_quality_score quality ≡ true
    pub liquid : fl.le set.min_liquidity_score p.liquidity_score ≡ true
    pub scored : fl.le set.min_opportunity_score p.opportunity_score ≡ true
    pub confident : (x : F) × (p.confidence ≡ fl.round 1 x) × (fl.le set.min_confidence x ≡ true)

  assemble_at-IsTradable :
      (set : GateSettings F) (ctx : StrategyContext F) (cands : List (CandidateResult F))
      → (cal : Calibrator F) (strength quality support : F)
      → (evidence : Option (FundamentalGateEvidence F)) (price : F)
      → let p = assemble_at set ctx cands cal strength quality support evidence price in
        ctx.close ≡ some price
        → fl.le price (of_nat 0) ≡ false
        → p.actionable ≡ true
        → IsTradable set ctx cands cal quality evidence p
  unfolding assemble_at
  assemble_at-IsTradable set ctx cands cal strength quality support evidence price priced positive
        h =
      let passed = gate-facts set _ _ _ _ quality _ _ _ h in
      let technical = technical-facts set cands passed.0 in
      record {
        price = price;
        priced = priced;
        positive = positive;
        unlocked = unlocked-facts price ctx.allowed_min ctx.allowed_max 0 _ passed.3;
        independent = technical.0;
        bullish = technical.1;
        fundamental = passed.1;
        calibrated = passed.2;
        sound_data = passed.4;
        liquid = passed.5;
        scored = passed.6;
        confident = (_, refl, passed.7);
      }

  assemble_at-graded :
      (set : GateSettings F) (ctx : StrategyContext F) (cands : List (CandidateResult F))
      → (cal : Calibrator F) (strength quality support : F)
      → (evidence : Option (FundamentalGateEvidence F)) (price : F)
      → let p = assemble_at set ctx cands cal strength quality support evidence price in
        p.grade ≢ c → p.actionable ≡ true
  unfolding assemble_at
  assemble_at-graded set ctx cands cal strength quality support evidence price h =
      grade-gated _ _ _ h

  -- A signal that is marked actionable has a positive price that is not locked at the day's upper
  -- limit, enough independent families and bullish strategies, evidence that passes the fundamental
  -- gate and a calibrated model, and its data quality, liquidity, opportunity and confidence reach
  -- the least values; and only an actionable signal is graded above C.
  pub assemble_published_signal-IsTradable :
      (set : GateSettings F) (ctx : StrategyContext F) (cands : List (CandidateResult F))
      → (cal : Calibrator F) (strength quality support : F)
      → (evidence : Option (FundamentalGateEvidence F)) (p : Published F)
      → assemble_published_signal set ctx cands cal strength quality support evidence ≡ some p
      → (p.actionable ≡ true → IsTradable set ctx cands cal quality evidence p)
        × (p.grade ≢ c → p.actionable ≡ true)
  unfolding assemble_published_signal
  assemble_published_signal-IsTradable set ctx [] cal strength quality support evidence p e = cc
  assemble_published_signal-IsTradable set ctx (x ∷ xs) cal strength quality support evidence p e =
      let Good = λ (q : Published F).
        (q.actionable ≡ true → IsTradable set ctx (x ∷ xs) cal quality evidence q)
        × (q.grade ≢ c → q.actionable ≡ true) in
      let P = λ (o : Option (Published F)). o ≡ some p → Good p in
      by_option P ctx.close (λ _ f. cc)
        (λ price priced.
          by_if P
            ((price ≤f of_nat 0) || (ctx.allowed_min ≤f of_nat 0) || (ctx.allowed_max ≤f of_nat 0))
            (λ _ f. cc)
            (λ bounds f. subst Good (some-injective _ _ f) (
              assemble_at-IsTradable set ctx (x ∷ xs) cal strength quality support evidence price
                  priced (ground (arith, bounds)),
              assemble_at-graded set ctx (x ∷ xs) cal strength quality support evidence price,
            )))
        e
