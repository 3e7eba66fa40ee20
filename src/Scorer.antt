-- ===== src/Scorer.antt =====
-- services/scorer/ensemble.py and packages/market_rules/queue_model.py: the gates and the scores that
-- decide whether a signal may be traded. Texts, the plan of entry and exit and the report fields are
-- left out.
pub mod Votes
pub mod Assemble
pub mod Families
pub mod Gate
mod Tests
use iran_market_radar.Base.{ℕ, Bool, true, false, Option, List, ltb, if◌then◌else◌}

pub data Family : Type 0 where
  composite unclassified : Family
  named : ℕ → Family

pub record CandidateResult (F : Type 0) : Type 0 where
  pub family : Family
  pub vote : F
  pub risk_flags : ℕ

-- The votes of one family, of which there is at least one.
pub record FamilyVotes (F : Type 0) : Type 0 where
  pub family : ℕ
  pub first : F
  pub rest : List F

pub record QualifyingFamily (F : Type 0) : Type 0 where
  pub family : ℕ
  pub vote : F

-- The settings that the gates read.
pub record GateSettings (F : Type 0) : Type 0 where
  pub min_family_vote : F
  pub min_independent_technical_families : ℕ
  pub min_bullish_strategies : ℕ
  pub min_data_quality_score : F
  pub min_liquidity_score : F
  pub min_opportunity_score : F
  pub min_confidence : F

-- `is_fitted` and a calibrator, with its `predict_p_profit`.
pub record Calibrator (F : Type 0) : Type 0 where
  pub available : Bool
  pub predict_p_profit : F → F

-- `reasons` is the number of the reasons against.
pub record FundamentalGateEvidence (F : Type 0) : Type 0 where
  pub passed : Bool
  pub score : F
  pub reasons : ℕ

pub data MarketRegime : Type 0 where
  risk_on neutral other : MarketRegime

pub record StrategyContext (F : Type 0) : Type 0 where
  pub close : Option F
  pub avg_turnover_20d : Option F
  pub allowed_min : F
  pub allowed_max : F
  pub market_regime : MarketRegime

pub record ExecutionFeasibility (F : Type 0) : Type 0 where
  pub fill_probability_score : F
  pub is_locked_limit_up : Bool
  pub is_locked_limit_down : Bool
  pub flagged : Bool

pub data Grade : Type 0 where
  a_plus a b c : Grade

-- Of the published signal, what the gates decide.
pub record Published (F : Type 0) : Type 0 where
  pub actionable : Bool
  pub grade : Grade
  pub opportunity_score : F
  pub p_profit : F
  pub confidence : F
  pub liquidity_score : F
  pub data_quality : F

abbrev pub is_composite : Family → Bool
is_composite composite = true
is_composite _ = false

abbrev pub at_least_one : ℕ → ℕ
at_least_one n = if ltb n 1 then 1 else n
