-- ===== src/Learning.antt =====
-- services/paper_broker/learning_engine.py, `StrategyLearningEngine`: the post-mortem of a closed
-- trade, its lesson, and the proposal for the research queue. Texts are left out. `Once` is what is
-- proved of it.
pub mod Once
mod Tests
use iran_market_radar.Base.{
  ℕ, ◌+◌, ◌&&◌, ◌||◌, Bool, true, false, Option, none, some, List, [], ◌∷◌, ◌++◌, ◌==◌, ltb,
  if◌then◌else◌, find,
}
use iran_market_radar.Float.{Float, ◌⊕◌, ◌⊖◌, ◌⊗◌, ◌⊘◌, ◌≤f◌, ◌<f◌, of_nat, fmax, fmin}
use iran_market_radar.Ledger.Book.{Outcome, win, loss, breakeven}

-- The reasons of an exit that the engine tells apart.
pub data CloseReason : Type 0 where
  stop_loss target_1 target_2 trailing_stop other_reason : CloseReason

-- The columns of a closed trade that the engine computes with.
pub record FinishedTrade (F : Type 0) : Type 0 where
  pub id : ℕ
  pub strategy_id : ℕ
  pub planned_entry : F
  pub avg_entry_price : F
  pub mfe : F
  pub mae : F
  pub net_return_pct : F
  pub realized_r : F
  pub initial_risk_pct_nav : F
  pub slippage_cost : F
  pub gross_buy_value : F
  pub exit_reason : CloseReason
  pub outcome_status : Outcome

pub data OutcomeType : Type 0 where
  good_process_win good_process_loss bad_process_win bad_process_loss : OutcomeType

pub record TradePostMortem (F : Type 0) : Type 0 where
  pub trade_id : ℕ
  pub entry_efficiency : F
  pub exit_efficiency : F
  pub process_quality_score : F
  pub outcome_vs_process_type : OutcomeType

pub data LessonCategory : Type 0 where
  entry_lesson exit_lesson : LessonCategory

pub record StructuredLesson : Type 0 where
  pub id : ℕ
  pub trade_id : ℕ
  pub category : LessonCategory
  pub requires_validation : Bool

pub data SampleSufficiency : Type 0 where
  insufficient_sample early_evidence evaluating statistically_stable : SampleSufficiency

-- Its status is PROPOSED, and it changes no parameter.
pub record ExperimentProposal : Type 0 where
  pub source_lesson_id : ℕ
  pub strategy_key : ℕ
  pub sample_sufficiency : SampleSufficiency

-- The tables; `next_id` is the identifier of the next row.
pub record Research (F : Type 0) : Type 0 where
  pub post_mortems : List (TradePostMortem F)
  pub lessons : List StructuredLesson
  pub proposals : List ExperimentProposal
  pub next_id : ℕ

unfoldable pub evaluate_sample_sufficiency : ℕ → ℕ → SampleSufficiency
evaluate_sample_sufficiency n_samples n_regimes =
    if ltb n_samples 20 || ltb n_regimes 2
    then insufficient_sample
    else if ltb n_samples 50
    then early_evidence
    else if ltb n_samples 100
    then evaluating
    else statistically_stable

abbrev pub is_loss : Outcome → Bool
is_loss loss = true
is_loss _ = false

abbrev pub is_win : Outcome → Bool
is_win win = true
is_win _ = false

abbrev pub is_stop : CloseReason → Bool
is_stop stop_loss = true
is_stop _ = false

abbrev pub takes_profit : CloseReason → Bool
takes_profit target_1 = true
takes_profit target_2 = true
takes_profit trailing_stop = true
takes_profit _ = false

abbrev pub outcome_type_of : Bool → Bool → OutcomeType
outcome_type_of true true = good_process_win
outcome_type_of true false = good_process_loss
outcome_type_of false true = bad_process_win
outcome_type_of false false = bad_process_loss

module _ {F : Type 0} ⦃fl : Float F⦄ where
  unfoldable pub entry_efficiency : FinishedTrade F → F
  entry_efficiency t =
      if of_nat 0 <f t.planned_entry
      then fmax (fl.dec 50 2) (
          fmin (of_nat 1)
            (of_nat 1 ⊖ fl.abs (t.avg_entry_price ⊖ t.planned_entry) ⊘ t.planned_entry ⊗ of_nat 3))
      else of_nat 0

  unfoldable pub exit_efficiency : FinishedTrade F → F
  exit_efficiency t =
      if (of_nat 0 <f t.mfe) && (of_nat 0 <f t.net_return_pct)
      then fmin (of_nat 1) (fmax (fl.dec 50 2) (t.net_return_pct ⊘ fmax t.mfe (fl.dec 1 2)))
      else if is_loss t.outcome_status
      then fmin (of_nat 1)
          (fmax (fl.dec 60 2) (of_nat 1 ⊖ fl.abs t.net_return_pct ⊘ fmax t.mae (fl.dec 1 2)))
      else of_nat 0

  abbrev pub lose_points : Bool → ℕ → F → F
  lose_points violated n score = if violated then score ⊖ of_nat n else score

  unfoldable pub process_score : FinishedTrade F → F
  process_score t =
      let risked = lose_points (fl.dec 40 2 <f t.initial_risk_pct_nav) 15 (of_nat 100) in
      let slipped = lose_points (t.gross_buy_value ⊗ fl.dec 5 3 <f t.slippage_cost) 10 risked in
      fmax (of_nat 0) (
        fmin (of_nat 100) (
          if is_stop t.exit_reason && (t.realized_r <f fl.neg (fl.dec 12 1))
          then slipped ⊖ of_nat 15
          else if takes_profit t.exit_reason
          then slipped ⊕ of_nat 5
          else slipped))

  abbrev pub post_mortem_of : FinishedTrade F → TradePostMortem F
  post_mortem_of t = record {
    trade_id = t.id;
    entry_efficiency = fl.round 3 (entry_efficiency t);
    exit_efficiency = fl.round 3 (exit_efficiency t);
    process_quality_score = fl.round 1 (process_score t);
    outcome_vs_process_type =
        outcome_type_of (of_nat 80 ≤f process_score t) (is_win t.outcome_status);
  }

  abbrev pub lesson_of : FinishedTrade F → ℕ → LessonCategory → StructuredLesson
  lesson_of t id category = record {
    id = id;
    trade_id = t.id;
    category = category;
    requires_validation = true;
  }

  -- `_extract_lessons_and_proposals`.
  unfoldable pub extract_lessons_and_proposals : FinishedTrade F → Research F → Research F
  extract_lessons_and_proposals t r =
      if is_loss t.outcome_status && is_stop t.exit_reason
      then record r {
        lessons = r.lessons ++ lesson_of t r.next_id entry_lesson ∷ [];
        proposals =
            r.proposals
            ++ record {
              source_lesson_id = r.next_id;
              strategy_key = t.strategy_id;
              sample_sufficiency = insufficient_sample;
            }
              ∷ [];
        next_id = r.next_id + 1;
      }
      else if is_win t.outcome_status && (of_nat 2 ≤f t.realized_r)
      then record r {
        lessons = r.lessons ++ lesson_of t r.next_id exit_lesson ∷ [];
        next_id = r.next_id + 1;
      }
      else r

  -- The post-mortem that is returned, and the tables.
  unfoldable pub generate_post_mortem :
      FinishedTrade F → Research F → TradePostMortem F × Research F
  generate_post_mortem t r = elim (find (λ m. m.trade_id == t.id) r.post_mortems) [
    | some m ↦ (m, r)
    | none ↦ (
      post_mortem_of t,
      extract_lessons_and_proposals t
          (record r { post_mortems = r.post_mortems ++ post_mortem_of t ∷ [] }),
    )
  ]

  -- The post-mortems of several trades, one after the other.
  unfoldable pub generate_all : List (FinishedTrade F) → Research F → Research F
  generate_all [] r = r
  generate_all (t ∷ ts) r = generate_all ts (generate_post_mortem t r).1

  abbrev pub nothing_learned : Research F
  nothing_learned = record { post_mortems = []; lessons = []; proposals = []; next_id = 1 }
