-- ===== src/Learning/Tests.antt =====
-- Three closed trades, of which one is given twice.
use iran_market_radar.Base.{ℕ, ◌*◌, ◌≡◌, refl, true, List, [], ◌∷◌, map, All}
use iran_market_radar.Base.Int.{pos}
use iran_market_radar.Float.Fixed.{Fixed, fixed_float}
use iran_market_radar.Ledger.Book.{win, loss}
use iran_market_radar.Learning.{
  FinishedTrade, stop_loss, target_1, Research, good_process_loss, good_process_win,
  bad_process_loss, insufficient_sample, early_evidence, evaluate_sample_sufficiency, process_score,
  extract_lessons_and_proposals, generate_post_mortem, generate_all, nothing_learned,
}
use iran_market_radar.Learning.Once.{IsLearned, has_post_mortem, generate_all-IsLearned}

abbrev rials : ℕ → Fixed
rials n = pos (n * 1_000_000)

abbrev stopped : FinishedTrade Fixed
stopped = record {
  id = 1;
  strategy_id = 4;
  planned_entry = rials 1000;
  avg_entry_price = rials 1010;
  mfe = rials 1;
  mae = rials 6;
  net_return_pct = fixed_float.neg (rials 6);
  realized_r = fixed_float.neg (rials 1);
  initial_risk_pct_nav = pos 350_000;
  slippage_cost = rials 10;
  gross_buy_value = rials 100_000;
  exit_reason = stop_loss;
  outcome_status = loss;
}

abbrev slipped : FinishedTrade Fixed
slipped = record stopped {
  id = 2;
  realized_r = fixed_float.neg (rials 2);
  slippage_cost = rials 1000;
}

abbrev won : FinishedTrade Fixed
won = record stopped {
  id = 3;
  net_return_pct = rials 20;
  realized_r = rials 3;
  exit_reason = target_1;
  outcome_status = win;
}

abbrev trades : List (FinishedTrade Fixed)
trades = stopped ∷ slipped ∷ stopped ∷ won ∷ []

abbrev learned : Research Fixed
learned = generate_all trades nothing_learned

learned_is :
    (map (λ m. m.outcome_vs_process_type) learned.post_mortems
      ≡ good_process_loss ∷ bad_process_loss ∷ good_process_win ∷ [])
    × (map (λ p. p.source_lesson_id) learned.proposals ≡ 1 ∷ 2 ∷ [])
unfolding generate_all generate_post_mortem extract_lessons_and_proposals process_score
learned_is = (refl, refl)

samples :
    map (λ n. evaluate_sample_sufficiency n 2) (19 ∷ 20 ∷ [])
    ≡ insufficient_sample ∷ early_evidence ∷ []
unfolding evaluate_sample_sufficiency
samples = refl

generate_all-IsLearned_example :
    IsLearned learned × All (λ t. has_post_mortem learned.post_mortems t.id ≡ true) trades
generate_all-IsLearned_example = generate_all-IsLearned trades
