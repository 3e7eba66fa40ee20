-- ===== src/Attribution/Tests.antt =====
-- Three trades, of which one lacks the feature of the second indicator.
use iran_market_radar.Base.{ℕ, zero, suc, ◌*◌, ◌≡◌, refl, Option, none, some, List, [], ◌∷◌, map}
use iran_market_radar.Base.Int.{pos}
use iran_market_radar.Float.Fixed.{Fixed, fixed_float}
use iran_market_radar.Attribution.{
  AttributedTrade, IndicatorPerformance, indicator_definitions, fresh_performance, indicator_scores,
  count_trade, update_row, update_indicator_attribution, attribute_all,
}
use iran_market_radar.Attribution.Counters.{row_of, replay, Counts, attribute_all-Counts}

abbrev rials : ℕ → Fixed
rials n = pos (n * 1_000_000)

-- The EMA trend and the RSI, numbers 0 and 1.
abbrev features : Option Fixed → ℕ → Option Fixed
features rsi zero = some (rials 1)
features rsi (suc zero) = rsi
features rsi (suc (suc n)) = none

abbrev trades : List (AttributedTrade Fixed)
trades =
    record {
      features_at_entry = features (some (rials 60));
      net_pnl = rials 5;
      return_pct = rials 4;
    }
    ∷ record { features_at_entry = features none; net_pnl = rials 7; return_pct = rials 2 }
    ∷ record {
      features_at_entry = features (some (rials 60));
      net_pnl = fixed_float.neg (rials 3);
      return_pct = fixed_float.neg (rials 1);
    }
    ∷ []

abbrev table : List (IndicatorPerformance Fixed)
table = attribute_all indicator_definitions trades []

table_is :
    map {B = ℕ × ℕ × ℕ × Fixed}
      (λ p. (p.indicator_name, p.total_signals, p.profitable_signals, p.avg_return_when_bullish))
      table
    ≡ (0, 3, 2, rials 3) ∷ (1, 2, 1, rials 4) ∷ []
unfolding attribute_all update_indicator_attribution update_row count_trade
table_is = refl

scores_are :
    map (λ t. map (λ s. s.1) (indicator_scores indicator_definitions t)) trades
    ≡ (rials 1 ∷ rials 1 ∷ []) ∷ (rials 1 ∷ []) ∷ (rials 0 ∷ rials 0 ∷ []) ∷ []
unfolding indicator_scores
scores_are = refl

attribute_all-Counts_example :
    (row_of 1 table ≡ replay 1 trades (fresh_performance 1))
    × Counts 1 trades (fresh_performance 1) (row_of 1 table)
attribute_all-Counts_example = attribute_all-Counts 1 trades refl
