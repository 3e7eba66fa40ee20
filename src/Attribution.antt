-- ===== src/Attribution.antt =====
-- services/paper_broker/attribution.py: what each indicator said of a closed trade, and the counters
-- of each. `Counters` is what is proved of them.
pub mod Counters
mod Tests
use iran_market_radar.Base.{
  ℕ, ◌+◌, ◌-◌, Bool, true, false, not, ◌&&◌, ◌||◌, Option, none, some, List, [], ◌∷◌, ◌==◌,
  if◌then◌else◌,
}
use iran_market_radar.Float.{Float, ◌⊕◌, ◌⊗◌, ◌⊘◌, ◌≤f◌, ◌<f◌, of_nat}

-- The number of an indicator is its place in `INDICATOR_DEFINITIONS`, whose feature keys differ.
pub record IndicatorDefinition (F : Type 0) : Type 0 where
  pub name : ℕ
  pub bullish_threshold : F

pub record IndicatorPerformance (F : Type 0) : Type 0 where
  pub indicator_name : ℕ
  pub total_signals : ℕ
  pub profitable_signals : ℕ
  pub loss_signals : ℕ
  pub avg_return_when_bullish : F
  pub avg_return_when_bearish : F
  pub precision : F
  pub cumulative_pnl : F

-- The trade log; `features_at_entry` has a value for the keys that are there and not None.
pub record AttributedTrade (F : Type 0) : Type 0 where
  pub features_at_entry : ℕ → Option F
  pub net_pnl : F
  pub return_pct : F

module _ {F : Type 0} ⦃fl : Float F⦄ where
  abbrev number_from : ℕ → List F → List (IndicatorDefinition F)
  number_from n [] = []
  number_from n (x ∷ xs) = record { name = n; bullish_threshold = x } ∷ number_from (n + 1) xs

  abbrev pub indicator_definitions : List (IndicatorDefinition F)
  indicator_definitions = number_from 0 (
      fl.dec 5 1
      ∷ of_nat 50
      ∷ of_nat 0
      ∷ fl.dec 5 1
      ∷ fl.dec 5 1
      ∷ of_nat 25
      ∷ of_nat 50
      ∷ of_nat 0
      ∷ of_nat 0
      ∷ of_nat 1
      ∷ fl.dec 5 1
      ∷ fl.dec 11 1
      ∷ of_nat 20
      ∷ fl.neg (of_nat 50)
      ∷ of_nat 0
      ∷ of_nat 25
      ∷ of_nat 6
      ∷ of_nat 7
      ∷ fl.dec 85 2
      ∷ [])

  abbrev pub is_profitable : AttributedTrade F → Bool
  is_profitable t = of_nat 0 <f t.net_pnl

  -- 1 for an indicator that was right: bullish before a profit, or not bullish before a loss.
  abbrev pub score_of : AttributedTrade F → IndicatorDefinition F → F → F
  score_of t d value =
      let bullish = d.bullish_threshold ≤f value in
      if bullish && is_profitable t
      then of_nat 1
      else if not bullish && not (is_profitable t)
      then of_nat 1
      else of_nat 0

  -- `trade_log.indicator_scores`.
  unfoldable pub indicator_scores : List (IndicatorDefinition F) → AttributedTrade F → List (ℕ × F)
  indicator_scores [] t = []
  indicator_scores (d ∷ ds) t = elim (t.features_at_entry d.name) [
    | none ↦ indicator_scores ds t
    | some value ↦ (d.name, score_of t d value) ∷ indicator_scores ds t
  ]

  abbrev pub fresh_performance : ℕ → IndicatorPerformance F
  fresh_performance n = record {
    indicator_name = n;
    total_signals = 0;
    profitable_signals = 0;
    loss_signals = 0;
    avg_return_when_bullish = of_nat 0;
    avg_return_when_bearish = of_nat 0;
    precision = of_nat 0;
    cumulative_pnl = of_nat 0;
  }

  -- `(curr_avg * (n - 1) + return_pct) / n`, where `n` counts the trade.
  abbrev running_average : F → ℕ → F → F
  running_average average n value = (average ⊗ of_nat (n - 1) ⊕ value) ⊘ of_nat n

  -- The row of an indicator after a trade.
  unfoldable pub count_trade : AttributedTrade F → IndicatorPerformance F → IndicatorPerformance F
  count_trade t p =
      if is_profitable t
      then record p {
        total_signals = p.total_signals + 1;
        profitable_signals = p.profitable_signals + 1;
        avg_return_when_bullish =
            running_average p.avg_return_when_bullish (p.profitable_signals + 1) t.return_pct;
        cumulative_pnl = p.cumulative_pnl ⊕ t.net_pnl;
        precision = of_nat (p.profitable_signals + 1) ⊘ of_nat (p.total_signals + 1);
      }
      else record p {
        total_signals = p.total_signals + 1;
        loss_signals = p.loss_signals + 1;
        avg_return_when_bearish =
            running_average p.avg_return_when_bearish (p.loss_signals + 1) t.return_pct;
        cumulative_pnl = p.cumulative_pnl ⊕ t.net_pnl;
        precision = of_nat p.profitable_signals ⊘ of_nat (p.total_signals + 1);
      }

  -- The first row of the name is updated, or a new one is added.
  unfoldable pub update_row :
      ℕ → AttributedTrade F → List (IndicatorPerformance F) → List (IndicatorPerformance F)
  update_row n t [] = count_trade t (fresh_performance n) ∷ []
  update_row n t (p ∷ ps) =
      let rest = update_row n t ps in
      if p.indicator_name == n then count_trade t p ∷ ps else p ∷ rest

  abbrev pub update_if :
      Option F
      → ℕ
      → AttributedTrade F
      → List (IndicatorPerformance F)
      → List (IndicatorPerformance F)
  update_if none n t ps = ps
  update_if (some value) n t ps = update_row n t ps

  -- The table after a trade; the scores are `indicator_scores`.
  unfoldable pub update_indicator_attribution :
      List (IndicatorDefinition F)
      → AttributedTrade F
      → List (IndicatorPerformance F)
      → List (IndicatorPerformance F)
  update_indicator_attribution [] t ps = ps
  update_indicator_attribution (d ∷ ds) t ps =
      update_indicator_attribution ds t (update_if (t.features_at_entry d.name) d.name t ps)

  -- Several trades, one after the other.
  unfoldable pub attribute_all :
      List (IndicatorDefinition F)
      → List (AttributedTrade F)
      → List (IndicatorPerformance F)
      → List (IndicatorPerformance F)
  attribute_all ds [] ps = ps
  attribute_all ds (t ∷ ts) ps = attribute_all ds ts (update_indicator_attribution ds t ps)
