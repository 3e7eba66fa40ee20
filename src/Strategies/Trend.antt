-- ===== src/Strategies/Trend.antt =====
-- The strategies on the trend: s01_momentum.py, s02_trend.py, s04_pullback.py and s08_ichimoku.py.
use iran_market_radar.Base.{◌&&◌, [], ◌∷◌, if◌then◌else◌}
use iran_market_radar.Float.{Float, ◌⊕◌, ◌⊖◌, ◌⊗◌, ◌⊘◌, ◌≤f◌, ◌<f◌, feq, of_nat, fmin}
use iran_market_radar.Scorer.{unclassified}
use iran_market_radar.Strategies.{
  StrategyContext, Evaluation, propose, only_if, raise_if, cross_sectional_momentum,
  time_series_trend, trend_pullback, ichimoku_cloud_trend, ret_20d, ret_60d, ret_3d, ema_20,
  ema_trend_score, ichimoku_above_cloud, ichimoku_tenkan, ichimoku_kijun, adx_14, get_feature,
  close_of, atr_of, at_ratio, above,
}

module _ {F : Type 0} ⦃fl : Float F⦄ (ctx : StrategyContext F) where
  -- `S01_CrossSectionalMomentum.evaluate`.
  unfoldable pub momentum : Evaluation F
  momentum =
      let r20 = get_feature ctx ret_20d (of_nat 0) in
      let c = close_of ctx in
      let atr = atr_of ctx in
      propose ((fl.dec 4 2 <f r20) && (fl.dec 8 2 <f get_feature ctx ret_60d (of_nat 0))) (record {
        strategy_key = cross_sectional_momentum;
        vote = fl.round 2 (fmin (of_nat 1) (fl.dec 5 1 ⊕ r20 ⊗ of_nat 2));
        raw_score = fl.round 1 (r20 ⊗ of_nat 100);
        entry_low = at_ratio c 995 3;
        entry_high = at_ratio c 1015 3;
        max_chase = at_ratio c 103 2;
        stop_price = fl.round 0 (c ⊖ fl.dec 15 1 ⊗ atr);
        target_prices = above c 20 atr ∷ above c 35 atr ∷ [];
        time_stop_sessions = 5;
        risk_flags = 0;
        family = unclassified;
      })

  -- `S02_TimeSeriesTrend.evaluate`.
  unfoldable pub trend : Evaluation F
  trend =
      let score = get_feature ctx ema_trend_score (of_nat 0) in
      let c = close_of ctx in
      let ema = get_feature ctx ema_20 c in
      let atr = atr_of ctx in
      propose ((fl.dec 75 2 ≤f score) && (ema <f c)) (record {
        strategy_key = time_series_trend;
        vote = if feq score (of_nat 1) then fl.dec 80 2 else fl.dec 65 2;
        raw_score = fl.round 1 (score ⊗ of_nat 100);
        entry_low = at_ratio c 99 2;
        entry_high = at_ratio c 101 2;
        max_chase = at_ratio c 1025 3;
        stop_price = fl.round 0 (ema ⊖ atr);
        target_prices = above c 18 atr ∷ above c 30 atr ∷ [];
        time_stop_sessions = 7;
        risk_flags = 0;
        family = unclassified;
      })

  -- `S04_TrendPullback.evaluate`: a close of zero is a ZeroDivisionError, once the returns fit.
  unfoldable pub pullback : Evaluation F
  pullback =
      let r3 = get_feature ctx ret_3d (of_nat 0) in
      let c = close_of ctx in
      let ema = get_feature ctx ema_20 c in
      let atr = atr_of ctx in
      only_if
        ((fl.dec 8 2 <f get_feature ctx ret_60d (of_nat 0))
          && (fl.neg (fl.dec 5 2) ≤f r3)
          && (r3 ≤f fl.neg (fl.dec 1 2)))
        (raise_if (feq c (of_nat 0)) (
          propose (fl.abs (c ⊖ ema) ⊘ c ≤f fl.dec 25 3) (record {
            strategy_key = trend_pullback;
            vote = fl.dec 72 2;
            raw_score = of_nat 75;
            entry_low = at_ratio c 99 2;
            entry_high = at_ratio c 101 2;
            max_chase = at_ratio c 102 2;
            stop_price = fl.round 0 (ema ⊖ fl.dec 13 1 ⊗ atr);
            target_prices = above c 20 atr ∷ above c 32 atr ∷ [];
            time_stop_sessions = 6;
            risk_flags = 0;
            family = unclassified;
          })))

  -- `S08_IchimokuCloudTrend.evaluate`.
  unfoldable pub ichimoku : Evaluation F
  ichimoku =
      let adx = get_feature ctx adx_14 (of_nat 0) in
      let c = close_of ctx in
      let atr = atr_of ctx in
      propose
        (feq (get_feature ctx ichimoku_above_cloud (of_nat 0)) (of_nat 1)
          && (get_feature ctx ichimoku_kijun (of_nat 0)
              <f get_feature ctx ichimoku_tenkan (of_nat 0))
          && (of_nat 25 <f adx)
          && (fl.dec 5 1 ≤f get_feature ctx ema_trend_score (of_nat 0)))
        (record {
          strategy_key = ichimoku_cloud_trend;
          vote = fl.round 2 (fmin (of_nat 1) (fl.dec 5 1 ⊕ (adx ⊖ of_nat 25) ⊗ fl.dec 1 2));
          raw_score = fl.round 1 adx;
          entry_low = at_ratio c 995 3;
          entry_high = at_ratio c 102 2;
          max_chase = at_ratio c 103 2;
          stop_price = fl.round 0 (c ⊖ of_nat 2 ⊗ atr);
          target_prices = above c 25 atr ∷ above c 40 atr ∷ [];
          time_stop_sessions = 7;
          risk_flags = 0;
          family = unclassified;
        })
