-- ===== src/Strategies/Volume.antt =====
-- The strategies on volume and volatility: s03_breakout.py, s06_volume.py, s10_bb_squeeze.py and
-- s05_reversion.py.
use iran_market_radar.Base.{◌&&◌, not, Bool, [], ◌∷◌}
use iran_market_radar.Float.{Float, ◌⊕◌, ◌⊖◌, ◌⊗◌, ◌≤f◌, ◌<f◌, feq, of_nat, fmin}
use iran_market_radar.Scorer.{unclassified}
use iran_market_radar.Regime.{RegimeLabel, risk_off}
use iran_market_radar.Strategies.{
  StrategyContext, Evaluation, propose, only_if, breakout_volume, volume_anomaly,
  bb_squeeze_breakout, selective_mean_reversion, dist_to_20_high, vol_z_score_20d, volume_ratio_20d,
  ret_1d, ret_5d, channel_pos_20d, bb_squeeze, supertrend_direction, get_feature, close_of, atr_of,
  at_ratio, above,
}

abbrev pub is_risk_off : RegimeLabel → Bool
is_risk_off risk_off = Bool.true
is_risk_off _ = Bool.false

module _ {F : Type 0} ⦃fl : Float F⦄ (ctx : StrategyContext F) where
  -- `S03_BreakoutVolume.evaluate`.
  unfoldable pub breakout : Evaluation F
  breakout =
      let z = get_feature ctx vol_z_score_20d (of_nat 0) in
      let c = close_of ctx in
      let atr = atr_of ctx in
      propose
        ((fl.neg (fl.dec 8 3) ≤f get_feature ctx dist_to_20_high (fl.neg (of_nat 1)))
          && (fl.dec 14 1 ≤f z))
        (record {
          strategy_key = breakout_volume;
          vote = fl.round 2 (fmin (of_nat 1) (fl.dec 6 1 ⊕ z ⊗ fl.dec 1 1));
          raw_score = fl.round 1 (z ⊗ of_nat 10);
          entry_low = at_ratio c 995 3;
          entry_high = at_ratio c 102 2;
          max_chase = at_ratio c 1035 3;
          stop_price = fl.round 0 (c ⊖ fl.dec 12 1 ⊗ atr);
          target_prices = above c 22 atr ∷ above c 40 atr ∷ [];
          time_stop_sessions = 5;
          risk_flags = 0;
          family = unclassified;
        })

  -- `S06_VolumeAnomaly.evaluate`.
  unfoldable pub volume : Evaluation F
  volume =
      let ratio = get_feature ctx volume_ratio_20d (of_nat 1) in
      let c = close_of ctx in
      let atr = atr_of ctx in
      propose
        ((of_nat 2 ≤f ratio)
          && (fl.dec 15 1 ≤f get_feature ctx vol_z_score_20d (of_nat 0))
          && (fl.dec 5 3 <f get_feature ctx ret_1d (of_nat 0)))
        (record {
          strategy_key = volume_anomaly;
          vote = fl.round 2 (fmin (of_nat 1) (fl.dec 65 2 ⊕ ratio ⊗ fl.dec 5 2));
          raw_score = fl.round 1 (ratio ⊗ of_nat 20);
          entry_low = at_ratio c 995 3;
          entry_high = at_ratio c 102 2;
          max_chase = at_ratio c 103 2;
          stop_price = fl.round 0 (c ⊖ fl.dec 13 1 ⊗ atr);
          target_prices = above c 20 atr ∷ above c 38 atr ∷ [];
          time_stop_sessions = 5;
          risk_flags = 0;
          family = unclassified;
        })

  -- `S10_BBSqueezeBreakout.evaluate`.
  unfoldable pub squeeze : Evaluation F
  squeeze =
      let z = get_feature ctx vol_z_score_20d (of_nat 0) in
      let c = close_of ctx in
      let atr = atr_of ctx in
      propose
        (feq (get_feature ctx bb_squeeze (of_nat 0)) (of_nat 1)
          && (fl.dec 15 1 <f z)
          && feq (get_feature ctx supertrend_direction (of_nat 0)) (of_nat 1))
        (record {
          strategy_key = bb_squeeze_breakout;
          vote = fl.round 2 (fmin (of_nat 1) (fl.dec 55 2 ⊕ z ⊗ fl.dec 1 1));
          raw_score = fl.round 1 z;
          entry_low = at_ratio c 99 2;
          entry_high = at_ratio c 1015 3;
          max_chase = at_ratio c 1025 3;
          stop_price = fl.round 0 (c ⊖ fl.dec 15 1 ⊗ atr);
          target_prices = above c 30 atr ∷ above c 50 atr ∷ [];
          time_stop_sessions = 5;
          risk_flags = 0;
          family = unclassified;
        })

  -- `S05_SelectiveMeanReversion.evaluate`.
  unfoldable pub reversion : Evaluation F
  reversion =
      let r5 = get_feature ctx ret_5d (of_nat 0) in
      let c = close_of ctx in
      let atr = atr_of ctx in
      only_if (not (is_risk_off ctx.market_regime)) (
        propose
          ((r5 <f fl.neg (fl.dec 6 2))
            && (get_feature ctx channel_pos_20d (fl.dec 5 1) ≤f fl.dec 10 2))
          (record {
            strategy_key = selective_mean_reversion;
            vote = fl.dec 64 2;
            raw_score = fl.round 1 (fl.abs r5 ⊗ of_nat 100);
            entry_low = at_ratio c 99 2;
            entry_high = at_ratio c 101 2;
            max_chase = at_ratio c 1015 3;
            stop_price = fl.round 0 (c ⊖ of_nat 1 ⊗ atr);
            target_prices = above c 15 atr ∷ above c 25 atr ∷ [];
            time_stop_sessions = 3;
            risk_flags = 1;
            family = unclassified;
          }))
