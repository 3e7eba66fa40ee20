-- ===== src/Strategies/Flow.antt =====
-- The strategies on the flow of money and on agreement: s07_client_flow.py, s09_sector_rotation.py,
-- s11_confluence.py and s12_smart_money_divergence.py.
use iran_market_radar.Base.{
  ℕ, ◌+◌, ◌&&◌, Bool, Option, none, some, List, [], ◌∷◌, leb, if◌then◌else◌,
}
use iran_market_radar.Float.{Float, ◌⊕◌, ◌⊖◌, ◌⊗◌, ◌≤f◌, ◌<f◌, feq, of_nat, fmin}
use iran_market_radar.Scorer.{unclassified}
use iran_market_radar.Strategies.{
  StrategyContext, Evaluation, propose, Sector, other_sector, client_flow, sector_rotation,
  multi_indicator_confluence, smart_money_divergence, real_buyer_power_ratio, net_real_inflow_pct,
  real_accumulation_streak, ret_5d, ret_20d, channel_pos_20d, ichimoku_above_cloud,
  supertrend_direction, rsi_14, macd_hist, mfi_14, obv_slope_20d, ema_trend_score, get_feature,
  close_of, atr_of, at_ratio, above,
}

abbrev pub leads : Option Sector → Bool
leads none = Bool.false
leads (some other_sector) = Bool.false
leads (some _) = Bool.true

-- `count += 1` for each condition that holds.
abbrev pub count_true : List Bool → ℕ
count_true [] = 0
count_true (b ∷ bs) = (if b then 1 else 0) + count_true bs

module _ {F : Type 0} ⦃fl : Float F⦄ (ctx : StrategyContext F) where
  -- `S07_ClientFlowAccumulation.evaluate`.
  unfoldable pub accumulation : Evaluation F
  accumulation =
      let power = get_feature ctx real_buyer_power_ratio (of_nat 1) in
      let streak = get_feature ctx real_accumulation_streak (of_nat 0) in
      let c = close_of ctx in
      let atr = atr_of ctx in
      propose
        ((fl.dec 135 2 ≤f power) && (fl.dec 5 2 <f get_feature ctx net_real_inflow_pct (of_nat 0)))
        (record {
          strategy_key = client_flow;
          vote =
              fl.round 2 (fmin (of_nat 1) (fl.dec 60 2 ⊕ power ⊗ fl.dec 1 1 ⊕ streak ⊗ fl.dec 5 2));
          raw_score = fl.round 1 (power ⊗ of_nat 25);
          entry_low = at_ratio c 99 2;
          entry_high = at_ratio c 1015 3;
          max_chase = at_ratio c 1025 3;
          stop_price = fl.round 0 (c ⊖ fl.dec 14 1 ⊗ atr);
          target_prices = above c 20 atr ∷ above c 36 atr ∷ [];
          time_stop_sessions = 5;
          risk_flags = 0;
          family = unclassified;
        })

  -- `S09_SectorRotation.evaluate`.
  unfoldable pub rotation : Evaluation F
  rotation =
      let c = close_of ctx in
      let atr = atr_of ctx in
      propose (leads ctx.sector_name && (fl.dec 5 2 <f get_feature ctx ret_20d (of_nat 0)))
        (record {
          strategy_key = sector_rotation;
          vote = fl.dec 74 2;
          raw_score = of_nat 78;
          entry_low = at_ratio c 99 2;
          entry_high = at_ratio c 1015 3;
          max_chase = at_ratio c 1025 3;
          stop_price = fl.round 0 (c ⊖ fl.dec 15 1 ⊗ atr);
          target_prices = above c 20 atr ∷ above c 35 atr ∷ [];
          time_stop_sessions = 7;
          risk_flags = 0;
          family = unclassified;
        })

  -- The eight conditions of the confluence.
  abbrev pub confirmations : List Bool
  confirmations =
      let rsi = get_feature ctx rsi_14 (of_nat 50) in
      (fl.dec 75 2 ≤f get_feature ctx ema_trend_score (of_nat 0))
      ∷ ((of_nat 50 <f rsi) && (rsi <f of_nat 70))
      ∷ (of_nat 0 <f get_feature ctx macd_hist (of_nat 0))
      ∷ feq (get_feature ctx supertrend_direction (of_nat 0)) (of_nat 1)
      ∷ (of_nat 50 <f get_feature ctx mfi_14 (of_nat 50))
      ∷ (of_nat 0 <f get_feature ctx obv_slope_20d (of_nat 0))
      ∷ (fl.dec 12 1 <f get_feature ctx real_buyer_power_ratio (of_nat 1))
      ∷ feq (get_feature ctx ichimoku_above_cloud (of_nat 0)) (of_nat 1)
      ∷ []

  -- `S11_MultiIndicatorConfluence.evaluate`.
  unfoldable pub confluence : Evaluation F
  confluence =
      let count = count_true confirmations in
      let c = close_of ctx in
      let atr = atr_of ctx in
      propose (leb 5 count) (record {
        strategy_key = multi_indicator_confluence;
        vote = fl.round 2 (fmin (of_nat 1) (fl.dec 4 1 ⊕ of_nat count ⊗ fl.dec 8 2));
        raw_score = of_nat count;
        entry_low = at_ratio c 99 2;
        entry_high = at_ratio c 101 2;
        max_chase = at_ratio c 102 2;
        stop_price = fl.round 0 (c ⊖ fl.dec 15 1 ⊗ atr);
        target_prices = above c 25 atr ∷ above c 40 atr ∷ [];
        time_stop_sessions = 6;
        risk_flags = 0;
        family = unclassified;
      })

  -- `S12_SmartMoneyDivergence.evaluate`.
  unfoldable pub divergence : Evaluation F
  divergence =
      let power = get_feature ctx real_buyer_power_ratio (of_nat 1) in
      let c = close_of ctx in
      let atr = atr_of ctx in
      propose
        ((get_feature ctx ret_5d (of_nat 0) <f fl.neg (fl.dec 3 2))
          && (of_nat 45 <f get_feature ctx mfi_14 (of_nat 50))
          && (of_nat 0 <f get_feature ctx obv_slope_20d (of_nat 0))
          && (fl.dec 13 1 <f power)
          && (get_feature ctx channel_pos_20d (fl.dec 5 1) <f fl.dec 3 1))
        (record {
          strategy_key = smart_money_divergence;
          vote = fl.round 2 (fmin (of_nat 1) (fl.dec 5 1 ⊕ power ⊗ fl.dec 15 2));
          raw_score = fl.round 2 power;
          entry_low = at_ratio c 99 2;
          entry_high = at_ratio c 101 2;
          max_chase = at_ratio c 102 2;
          stop_price = fl.round 0 (c ⊖ of_nat 2 ⊗ atr);
          target_prices = above c 20 atr ∷ above c 40 atr ∷ [];
          time_stop_sessions = 10;
          risk_flags = 0;
          family = unclassified;
        })
