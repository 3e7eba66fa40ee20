-- ===== src/Strategies/Votes.antt =====
-- The votes of the strategies: each is between 0 and 1, and the registry asks each strategy once.
use iran_market_radar.Base.{ℕ, ◌≤◌, ◌≡◌, refl, Bool, true, false, arith, by_if}
use iran_market_radar.Float.{
  Float, IsOrdered, IsArithmetic, ◌⊕◌, ◌⊗◌, ◌≤f◌, ◌<f◌, of_nat, fmin, fmin-le_left,
}
use iran_market_radar.Strategies.{
  Key, cross_sectional_momentum, time_series_trend, breakout_volume, trend_pullback,
  selective_mean_reversion, volume_anomaly, client_flow, ichimoku_cloud_trend, sector_rotation,
  bb_squeeze_breakout, multi_indicator_confluence, smart_money_divergence, StrategyContext,
  CandidateResult, Evaluation, raised, nothing, found, propose, only_if, raise_if,
  real_accumulation_streak, get_feature,
}
use iran_market_radar.Strategies.Trend.{momentum, trend, pullback, ichimoku}
use iran_market_radar.Strategies.Volume.{breakout, volume, squeeze, reversion}
use iran_market_radar.Strategies.Flow.{accumulation, rotation, confluence, divergence}

module _ {F : Type 0} ⦃fl : Float F⦄ where
  abbrev pub IsVote : F → Type 0
  IsVote x = ((of_nat 0 ≤f x) ≡ true) × ((x ≤f of_nat 1) ≡ true)

  -- An evaluation of the strategy `key`.
  pub data Answers (key : Key) : Evaluation F → Type 0 where
    raises : Answers key raised
    silent : Answers key nothing
    votes : (c : CandidateResult F) → c.strategy_key ≡ key → IsVote c.vote → Answers key (found c)

  propose-Answers :
      (key : Key) (holds : Bool) (c : CandidateResult F)
      → (holds ≡ true → (c.strategy_key ≡ key) × IsVote c.vote)
      → Answers key (propose holds c)
  unfolding propose
  propose-Answers key true c h = votes c (h refl).0 (h refl).1
  propose-Answers key false c h = silent

  only_if-Answers :
      (key : Key) (holds : Bool) (e : Evaluation F) → Answers key e → Answers key (only_if holds e)
  unfolding only_if
  only_if-Answers key true e a = a
  only_if-Answers key false e a = silent

  raise_if-Answers :
      (key : Key) (zero : Bool) (e : Evaluation F) → Answers key e → Answers key (raise_if zero e)
  unfolding raise_if
  raise_if-Answers key true e a = raises
  raise_if-Answers key false e a = a

  module _ (order : IsOrdered F) (laws : IsArithmetic F) where
    le_of_lt : (x y : F) → (x <f y) ≡ true → (x ≤f y) ≡ true
    le_of_lt x y h = ground (arith, order.le_total x y)

    above_zero : (m k : ℕ) (x : F) → (fl.dec m k <f x) ≡ true → (of_nat 0 ≤f x) ≡ true
    above_zero m k x h = order.le_trans _ _ _ (laws.dec_nonneg m k) (le_of_lt _ _ h)

    from_zero : (m k : ℕ) (x : F) → (fl.dec m k ≤f x) ≡ true → (of_nat 0 ≤f x) ≡ true
    from_zero m k x h = order.le_trans _ _ _ (laws.dec_nonneg m k) h

    fmin-IsVote : (x : F) → (of_nat 0 ≤f x) ≡ true → IsVote (fl.round 2 (fmin (of_nat 1) x))
    fmin-IsVote x h =
        laws.round_unit (fmin (of_nat 1) x)
          (by_if (λ (y : F). (of_nat 0 ≤f y) ≡ true) (x <f of_nat 1) (λ _. h)
            (λ _. laws.nat_nonneg 1))
          (fmin-le_left order (of_nat 1) x)

    literal-IsVote : (m : ℕ) → m ≤ 100 → IsVote (fl.dec m 2)
    literal-IsVote m h = (laws.dec_nonneg m 2, laws.hundredths m h)

    -- `0.5 + x * 0.1`
    sum_nonneg :
        (m k : ℕ) (x y : F)
        → (of_nat 0 ≤f x) ≡ true
        → (of_nat 0 ≤f y) ≡ true
        → (of_nat 0 ≤f fl.dec m k ⊕ x ⊗ y) ≡ true
    sum_nonneg m k x y h l = laws.add_nonneg _ _ (laws.dec_nonneg m k) (laws.mul_nonneg x y h l)

    module _ (ctx : StrategyContext F) where
      pub momentum-Answers : Answers cross_sectional_momentum (momentum ctx)
      unfolding momentum
      momentum-Answers = propose-Answers _ _ _ (λ h. (
        refl,
        fmin-IsVote _ (sum_nonneg 5 1 _ _ (above_zero 4 2 _ (ground arith)) (laws.nat_nonneg 2)),
      ))

      pub trend-Answers : Answers time_series_trend (trend ctx)
      unfolding trend
      trend-Answers = propose-Answers _ _ _ (λ h. (
        refl,
        by_if IsVote _ (λ _. literal-IsVote 80 (omega arith))
            (λ _. literal-IsVote 65 (omega arith)),
      ))

      pub pullback-Answers : Answers trend_pullback (pullback ctx)
      unfolding pullback
      pullback-Answers = only_if-Answers _ _ _ (
          raise_if-Answers _ _ _
            (propose-Answers _ _ _ (λ h. (refl, literal-IsVote 72 (omega arith)))))

      pub ichimoku-Answers : Answers ichimoku_cloud_trend (ichimoku ctx)
      unfolding ichimoku
      ichimoku-Answers = propose-Answers _ _ _ (λ h. (
        refl,
        fmin-IsVote _ (
            sum_nonneg 5 1 _ _ (laws.sub_nonneg _ _ (le_of_lt _ _ (ground arith)))
              (laws.dec_nonneg 1 2)),
      ))

      pub breakout-Answers : Answers breakout_volume (breakout ctx)
      unfolding breakout
      breakout-Answers = propose-Answers _ _ _ (λ h. (
        refl,
        fmin-IsVote _ (sum_nonneg 6 1 _ _ (from_zero 14 1 _ (ground arith)) (laws.dec_nonneg 1 1)),
      ))

      pub volume-Answers : Answers volume_anomaly (volume ctx)
      unfolding volume
      volume-Answers = propose-Answers _ _ _ (λ h. (
        refl,
        fmin-IsVote _ (
            sum_nonneg 65 2 _ _ (order.le_trans _ _ _ (laws.nat_nonneg 2) (ground arith))
              (laws.dec_nonneg 5 2)),
      ))

      pub squeeze-Answers : Answers bb_squeeze_breakout (squeeze ctx)
      unfolding squeeze
      squeeze-Answers = propose-Answers _ _ _ (λ h. (
        refl,
        fmin-IsVote _
            (sum_nonneg 55 2 _ _ (above_zero 15 1 _ (ground arith)) (laws.dec_nonneg 1 1)),
      ))

      pub reversion-Answers : Answers selective_mean_reversion (reversion ctx)
      unfolding reversion
      reversion-Answers =
          only_if-Answers _ _ _
            (propose-Answers _ _ _ (λ h. (refl, literal-IsVote 64 (omega arith))))

      pub accumulation-Answers :
          (of_nat 0 ≤f get_feature ctx real_accumulation_streak (of_nat 0)) ≡ true
          → Answers client_flow (accumulation ctx)
      unfolding accumulation
      accumulation-Answers s = propose-Answers _ _ _ (λ h. (
        refl,
        fmin-IsVote _ (
            laws.add_nonneg _ _
              (sum_nonneg 60 2 _ _ (from_zero 135 2 _ (ground arith)) (laws.dec_nonneg 1 1))
              (laws.mul_nonneg _ _ s (laws.dec_nonneg 5 2))),
      ))

      pub rotation-Answers : Answers sector_rotation (rotation ctx)
      unfolding rotation
      rotation-Answers = propose-Answers _ _ _ (λ h. (refl, literal-IsVote 74 (omega arith)))

      pub confluence-Answers : Answers multi_indicator_confluence (confluence ctx)
      unfolding confluence
      confluence-Answers = propose-Answers _ _ _ (λ h.
          (refl, fmin-IsVote _ (sum_nonneg 4 1 _ _ (laws.nat_nonneg _) (laws.dec_nonneg 8 2))))

      pub divergence-Answers : Answers smart_money_divergence (divergence ctx)
      unfolding divergence
      divergence-Answers = propose-Answers _ _ _ (λ h. (
        refl,
        fmin-IsVote _
            (sum_nonneg 5 1 _ _ (above_zero 13 1 _ (ground arith)) (laws.dec_nonneg 15 2)),
      ))
