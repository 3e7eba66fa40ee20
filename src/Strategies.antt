-- ===== src/Strategies.antt =====
-- packages/strategies: what a strategy reads and what it answers. Features are a dictionary, read by
-- name with a default; texts are left out. Values are numbers other than NaN and the infinities, on
-- which `round` would raise.
pub mod Trend
pub mod Volume
pub mod Flow
pub mod Registry
pub mod Votes
pub mod Candidates
mod Tests
use iran_market_radar.Base.{ℕ, Bool, Option, List, [], ◌∷◌, or_else, if◌then◌else◌}
use iran_market_radar.Float.{Float, ◌⊗◌, ◌⊕◌, of_nat}
use iran_market_radar.Scorer.{Family, unclassified}
use iran_market_radar.Regime.{RegimeLabel}

pub data Key : Type 0 where
  cross_sectional_momentum time_series_trend breakout_volume trend_pullback : Key
  selective_mean_reversion volume_anomaly client_flow ichimoku_cloud_trend : Key
  sector_rotation bb_squeeze_breakout multi_indicator_confluence smart_money_divergence : Key

pub data Feature : Type 0 where
  close atr_14 ret_1d ret_3d ret_5d ret_20d ret_60d ema_20 ema_trend_score : Feature
  dist_to_20_high vol_z_score_20d volume_ratio_20d channel_pos_20d : Feature
  real_buyer_power_ratio net_real_inflow_pct real_accumulation_streak : Feature
  ichimoku_above_cloud ichimoku_tenkan ichimoku_kijun adx_14 bb_squeeze : Feature
  supertrend_direction rsi_14 macd_hist mfi_14 obv_slope_20d : Feature

-- The three sectors that the rotation looks for, and any other text.
pub data Sector : Type 0 where
  basic_metals chemicals metal_ores other_sector : Sector

pub data Horizon : Type 0 where
  days_3 days_5 days_10 other_horizon : Horizon

pub record StrategyContext (F : Type 0) : Type 0 where
  pub sector_name : Option Sector
  pub horizon : Horizon
  pub features : Feature → Option F
  pub market_regime : RegimeLabel

pub record CandidateResult (F : Type 0) : Type 0 where
  pub strategy_key : Key
  pub vote : F
  pub raw_score : F
  pub entry_low : F
  pub entry_high : F
  pub max_chase : F
  pub stop_price : F
  pub target_prices : List F
  pub time_stop_sessions : ℕ
  pub risk_flags : ℕ
  pub family : Family

-- `evaluate` raises, answers `None`, or answers a candidate.
pub data Evaluation (F : Type 0) : Type 0 where
  raised nothing : Evaluation F
  found : CandidateResult F → Evaluation F

module _ {F : Type 0} where
  -- The candidate, if the conditions hold.
  unfoldable pub propose : Bool → CandidateResult F → Evaluation F
  propose holds c = if holds then found c else nothing

  -- The rest of `evaluate`, if the condition holds.
  unfoldable pub only_if : Bool → Evaluation F → Evaluation F
  only_if holds e = if holds then e else nothing

  -- A division whose divisor may be zero, before the rest.
  unfoldable pub raise_if : Bool → Evaluation F → Evaluation F
  raise_if zero e = if zero then raised else e

module _ {F : Type 0} ⦃fl : Float F⦄ where
  -- `f.get(key, default)`.
  abbrev pub get_feature : StrategyContext F → Feature → F → F
  get_feature ctx key default = or_else (ctx.features key) default

  abbrev pub close_of : StrategyContext F → F
  close_of ctx = get_feature ctx close (of_nat 0)

  abbrev pub atr_of : StrategyContext F → F
  atr_of ctx = get_feature ctx atr_14 (close_of ctx ⊗ fl.dec 2 2)

  -- `round(close * 0.995)` for the literal m / 10^k.
  abbrev pub at_ratio : F → ℕ → ℕ → F
  at_ratio price m k = fl.round 0 (price ⊗ fl.dec m k)

  -- `round(close + 2.5 * atr)` for the literal in tenths.
  abbrev pub above : F → ℕ → F → F
  above price tenths atr = fl.round 0 (price ⊕ fl.dec tenths 1 ⊗ atr)
