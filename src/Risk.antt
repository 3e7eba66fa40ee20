-- ===== src/Risk.antt =====
-- packages/domain/risk_policy.py: the risk policy, of which the limits that the code reads are kept.
use iran_market_radar.Base.{ℕ}
use iran_market_radar.Float.{Float, of_nat}
use iran_market_radar.Domain.{Regime, risk_on, neutral, risk_off, halted, other_regime}

pub record RegimeConfig (F : Type 0) : Type 0 where
  pub max_gross_exposure_pct : F
  pub min_cash_reserve_pct : F
  pub risk_per_trade_pct : F

pub record PortfolioRiskLimits (F : Type 0) : Type 0 where
  pub max_active_positions : ℕ
  pub normal_max_position_weight_pct : F
  pub exceptional_max_position_weight_pct : F
  pub sector_exposure_cap_pct : F
  pub correlation_haircut_threshold : F
  pub correlation_size_multiplier : F
  pub max_total_open_risk_pct : F
  pub max_new_notional_exposure_per_day_pct : F
  pub max_adtv_20d_participation_pct : F

pub record DrawdownLadder (F : Type 0) : Type 0 where
  pub dd_warning_pct : F
  pub dd_moderate_pct : F
  pub dd_defensive_pct : F
  pub dd_kill_switch_pct : F

-- Rules in units of the initial risk, R.
pub record ExitManagementConfig (F : Type 0) : Type 0 where
  pub scale_in_min_r : F
  pub scale_in_max_r : F
  pub trim_at_r : F
  pub trim_fraction : F
  pub breakeven_trigger_r : F
  pub lock_half_r_trigger_r : F
  pub lock_one_r_trigger_r : F

pub record RiskPolicy (F : Type 0) : Type 0 where
  pub regimes : Regime → RegimeConfig F
  pub portfolio_limits : PortfolioRiskLimits F
  pub drawdown_ladder : DrawdownLadder F
  pub max_chase_r : F
  pub exit_management : ExitManagementConfig F

module _ {F : Type 0} ⦃fl : Float F⦄ where
  abbrev pub regime_config : ℕ → ℕ → ℕ → RegimeConfig F
  regime_config exposure reserve risk = record {
    max_gross_exposure_pct = of_nat exposure;
    min_cash_reserve_pct = of_nat reserve;
    risk_per_trade_pct = fl.dec risk 2;
  }

  -- A regime that the policy does not name is read as `RISK_ON`.
  abbrev pub active_regimes : Regime → RegimeConfig F
  active_regimes risk_on = regime_config 70 30 35
  active_regimes neutral = regime_config 50 50 25
  active_regimes risk_off = regime_config 25 75 15
  active_regimes halted = regime_config 0 100 0
  active_regimes other_regime = regime_config 70 30 35

  abbrev pub active_risk_policy : RiskPolicy F
  active_risk_policy = record {
    regimes = active_regimes;
    portfolio_limits = record {
      max_active_positions = 10;
      normal_max_position_weight_pct = of_nat 8;
      exceptional_max_position_weight_pct = of_nat 10;
      sector_exposure_cap_pct = of_nat 18;
      correlation_haircut_threshold = fl.dec 70 2;
      correlation_size_multiplier = fl.dec 50 2;
      max_total_open_risk_pct = fl.dec 250 2;
      max_new_notional_exposure_per_day_pct = of_nat 15;
      max_adtv_20d_participation_pct = of_nat 5;
    };
    drawdown_ladder = record {
      dd_warning_pct = of_nat 4;
      dd_moderate_pct = of_nat 6;
      dd_defensive_pct = of_nat 8;
      dd_kill_switch_pct = of_nat 12;
    };
    max_chase_r = fl.dec 35 2;
    exit_management = record {
      scale_in_min_r = fl.dec 50 2;
      scale_in_max_r = fl.dec 100 2;
      trim_at_r = fl.dec 200 2;
      trim_fraction = fl.dec 25 2;
      breakeven_trigger_r = fl.dec 100 2;
      lock_half_r_trigger_r = fl.dec 200 2;
      lock_one_r_trigger_r = fl.dec 300 2;
    };
  }
