-- ===== src/Sizing.antt =====
-- services/paper_broker/sizing.py, `PositionSizingSolver.solve`: the size of a purchase under the
-- limits of the risk policy, and the decision. `none` is an exception: a division by zero, or the
-- first of no targets.
pub mod Solve
pub mod Capacity
mod Tests
use iran_market_radar.Base.{
  ℕ, ◌+◌, Bool, true, false, ◌||◌, Option, none, some, List, [], ◌∷◌, map, keep, length, ltb, leb,
  ◌==◌, if◌then◌else◌, or_else,
}
use iran_market_radar.Base.Int.{ℤ, pos_part}
use iran_market_radar.Float.{Float, ◌⊕◌, ◌⊖◌, ◌⊗◌, ◌⊘◌, ◌≤f◌, ◌<f◌, feq, of_nat, fmax, fmin, fsum}
use iran_market_radar.Domain.{Portfolio, Position, PublishedSignal}
use iran_market_radar.Risk.{RiskPolicy}

pub data SizingDecision : Type 0 where
  approved blocked wait_chase blocked_risk blocked_sector : SizingDecision

-- Of the ticket, the entries that the decision and the broker rest on.
pub record PreTradeRiskTicket (F : Type 0) : Type 0 where
  pub decision : SizingDecision
  pub planned_entry : F
  pub stop_price : F
  pub target1_price : F
  pub target2_price : F
  pub portfolio_nav_rials : F
  pub risk_budget_rials : F
  pub risk_pct_nav : F
  pub recommended_position_rials : F
  pub recommended_quantity : ℤ
  pub stage1_quantity : ℤ
  pub stage2_quantity : ℤ
  pub stage3_quantity : ℤ
  pub sector_exposure_after_trade_pct : F
  pub total_open_risk_after_trade_pct : F
  pub is_kill_switch_active : Bool

-- The arguments of `solve` besides the portfolio and the signal.
pub record Request (F : Type 0) : Type 0 where
  pub current_market_price : F
  pub adtv_20d_rials : F
  pub sector_name : Option ℕ
  pub rolling_correlations : List F
  pub daily_already_allocated_notional_rials : F
  pub hwm_nav_rials : Option F

pub record Ladder (F : Type 0) : Type 0 where
  pub hard_kill : Bool
  pub risk_trade_pct : F
  pub max_gross_exposure_pct : F

-- The seven limits on the value of a position.
pub record Capacities (F : Type 0) : Type 0 where
  pub by_risk : F
  pub by_symbol : F
  pub by_sector : F
  pub by_liquidity : F
  pub by_cash : F
  pub by_exposure : F
  pub by_day : F

-- What the limits and the decision are computed from.
pub record Situation (F : Type 0) : Type 0 where
  pub nav : F
  pub cash : F
  pub opened : List (Position F)
  pub ladder : Ladder F
  pub entry_price : F
  pub stop : F
  pub price : F

abbrev pub is_none {ℓ} : {A : Type ℓ} → Option A → Bool
is_none none = true
is_none (some a) = false

module _ {F : Type 0} ⦃fl : Float F⦄ where
  -- `a / b`, which raises on zero.
  abbrev pub divide : F → F → Option F
  divide a b = if feq b (of_nat 0) then none else some (a ⊘ b)

  abbrev pub market_value : List (Position F) → F
  market_value ps = fsum (map (λ p. of_nat p.quantity ⊗ p.current_price) ps)

  abbrev pub open_positions : List (Position F) → List (Position F)
  open_positions ps = keep (λ p. p.is_open) ps

  abbrev pub hwm_or : F → Option F → F
  hwm_or nav none = nav
  hwm_or nav (some h) = if feq h (of_nat 0) then nav else h

  unfoldable pub drawdown_pct : F → Option F → F → F
  drawdown_pct nav hwm_nav initial =
      let hwm = fmax (fmax nav (hwm_or nav hwm_nav)) initial in
      if of_nat 0 <f hwm then (hwm ⊖ nav) ⊘ hwm ⊗ of_nat 100 else of_nat 0

  -- The drawdown ladder.
  unfoldable pub drawdown_limits : RiskPolicy F → Bool → F → F → F → Ladder F
  drawdown_limits policy kill risk exposure drawdown =
      let steps = policy.drawdown_ladder in
      if steps.dd_kill_switch_pct ≤f drawdown
      then record { hard_kill = true; risk_trade_pct = of_nat 0; max_gross_exposure_pct = of_nat 0 }
      else if steps.dd_defensive_pct ≤f drawdown
      then record {
        hard_kill = kill;
        risk_trade_pct = of_nat 0;
        max_gross_exposure_pct = fmin exposure (of_nat 20);
      }
      else if steps.dd_moderate_pct ≤f drawdown
      then record {
        hard_kill = kill;
        risk_trade_pct = risk ⊗ fl.dec 50 2;
        max_gross_exposure_pct = fmin exposure (of_nat 35);
      }
      else if steps.dd_warning_pct ≤f drawdown
      then record {
        hard_kill = kill;
        risk_trade_pct = risk ⊗ fl.dec 75 2;
        max_gross_exposure_pct = exposure;
      }
      else record { hard_kill = kill; risk_trade_pct = risk; max_gross_exposure_pct = exposure }

  -- The two targets: of the plan, or multiples of the entry; an empty list of targets raises.
  abbrev pub target_prices : F → Option (List F) → Option (F × F)
  target_prices entry none = some (entry ⊗ fl.dec 1075 3, entry ⊗ fl.dec 1075 3 ⊗ fl.dec 1065 3)
  target_prices entry (some []) = none
  target_prices entry (some (t ∷ [])) = some (t, t ⊗ fl.dec 1065 3)
  target_prices entry (some (t ∷ (u ∷ us))) = some (t, u)

  -- `float(TSE_EQUITY_FEES.buy_fee_rate)`, and the sale's two rates.
  abbrev pub buy_fee_rate : F
  buy_fee_rate = fl.dec 3712 6

  abbrev pub sell_fee_rates : F
  sell_fee_rates = fl.dec 3850 6 ⊕ fl.dec 5000 6

  abbrev pub max_of : F → List F → F
  max_of acc [] = acc
  max_of acc (x ∷ xs) = max_of (fmax acc x) xs

  abbrev pub correlation_multiplier : RiskPolicy F → List F → F
  correlation_multiplier policy [] = of_nat 1
  correlation_multiplier policy (c ∷ cs) =
      if policy.portfolio_limits.correlation_haircut_threshold ≤f max_of c cs
      then policy.portfolio_limits.correlation_size_multiplier
      else of_nat 1

  -- `getattr(p, "sector", None) == sector_name`: the row of a position has no sector.
  unfoldable pub sector_exposure : Option ℕ → List (Position F) → F
  sector_exposure sector opened = market_value (keep (λ p. is_none sector) opened)

  unfoldable pub final_position : Capacities F → F
  final_position c =
      fmin
        (fmin (fmin (fmin (fmin (fmin c.by_risk c.by_symbol) c.by_sector) c.by_liquidity) c.by_cash)
          c.by_exposure)
        c.by_day
