-- ===== src/Sizing/Solve.antt =====
-- services/paper_broker/sizing.py, `PositionSizingSolver.solve`: from the portfolio to the ticket.
use iran_market_radar.Base.{
  ◌||◌, Option, none, some, List, map, length, leb, ◌==◌, if◌then◌else◌, or_else,
}
use iran_market_radar.Base.Int.{ℤ, pos, pos_part}
use iran_market_radar.Float.{
  Float, divided, int_of, ◌⊕◌, ◌⊖◌, ◌⊗◌, ◌⊘◌, ◌≤f◌, ◌<f◌, feq, of_nat, fmax, fsum,
}
use iran_market_radar.Domain.{Portfolio, Position, PublishedSignal}
use iran_market_radar.Risk.{RiskPolicy}
use iran_market_radar.Sizing.{
  SizingDecision, approved, blocked, wait_chase, blocked_risk, blocked_sector, PreTradeRiskTicket,
  Request, Capacities, Situation, market_value, open_positions, drawdown_pct, drawdown_limits,
  target_prices, buy_fee_rate, sell_fee_rates, correlation_multiplier, sector_exposure,
  final_position,
}

module _ {F : Type 0} ⦃fl : Float F⦄ where
  unfoldable pub situation :
      RiskPolicy F → Portfolio F → List (Position F) → PublishedSignal F → Request F → Situation F
  situation policy portfolio positions signal req =
      let opened = open_positions positions in
      let nav = portfolio.cash ⊕ market_value opened in
      let cfg = policy.regimes signal.regime in
      let entry = or_else signal.entry_low req.current_market_price in
      record {
        nav = nav;
        cash = portfolio.cash;
        opened = opened;
        ladder =
            drawdown_limits policy portfolio.kill_switch_active cfg.risk_per_trade_pct
              cfg.max_gross_exposure_pct
              (drawdown_pct nav req.hwm_nav_rials portfolio.initial_cash);
        entry_price = entry;
        stop = or_else signal.invalidation_price (entry ⊗ fl.dec 95 2);
        price = req.current_market_price;
      }

  abbrev pub percent_of : F → F → F
  percent_of whole pct = whole ⊗ (pct ⊘ of_nat 100)

  abbrev pub initial_risk_rials : Situation F → F
  initial_risk_rials s = fmax (of_nat 1) (s.entry_price ⊖ s.stop)

  abbrev pub effective_loss_pct : Situation F → F
  effective_loss_pct s =
      initial_risk_rials s ⊘ s.entry_price
      ⊕ (buy_fee_rate ⊕ sell_fee_rates ⊕ fl.dec 40 4 ⊕ fl.dec 50 4)

  unfoldable pub available_cash_of : RiskPolicy F → PublishedSignal F → Situation F → F
  available_cash_of policy signal s =
      fmax (of_nat 0)
        (s.cash ⊖ percent_of s.nav (policy.regimes signal.regime).min_cash_reserve_pct)

  unfoldable pub capacities :
      RiskPolicy F → PublishedSignal F → Request F → Situation F → Capacities F
  capacities policy signal req s =
      let limits = policy.portfolio_limits in
      let loss = effective_loss_pct s in
      let budget = percent_of s.nav s.ladder.risk_trade_pct in
      let weight =
        if fl.dec 500_000_000_000 0 ≤f req.adtv_20d_rials
        then limits.exceptional_max_position_weight_pct
        else limits.normal_max_position_weight_pct in
      record {
        by_risk =
            (if of_nat 0 <f loss then budget ⊘ loss else of_nat 0)
            ⊗ correlation_multiplier policy req.rolling_correlations;
        by_symbol = percent_of s.nav weight;
        by_sector = fmax (of_nat 0) (
            percent_of s.nav limits.sector_exposure_cap_pct
            ⊖ sector_exposure req.sector_name s.opened);
        by_liquidity = percent_of req.adtv_20d_rials limits.max_adtv_20d_participation_pct;
        by_cash = available_cash_of policy signal s ⊘ (of_nat 1 ⊕ buy_fee_rate);
        by_exposure =
            fmax (of_nat 0)
              (percent_of s.nav s.ladder.max_gross_exposure_pct ⊖ market_value s.opened);
        by_day = fmax (of_nat 0) (
            percent_of s.nav limits.max_new_notional_exposure_per_day_pct
            ⊖ req.daily_already_allocated_notional_rials);
      }

  -- `none` is an exception.
  unfoldable pub final_quantity : F → F → Option ℤ
  final_quantity value price = if of_nat 0 <f price then int_of (value ⊘ price) else some (pos 0)

  abbrev pub stop_or : Option F → F → F
  stop_or none d = d
  stop_or (some s) d = if feq s (of_nat 0) then d else s

  abbrev pub open_risk : Position F → F
  open_risk p =
      (p.average_entry_price ⊖ stop_or p.stop_loss (p.average_entry_price ⊗ fl.dec 95 2))
      ⊗ of_nat p.quantity

  unfoldable pub open_risk_after_pct : Situation F → ℤ → F
  open_risk_after_pct s qty =
      if of_nat 0 <f s.nav
      then (fsum (map open_risk s.opened) ⊕ initial_risk_rials s ⊗ fl.of_int qty)
        ⊘ s.nav
        ⊗ of_nat 100
      else of_nat 0

  unfoldable pub sector_after_pct : Request F → Situation F → ℤ → F
  sector_after_pct req s qty =
      if of_nat 0 <f s.nav
      then (sector_exposure req.sector_name s.opened ⊕ fl.of_int qty ⊗ s.price) ⊘ s.nav ⊗ of_nat 100
      else of_nat 0

  -- How many initial risks the price has run from the planned entry.
  abbrev pub distance_from_entry_r : Situation F → F
  distance_from_entry_r s = (s.price ⊖ s.entry_price) ⊘ initial_risk_rials s

  unfoldable pub decide :
      RiskPolicy F → PublishedSignal F → Request F → Situation F → ℤ → SizingDecision
  decide policy signal req s qty =
      let limits = policy.portfolio_limits in
      if s.ladder.hard_kill
      then blocked
      else if leb limits.max_active_positions (length s.opened)
      then blocked
      else if policy.max_chase_r <f distance_from_entry_r s
      then wait_chase
      else if (pos_part qty == 0) || (available_cash_of policy signal s <f of_nat 50_000_000)
      then blocked
      else if limits.max_total_open_risk_pct <f open_risk_after_pct s qty
      then blocked_risk
      else if limits.sector_exposure_cap_pct <f sector_after_pct req s qty
      then blocked_sector
      else approved

  -- The divisor of the net reward to risk.
  abbrev pub net_risk : Situation F → F
  net_risk s = initial_risk_rials s ⊕ s.entry_price ⊗ (buy_fee_rate ⊕ sell_fee_rates ⊕ fl.dec 40 4)

  -- Its dividend.
  abbrev pub net_reward : Situation F → F × F → F
  net_reward s targets = fmax (of_nat 0) (
      fmax (of_nat 0) (targets.0 ⊖ s.entry_price)
      ⊖ s.entry_price ⊗ (buy_fee_rate ⊕ sell_fee_rates ⊕ fl.dec 40 4))

  abbrev pub ticket :
      RiskPolicy F → PublishedSignal F → Request F → Situation F → F × F → ℤ → PreTradeRiskTicket F
  ticket policy signal req s targets qty = record {
    decision = decide policy signal req s qty;
    planned_entry = s.entry_price;
    stop_price = s.stop;
    target1_price = targets.0;
    target2_price = targets.1;
    portfolio_nav_rials = s.nav;
    risk_budget_rials = percent_of s.nav s.ladder.risk_trade_pct;
    risk_pct_nav = s.ladder.risk_trade_pct;
    recommended_position_rials = fl.of_int qty ⊗ s.price;
    recommended_quantity = qty;
    stage1_quantity = fl.trunc (fl.of_int qty ⊗ fl.dec 40 2);
    stage2_quantity = fl.trunc (fl.of_int qty ⊗ fl.dec 35 2);
    stage3_quantity = fl.trunc (fl.of_int qty ⊗ fl.dec 25 2);
    sector_exposure_after_trade_pct = fl.round 2 (sector_after_pct req s qty);
    total_open_risk_after_trade_pct = fl.round 2 (open_risk_after_pct s qty);
    is_kill_switch_active = s.ladder.hard_kill;
  }

  -- `none` is an exception: of the targets of the plan, of a division, or of `int`.
  unfoldable pub solve :
      RiskPolicy F
      → Portfolio F
      → List (Position F)
      → PublishedSignal F
      → Request F
      → Option (PreTradeRiskTicket F)
  solve policy portfolio positions signal req =
      let s = situation policy portfolio positions signal req in
      elim (target_prices s.entry_price signal.targets) [
        | none ↦ none
        | some targets ↦ elim (divided (initial_risk_rials s) s.entry_price) [
          | none ↦ none
          | some stop_distance ↦
              elim (final_quantity (final_position (capacities policy signal req s)) s.price) [
                | none ↦ none
                | some qty ↦ elim (divided (initial_risk_rials s ⊗ fl.of_int qty) s.nav) [
                  | none ↦ none
                  | some new_risk ↦ elim (divided (net_reward s targets) (net_risk s)) [
                    | none ↦ none
                    | some net_rr ↦ some (ticket policy signal req s targets qty)
                  ]
                ]
              ]
        ]
      ]
