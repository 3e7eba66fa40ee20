-- ===== src/Sizing/Capacity.antt =====
-- What an approved ticket guarantees.
use mathlib.Core.Path.{subst}
use mathlib.Core.Option.{none-ne-some, some-injective}
use iran_market_radar.Base.{
  sym, ap, ◌∙◌, by_option, ◌≤◌, ◌<◌, ◌≡◌, refl, Bool, true, false, Option, none, some, List, length,
  arith,
}
use iran_market_radar.Base.Int.{ℤ, pos_part}
use iran_market_radar.Float.{
  Float, ◌⊗◌, divided, IsOrdered, of_nat, fmin, fmin-le_left, fmin-le_right,
}
use iran_market_radar.Domain.{Portfolio, Position, PublishedSignal}
use iran_market_radar.Risk.{RiskPolicy}
use iran_market_radar.Sizing.{
  approved, PreTradeRiskTicket, Request, Capacities, Situation, drawdown_pct, drawdown_limits,
  target_prices, final_position,
}
use iran_market_radar.Sizing.Solve.{
  situation, available_cash_of, capacities, final_quantity, open_risk_after_pct, sector_after_pct,
  distance_from_entry_r, initial_risk_rials, net_reward, decide, net_risk, ticket, solve,
}

module _ {F : Type 0} ⦃fl : Float F⦄ where
  -- A value within all seven limits.
  pub record Within (v : F) (c : Capacities F) : Type 0 where
    pub within_risk : fl.le v c.by_risk ≡ true
    pub within_symbol : fl.le v c.by_symbol ≡ true
    pub within_sector : fl.le v c.by_sector ≡ true
    pub within_liquidity : fl.le v c.by_liquidity ≡ true
    pub within_cash : fl.le v c.by_cash ≡ true
    pub within_exposure : fl.le v c.by_exposure ≡ true
    pub within_day : fl.le v c.by_day ≡ true

  module _ (laws : IsOrdered F) where
    under_left : (v a b : F) → fl.le v (fmin a b) ≡ true → fl.le v a ≡ true
    under_left v a b h = laws.le_trans v (fmin a b) a h (fmin-le_left laws a b)

    under_right : (v a b : F) → fl.le v (fmin a b) ≡ true → fl.le v b ≡ true
    under_right v a b h = laws.le_trans v (fmin a b) b h (fmin-le_right laws a b)

    final_position-Within : (c : Capacities F) → Within (final_position c) c
    unfolding final_position
    final_position-Within c =
        let v = final_position c in
        let days = fmin-le_left laws _ c.by_day in
        let exposure = under_left v _ c.by_exposure days in
        let cash = under_left v _ c.by_cash exposure in
        let liquidity = under_left v _ c.by_liquidity cash in
        let sector = under_left v _ c.by_sector liquidity in
        record {
          within_risk = under_left v c.by_risk c.by_symbol sector;
          within_symbol = under_right v c.by_risk c.by_symbol sector;
          within_sector = under_right v _ c.by_sector liquidity;
          within_liquidity = under_right v _ c.by_liquidity cash;
          within_cash = under_right v _ c.by_cash exposure;
          within_exposure = under_right v _ c.by_exposure days;
          within_day = fmin-le_right laws _ c.by_day;
        }

  -- The portfolio's own kill switch, or a drawdown at the last step, is a hard kill.
  drawdown_limits-kill :
      (policy : RiskPolicy F) (kill : Bool) (risk exposure drawdown : F)
      → (drawdown_limits policy kill risk exposure drawdown).hard_kill ≡ false
      → (kill ≡ false) × (fl.le policy.drawdown_ladder.dd_kill_switch_pct drawdown ≡ false)
  unfolding drawdown_limits
  drawdown_limits-kill policy kill risk exposure drawdown h = ground arith

  module _ (policy : RiskPolicy F) (signal : PublishedSignal F) (req : Request F) where
    decide-approved :
        (s : Situation F) (qty : ℤ)
        → decide policy signal req s qty ≡ approved
        → (s.ladder.hard_kill ≡ false)
          × (length s.opened < policy.portfolio_limits.max_active_positions)
          × (fl.le (distance_from_entry_r s) policy.max_chase_r ≡ true)
          × (1 ≤ pos_part qty)
          × (fl.le (of_nat 50_000_000) (available_cash_of policy signal s) ≡ true)
          × (fl.le (open_risk_after_pct s qty) policy.portfolio_limits.max_total_open_risk_pct
              ≡ true)
          × (fl.le (sector_after_pct req s qty) policy.portfolio_limits.sector_exposure_cap_pct
              ≡ true)
    unfolding decide
    decide-approved s qty h = ground arith

    solve-ticket :
        (portfolio : Portfolio F) (positions : List (Position F)) (t : PreTradeRiskTicket F)
        → let s = situation policy portfolio positions signal req in
          solve policy portfolio positions signal req ≡ some t
          → (targets : F × F) × (qty : ℤ) × (final_quantity
                (final_position (capacities policy signal req s))
                s.price
              ≡ some qty)
            × (t ≡ ticket policy signal req s targets qty)
    unfolding solve
    solve-ticket portfolio positions t =
        let s = situation policy portfolio positions signal req in
        let bought = final_quantity (final_position (capacities policy signal req s)) s.price in
        let Of = λ (o : Option (PreTradeRiskTicket F)).
          o ≡ some t
          → (targets : F × F) × (qty : ℤ) × (bought ≡ some qty)
            × (t ≡ ticket policy signal req s targets qty) in
        let raises : Of none = λ e. absurd (none-ne-some _ e) in
        by_option Of (target_prices s.entry_price signal.targets) (λ _. raises)
          (λ targets _.
            by_option Of (divided (initial_risk_rials s) s.entry_price) (λ _. raises)
              (λ _ _.
                by_option Of bought (λ _. raises)
                  (λ qty e.
                    by_option Of (divided (initial_risk_rials s ⊗ fl.of_int qty) s.nav)
                      (λ _. raises)
                      (λ _ _.
                        by_option Of (divided (net_reward s targets) (net_risk s)) (λ _. raises)
                          (λ _ _ h. (targets, qty, e, sym (some-injective _ _ h)))))))

  -- The situation's drawdown and kill switch.
  situation-kill :
      (policy : RiskPolicy F) (portfolio : Portfolio F) (positions : List (Position F))
      → (signal : PublishedSignal F) (req : Request F)
      → let s = situation policy portfolio positions signal req in
        s.ladder.hard_kill ≡ false
        → (portfolio.kill_switch_active ≡ false)
          × (fl.le policy.drawdown_ladder.dd_kill_switch_pct
                (drawdown_pct s.nav req.hwm_nav_rials portfolio.initial_cash)
              ≡ false)
  unfolding situation
  situation-kill policy portfolio positions signal req h =
      drawdown_limits-kill policy portfolio.kill_switch_active _ _ _ h

  -- What an approved ticket guarantees of the portfolio and of its quantity.
  pub record IsSafe (policy : RiskPolicy F) (portfolio : Portfolio F)
      (positions : List (Position F)) (signal : PublishedSignal F) (req : Request F)
      (t : PreTradeRiskTicket F) : Type 0 where
    pub now : Situation F
    pub now_is : now ≡ situation policy portfolio positions signal req
    pub value : F
    pub sized : final_quantity value now.price ≡ some t.recommended_quantity
    pub within : Within value (capacities policy signal req now)
    pub some_shares : 1 ≤ pos_part t.recommended_quantity
    pub no_kill_switch : portfolio.kill_switch_active ≡ false
    pub no_drawdown :
        fl.le policy.drawdown_ladder.dd_kill_switch_pct
          (drawdown_pct now.nav req.hwm_nav_rials portfolio.initial_cash)
        ≡ false
    pub room : length now.opened < policy.portfolio_limits.max_active_positions
    pub no_chase : fl.le (distance_from_entry_r now) policy.max_chase_r ≡ true
    pub cash_floor : fl.le (of_nat 50_000_000) (available_cash_of policy signal now) ≡ true
    pub open_risk :
        fl.le
          (open_risk_after_pct now t.recommended_quantity)
          policy.portfolio_limits.max_total_open_risk_pct
        ≡ true
    pub sector :
        fl.le
          (sector_after_pct req now t.recommended_quantity)
          policy.portfolio_limits.sector_exposure_cap_pct
        ≡ true

  -- An approved ticket is for at least one share; its quantity is what a value within all seven
  -- limits buys at the current price; the kill switch is off, the drawdown is below the last step of
  -- the ladder, there is room for a position, the price has not run too far from the entry, the cash
  -- beyond the reserve is fifty million rials or more, and the open risk and the exposure to the
  -- sector after it, as the solver counts them, are within their limits.
  pub solve-IsSafe :
      IsOrdered F
      → (policy : RiskPolicy F) (portfolio : Portfolio F) (positions : List (Position F))
      → (signal : PublishedSignal F) (req : Request F) (t : PreTradeRiskTicket F)
      → solve policy portfolio positions signal req ≡ some t
      → t.decision ≡ approved
      → IsSafe policy portfolio positions signal req t
  solve-IsSafe laws policy portfolio positions signal req t e d =
      let s = situation policy portfolio positions signal req in
      let c = capacities policy signal req s in
      let (targets, qty, bought, same) = solve-ticket policy signal req portfolio positions t e in
      let passed = decide-approved policy signal req s qty (sym (ap (λ x. x.decision) same) ∙ d) in
      let calm = situation-kill policy portfolio positions signal req passed.0 in
      let sized = ap (λ x. x.recommended_quantity) same in
      record {
        now = s;
        now_is = refl;
        value = final_position c;
        sized = bought ∙ ap some (sym sized);
        within = final_position-Within laws c;
        some_shares = subst (λ q. 1 ≤ pos_part q) (sym sized) passed.3;
        no_kill_switch = calm.0;
        no_drawdown = calm.1;
        room = passed.1;
        no_chase = passed.2;
        cash_floor = passed.4;
        open_risk =
            subst
              (λ q.
                fl.le (open_risk_after_pct s q) policy.portfolio_limits.max_total_open_risk_pct
                ≡ true)
              (sym sized) passed.5;
        sector =
            subst
              (λ q.
                fl.le (sector_after_pct req s q) policy.portfolio_limits.sector_exposure_cap_pct
                ≡ true)
              (sym sized) passed.6;
      }
