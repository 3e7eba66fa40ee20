-- ===== src/Trader/Entries.antt =====
-- `AutoPaperTrader.run_cycle`, steps 4 and 5: the purchases of the best opportunities, and the snapshot
-- of the portfolio with the drawdown that sets the kill switch.
use iran_market_radar.Base.{
  ℕ, ◌+◌, ◌-◌, Bool, true, Option, none, some, List, [], ◌∷◌, map, length, ◌==◌, if◌then◌else◌,
  keep,
}
use iran_market_radar.Float.{Float, ◌⊕◌, ◌⊖◌, ◌⊗◌, ◌⊘◌, ◌≤f◌, ◌<f◌, of_nat, fmax, fsum}
use iran_market_radar.Domain.{
  Position, Portfolio, BrokerOrder, PublishedSignal, MarketSnapshot, MarketDataBatch,
}
use iran_market_radar.Risk.{RiskPolicy}
use iran_market_radar.Execution.{min_nat}
use iran_market_radar.Trusted.{latest_trusted_market_snapshot}
use iran_market_radar.Ledger.Book.{position_value}
use iran_market_radar.Ledger.Orders.{Submission, accepted, refused, failed}
use iran_market_radar.Ledger.Orders.Purchase.{create_order_from_signal}
use iran_market_radar.Campaign.{PortfolioSnapshot}

-- An actionable signal with its instrument and its opportunity score.
pub record Opportunity (F : Type 0) : Type 0 where
  pub signal : PublishedSignal F
  pub instrument_id : ℕ
  pub opportunity_score : F

-- What the purchases read; `positions` and `orders` are the portfolio's, as loaded before.
pub record Market (F : Type 0) : Type 0 where
  pub policy : RiskPolicy F
  pub live_trading : Bool
  pub portfolio : Portfolio F
  pub positions : List (Position F)
  pub orders : List (BrokerOrder F)
  pub batches : List MarketDataBatch
  pub snapshots : List (MarketSnapshot F)
  pub now : ℕ
  pub stale : ℕ

abbrev pub take {ℓ} : {A : Type ℓ} → ℕ → List A → List A
take n [] = []
take n (x ∷ xs) = let rest = take (n - 1) xs in if n == 0 then [] else x ∷ rest

module _ {F : Type 0} where
  abbrev pub open_positions : List (Position F) → List (Position F)
  open_positions positions = keep (λ p. p.is_open) positions

  -- `max(0, min(3, max_active_positions - open_count))`.
  unfoldable pub max_new : RiskPolicy F → List (Position F) → ℕ
  max_new policy positions =
      min_nat 3 (policy.portfolio_limits.max_active_positions - length (open_positions positions))

module _ {F : Type 0} ⦃fl : Float F⦄ where
  -- `sort(key=opportunity_score, reverse=True)`, which keeps the order of equals.
  abbrev pub insert_by_score : Opportunity F → List (Opportunity F) → List (Opportunity F)
  insert_by_score x [] = x ∷ []
  insert_by_score x (y ∷ ys) =
      if y.opportunity_score ≤f x.opportunity_score then x ∷ y ∷ ys else y ∷ insert_by_score x ys

  abbrev pub sort_by_score : List (Opportunity F) → List (Opportunity F)
  sort_by_score [] = []
  sort_by_score (x ∷ xs) = insert_by_score x (sort_by_score xs)

  -- One purchase at the newest price; without a fresh one the loop goes on.
  unfoldable pub submit_entry : Market F → ℕ → Opportunity F → Submission F
  submit_entry m id x =
      elim (latest_trusted_market_snapshot m.batches m.snapshots m.now m.stale x.instrument_id) [
        | none ↦ refused iran_market_radar.Ledger.Orders.no_position
        | some s ↦
            create_order_from_signal m.policy m.live_trading id m.now m.portfolio m.positions
              m.orders x.signal s.last_price none
      ]

  abbrev pub add_entry :
      Submission F → Option (List (BrokerOrder F)) → Option (List (BrokerOrder F))
  add_entry failed rest = none
  add_entry (refused r) rest = rest
  add_entry (accepted o) none = none
  add_entry (accepted o) (some os) = some (o ∷ os)

  -- The orders of the loop; `none` is an exception of the solver.
  unfoldable pub submit_entries :
      Market F → ℕ → List (Opportunity F) → Option (List (BrokerOrder F))
  submit_entries m id [] = some []
  submit_entries m id (x ∷ xs) = add_entry (submit_entry m id x) (submit_entries m (id + 1) xs)

  unfoldable pub enter_best : Market F → ℕ → List (Opportunity F) → Option (List (BrokerOrder F))
  enter_best m id opportunities =
      submit_entries m id (take (max_new m.policy m.positions) (sort_by_score opportunities))

  abbrev pub positions_value : List (Position F) → F
  positions_value positions = fsum (map position_value (open_positions positions))

  -- `max(initial_cash, total_equity, recorded_peak or 0.0)`.
  abbrev pub peak_equity : Portfolio F → F → Option F → F
  peak_equity p equity none = fmax (fmax p.initial_cash equity) (of_nat 0)
  peak_equity p equity (some r) = fmax (fmax p.initial_cash equity) r

  unfoldable pub drawdown_of : F → F → F
  drawdown_of peak equity =
      if of_nat 0 <f peak then (peak ⊖ equity) ⊘ peak ⊗ of_nat 100 else of_nat 0

  abbrev pub max_equity : Option F → List (PortfolioSnapshot F) → Option F
  max_equity best [] = best
  max_equity none (s ∷ ss) = max_equity (some s.total_equity) ss
  max_equity (some b) (s ∷ ss) = max_equity (some (fmax b s.total_equity)) ss

  abbrev pub recorded_peak : Portfolio F → List (PortfolioSnapshot F) → Option F
  recorded_peak p snapshots = max_equity none (keep (λ s. s.portfolio_id == p.id) snapshots)

  abbrev pub drawdown_now : Portfolio F → List (Position F) → List (PortfolioSnapshot F) → F
  drawdown_now p positions snapshots =
      let equity = p.cash ⊕ positions_value positions in
      drawdown_of (peak_equity p equity (recorded_peak p snapshots)) equity

  -- The kill switch is set at the limit of the drawdown, and never cleared.
  unfoldable pub guard_drawdown :
      RiskPolicy F → ℕ → Portfolio F → List (Position F) → List (PortfolioSnapshot F) → Portfolio F
  guard_drawdown policy now p positions snapshots = record p {
    kill_switch_active =
        if policy.drawdown_ladder.dd_kill_switch_pct ≤f drawdown_now p positions snapshots
        then true
        else p.kill_switch_active;
    updated_at = now;
  }

  unfoldable pub snapshot_portfolio :
      ℕ → Portfolio F → List (Position F) → List (PortfolioSnapshot F) → PortfolioSnapshot F
  snapshot_portfolio now p positions snapshots = record {
    opening_of = none;
    portfolio_id = p.id;
    snapshot_at = now;
    cash = p.cash;
    positions_value = positions_value positions;
    total_equity = p.cash ⊕ positions_value positions;
    open_positions_count = length (open_positions positions);
    realized_pnl = p.realized_pnl;
    unrealized_pnl = fsum (map (λ q. q.unrealized_pnl) (open_positions positions));
    drawdown_pct = fl.round 2 (drawdown_now p positions snapshots);
  }
