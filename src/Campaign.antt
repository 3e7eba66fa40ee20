-- ===== src/Campaign.antt =====
-- services/paper_broker/campaign.py: the one active paper campaign, its portfolio and the snapshot of
-- its opening. A table is a list of rows; times are microseconds; an exception is an error value.
pub mod Opening
pub mod Resolution
pub mod Window
pub mod Tests
use iran_market_radar.Base.{
  ℕ, ◌+◌, ◌-◌, Bool, true, false, not, ◌&&◌, ◌||◌, Option, none, some, List, [], ◌∷◌, ◌++◌, length,
  keep, find, ltb, leb, ◌==◌, if◌then◌else◌,
}
use iran_market_radar.Float.{Float, ◌⊖◌, ◌<f◌, of_nat}
use iran_market_radar.Domain.{
  Portfolio, PaperCampaign, Position, BrokerOrder, PaperTradeLog, CashLedger, TransactionType,
  initial, buy_fill, sell_fill,
}
use iran_market_radar.Ledger.Book.{ClosedTradeHistory}
use iran_market_radar.Ledger.Pending.{is_active_status}

-- `opening_of` is the campaign whose identifier the row's identifier `snapshot_<id>_opening` holds.
pub record PortfolioSnapshot (F : Type 0) : Type 0 where
  pub opening_of : Option ℕ
  pub portfolio_id : ℕ
  pub snapshot_at : ℕ
  pub cash : F
  pub positions_value : F
  pub total_equity : F
  pub open_positions_count : ℕ
  pub realized_pnl : F
  pub unrealized_pnl : F
  pub drawdown_pct : F

pub record Db (F : Type 0) : Type 0 where
  pub campaigns : List (PaperCampaign F)
  pub portfolios : List (Portfolio F)
  pub snapshots : List (PortfolioSnapshot F)
  pub positions : List (Position F)
  pub orders : List (BrokerOrder F)
  pub trade_logs : List (PaperTradeLog F)
  pub closed_trades : List (ClosedTradeHistory F)
  pub cash_rows : List (CashLedger F)

-- The RuntimeErrors.
pub data CampaignError : Type 0 where
  identity_mismatch capital_mismatch missing_opening corrupted_opening later_snapshots :
      CampaignError
  not_pristine many_campaigns outside_window missing_portfolio ambiguous_portfolio : CampaignError

pub data Result (A : Type 0) : Type 0 where
  ok : A → Result A
  error : CampaignError → Result A

abbrev pub is_initial : TransactionType → Bool
is_initial initial = true
is_initial buy_fill = false
is_initial sell_fill = false

abbrev pub opens : ℕ → Option ℕ → Bool
opens campaign none = false
opens campaign (some id) = id == campaign

-- `count() > 0` of the rows of a portfolio.
abbrev pub any_of {ℓ} : {A : Type ℓ} → (A → ℕ) → ℕ → List A → Bool
any_of portfolio_of id rows = ltb 0 (length (keep (λ r. portfolio_of r == id) rows))

module _ {F : Type 0} where
  abbrev pub opening_in :
      PaperCampaign F → List (PortfolioSnapshot F) → Option (PortfolioSnapshot F)
  opening_in c snapshots = find (λ s. opens c.id s.opening_of) snapshots

module _ {F : Type 0} ⦃fl : Float F⦄ where
  -- `abs(left - right) < 0.5`.
  abbrev pub same_money : F → F → Bool
  same_money left right = fl.abs (left ⊖ right) <f fl.dec 5 1

  unfoldable pub opening_snapshot_is_valid :
      PortfolioSnapshot F → PaperCampaign F → Portfolio F → Bool
  opening_snapshot_is_valid s c p =
      (s.portfolio_id == p.id)
      && ltb (s.snapshot_at - c.starts_at + (c.starts_at - s.snapshot_at)) 1000
      && same_money s.cash c.initial_capital_rials
      && same_money s.total_equity c.initial_capital_rials
      && same_money s.positions_value (of_nat 0)
      && (s.open_positions_count == 0)
      && same_money s.realized_pnl (of_nat 0)
      && same_money s.unrealized_pnl (of_nat 0)
      && same_money s.drawdown_pct (of_nat 0)

  -- The RuntimeError of `_validate_campaign_portfolio_identity`, if it raises.
  unfoldable pub identity_error : PaperCampaign F → Portfolio F → Option CampaignError
  identity_error c p =
      if not (c.portfolio_id == p.id)
      then some identity_mismatch
      else if not (same_money p.initial_cash c.initial_capital_rials)
      then some capital_mismatch
      else none

  unfoldable pub validate_campaign_opening_snapshot :
      Db F → PaperCampaign F → Portfolio F → Result (PortfolioSnapshot F)
  validate_campaign_opening_snapshot db c p = elim (identity_error c p) [
    | some e ↦ error e
    | none ↦ elim (opening_in c db.snapshots) [
      | none ↦ error missing_opening
      | some s ↦ if opening_snapshot_is_valid s c p then ok s else error corrupted_opening
    ]
  ]

  abbrev pub is_initial_ledger : PaperCampaign F → List (CashLedger F) → Bool
  is_initial_ledger c (r ∷ []) =
      is_initial r.transaction_type
      && same_money r.amount_rials c.initial_capital_rials
      && same_money r.settled_cash c.initial_capital_rials
      && same_money r.available_cash c.initial_capital_rials
      && same_money r.unsettled_cash (of_nat 0)
      && same_money r.reserved_cash (of_nat 0)
      && same_money r.fees_due (of_nat 0)
  is_initial_ledger c _ = false

  unfoldable pub is_pristine : Db F → PaperCampaign F → Portfolio F → Bool
  is_pristine db c p =
      not (any_of (λ r. r.portfolio_id) p.id db.positions)
      && not (any_of (λ r. r.portfolio_id) p.id db.orders)
      && not (any_of (λ r. r.portfolio_id) p.id db.trade_logs)
      && not (any_of (λ r. r.portfolio_id) p.id db.closed_trades)
      && is_initial_ledger c (keep (λ r. r.portfolio_id == p.id) db.cash_rows)
      && same_money p.cash c.initial_capital_rials
      && same_money p.realized_pnl (of_nat 0)

  abbrev pub opening_snapshot : PaperCampaign F → Portfolio F → PortfolioSnapshot F
  opening_snapshot c p = record {
    opening_of = some c.id;
    portfolio_id = p.id;
    snapshot_at = c.starts_at;
    cash = p.cash;
    positions_value = of_nat 0;
    total_equity = p.cash;
    open_positions_count = 0;
    realized_pnl = of_nat 0;
    unrealized_pnl = of_nat 0;
    drawdown_pct = of_nat 0;
  }

  -- Returns whether a snapshot was created, and the tables.
  unfoldable pub ensure_initial_campaign_snapshot :
      Db F → PaperCampaign F → Portfolio F → Result (Bool × Db F)
  ensure_initial_campaign_snapshot db c p = elim (identity_error c p) [
    | some e ↦ error e
    | none ↦ elim (opening_in c db.snapshots) [
      | some s ↦ if opening_snapshot_is_valid s c p then ok (false, db) else error corrupted_opening
      | none ↦
          if any_of (λ s. s.portfolio_id) p.id db.snapshots
          then error later_snapshots
          else if not (is_pristine db c p)
          then error not_pristine
          else ok (true, record db { snapshots = db.snapshots ++ opening_snapshot c p ∷ [] })
    ]
  ]

  abbrev pub is_only : ℕ → List (Portfolio F) → Bool
  is_only id (p ∷ []) = p.id == id
  is_only id _ = false

  abbrev pub in_window : ℕ → PaperCampaign F → Bool
  in_window now c = leb c.starts_at now && leb now c.ends_at

  -- The campaign's portfolio, once the campaign is known.
  unfoldable pub portfolio_of_campaign :
      Db F → ℕ → Bool → PaperCampaign F → Result (Option (Portfolio F))
  portfolio_of_campaign db now require c =
      if require && not (in_window now c)
      then error outside_window
      else elim (find (λ p. p.id == c.portfolio_id) db.portfolios) [
        | none ↦ error missing_portfolio
        | some p ↦
            if not (is_only p.id (keep (λ q. q.is_active && q.is_paper) db.portfolios))
            then error ambiguous_portfolio
            else elim (validate_campaign_opening_snapshot db c p) [
              | ok s ↦ ok (some p)
              | error e ↦ error e
            ]
      ]

  abbrev pub active_campaigns : Db F → List (PaperCampaign F)
  active_campaigns db = keep (λ c. is_active_status c.status) db.campaigns

  abbrev pub portfolio_of_campaigns :
      Db F → ℕ → Bool → List (PaperCampaign F) → Result (Option (Portfolio F))
  portfolio_of_campaigns db now require [] = ok none
  portfolio_of_campaigns db now require (c ∷ []) = portfolio_of_campaign db now require c
  portfolio_of_campaigns db now require (c ∷ (d ∷ ds)) = error many_campaigns

  -- `require` is `require_execution_window`.
  unfoldable pub get_active_campaign_portfolio : Db F → ℕ → Bool → Result (Option (Portfolio F))
  get_active_campaign_portfolio db now require =
      portfolio_of_campaigns db now require (active_campaigns db)
