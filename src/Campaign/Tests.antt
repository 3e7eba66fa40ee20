-- ===== src/Campaign/Tests.antt =====
-- A campaign whose opening snapshot is missing, created, and then resolved.
use iran_market_radar.Base.{ℕ, ◌*◌, ◌≡◌, refl, true, false, none, some, [], ◌∷◌}
use iran_market_radar.Base.Int.{pos}
use iran_market_radar.Float.Fixed.{Fixed, fixed_float}
use iran_market_radar.Domain.{Portfolio, PaperCampaign, running, initial}
use iran_market_radar.Campaign.{
  Db, ok, opening_snapshot, opening_snapshot_is_valid, identity_error, is_pristine,
  validate_campaign_opening_snapshot, ensure_initial_campaign_snapshot, portfolio_of_campaign,
  get_active_campaign_portfolio,
}
use iran_market_radar.Campaign.Opening.{IsEnsured, ensure_initial_campaign_snapshot-IsEnsured}
use iran_market_radar.Campaign.Resolution.{IsResolved, get_active_campaign_portfolio-IsResolved}

abbrev rials : ℕ → Fixed
rials n = pos (n * 1_000_000)

abbrev pub campaign : PaperCampaign Fixed
campaign = record {
  id = 1;
  portfolio_id = 1;
  status = running;
  starts_at = 1000;
  ends_at = 9000;
  initial_capital_rials = rials 10_000_000;
}

abbrev pub portfolio : Portfolio Fixed
portfolio = record {
  id = 1;
  is_paper = true;
  cash = rials 10_000_000;
  initial_cash = rials 10_000_000;
  realized_pnl = rials 0;
  is_active = true;
  kill_switch_active = false;
  updated_at = 0;
}

abbrev before : Db Fixed
before = record {
  campaigns = campaign ∷ [];
  portfolios = portfolio ∷ [];
  snapshots = [];
  positions = [];
  orders = [];
  trade_logs = [];
  closed_trades = [];
  cash_rows =
      record {
        portfolio_id = 1;
        transaction_type = initial;
        amount_rials = rials 10_000_000;
        settled_cash = rials 10_000_000;
        unsettled_cash = rials 0;
        reserved_cash = rials 0;
        available_cash = rials 10_000_000;
        fees_due = rials 0;
        reference_id = none;
      }
      ∷ [];
}

abbrev pub after : Db Fixed
after = record before { snapshots = opening_snapshot campaign portfolio ∷ [] }

created : ensure_initial_campaign_snapshot before campaign portfolio ≡ ok (true, after)
unfolding ensure_initial_campaign_snapshot identity_error is_pristine
created = refl

ensure_initial_campaign_snapshot-IsEnsured_example : IsEnsured before campaign portfolio true after
ensure_initial_campaign_snapshot-IsEnsured_example =
    ensure_initial_campaign_snapshot-IsEnsured refl before campaign portfolio true after created

resolved : get_active_campaign_portfolio after 5000 true ≡ ok (some portfolio)
unfolding get_active_campaign_portfolio portfolio_of_campaign validate_campaign_opening_snapshot
    identity_error opening_snapshot_is_valid
resolved = refl

get_active_campaign_portfolio-IsResolved_example : IsResolved after 5000 true portfolio
get_active_campaign_portfolio-IsResolved_example =
    get_active_campaign_portfolio-IsResolved after 5000 true portfolio resolved
