-- ===== src/Campaign/Resolution.antt =====
-- A resolved portfolio is that of the one active campaign.
use mathlib.Core.Path.{subst}
use mathlib.Core.Option.{some-injective}
use iran_market_radar.Base.{
  ℕ, ◌≤◌, ◌≡◌, refl, ◌⊎◌, inl, inr, Bool, true, not, ◌&&◌, Option, none, some, List, [], ◌∷◌, keep,
  find, ◌==◌, arith, by_if, by_option, eq_of_==, find-passes, not-false,
}
use iran_market_radar.Float.{Float}
use iran_market_radar.Domain.{Portfolio, PaperCampaign}
use iran_market_radar.Campaign.{
  Db, PortfolioSnapshot, CampaignError, Result, ok, error, same_money, opening_snapshot_is_valid,
  identity_error, opening_in, validate_campaign_opening_snapshot, is_only, in_window,
  portfolio_of_campaign, active_campaigns, portfolio_of_campaigns, get_active_campaign_portfolio,
}
use iran_market_radar.Campaign.Opening.{ok-injective}

by_ok {κ} :
    {A B : Type 0} (P : B → Type κ) (r : Result A) {x : CampaignError → B} {y : A → B}
    → ((e : CampaignError) → r ≡ error e → P (x e))
    → ((a : A) → r ≡ ok a → P (y a))
    → P (elim r [ ok a ↦ y a | error e ↦ x e ])
by_ok P (ok a) h k = k a refl
by_ok P (error e) h k = h e refl

pub error-ne-ok : {A : Type 0} (e : CampaignError) (a : A) → ¬ Path (Result A) (error e) (ok a)
error-ne-ok e a h = cc

module _ {F : Type 0} ⦃fl : Float F⦄ where
  validate-facts :
      (db : Db F) (c : PaperCampaign F) (p : Portfolio F) (s : PortfolioSnapshot F)
      → validate_campaign_opening_snapshot db c p ≡ ok s
      → (same_money p.initial_cash c.initial_capital_rials ≡ true)
        × (opening_in c db.snapshots ≡ some s)
        × (opening_snapshot_is_valid s c p ≡ true)
  unfolding validate_campaign_opening_snapshot identity_error
  validate-facts db c p s e = ground arith

  -- The campaign, its portfolio and its opening.
  pub record IsResolved (db : Db F) (now : ℕ) (require : Bool) (p : Portfolio F) : Type 0 where
    pub campaign : PaperCampaign F
    pub only_campaign : active_campaigns db ≡ campaign ∷ []
    pub names_portfolio : p.id ≡ campaign.portfolio_id
    pub only_portfolio : is_only p.id (keep (λ q. q.is_active && q.is_paper) db.portfolios) ≡ true
    pub same_capital : same_money p.initial_cash campaign.initial_capital_rials ≡ true
    pub opening : PortfolioSnapshot F
    pub found_opening : opening_in campaign db.snapshots ≡ some opening
    pub valid_opening : opening_snapshot_is_valid opening campaign p ≡ true
    pub window : require ≡ true → (campaign.starts_at ≤ now) × (now ≤ campaign.ends_at)

  portfolio-IsResolved :
      (db : Db F) (now : ℕ) (require : Bool) (c : PaperCampaign F) (p : Portfolio F)
      → active_campaigns db ≡ c ∷ []
      → portfolio_of_campaign db now require c ≡ ok (some p)
      → IsResolved db now require p
  unfolding portfolio_of_campaign
  portfolio-IsResolved db now require c p only =
      let P =
        λ (r : Result (Option (Portfolio F))). r ≡ ok (some p) → IsResolved db now require p in
      by_if P (require && not (in_window now c)) (λ _ e. cc)
        (λ window.
          by_option P (find (λ q. q.id == c.portfolio_id) db.portfolios) (λ _ e. cc)
            (λ q found.
              by_if P (not (is_only q.id (keep (λ x. x.is_active && x.is_paper) db.portfolios)))
                (λ _ e. cc)
                (λ alone.
                  by_ok P (validate_campaign_opening_snapshot db c q) (λ x _ e. cc)
                    (λ s valid e.
                      let facts = validate-facts db c q s valid in
                      subst (IsResolved db now require) (some-injective q p (ok-injective _ _ e))
                        (record {
                          campaign = c;
                          only_campaign = only;
                          names_portfolio =
                              eq_of_== _ _
                                (find-passes (λ x. x.id == c.portfolio_id) db.portfolios found);
                          only_portfolio = not-false _ alone;
                          same_capital = facts.0;
                          opening = s;
                          found_opening = facts.1;
                          valid_opening = facts.2;
                          window = λ required. ground (arith, window, required);
                        })))))

  list-cases :
      (cs : List (PaperCampaign F))
      → (cs ≡ [])
        ⊎ ((c : PaperCampaign F) × (cs ≡ c ∷ []))
        ⊎ ((c : PaperCampaign F) × (d : PaperCampaign F) × (ds : List (PaperCampaign F)) × (cs
              ≡ c ∷ (d ∷ ds)))
  list-cases [] = inl refl
  list-cases (c ∷ []) = inr (inl (c, refl))
  list-cases (c ∷ (d ∷ ds)) = inr (inr (c, d, ds, refl))

  -- A portfolio that is resolved belongs to the only active campaign, has its capital, is the only
  -- active paper portfolio, and has the campaign's valid opening snapshot; and where the execution
  -- window is required, the time is in it.
  pub get_active_campaign_portfolio-IsResolved :
      (db : Db F) (now : ℕ) (require : Bool) (p : Portfolio F)
      → get_active_campaign_portfolio db now require ≡ ok (some p)
      → IsResolved db now require p
  unfolding get_active_campaign_portfolio
  get_active_campaign_portfolio-IsResolved db now require p e =
      let Of =
        λ (cs : List (PaperCampaign F)). portfolio_of_campaigns db now require cs ≡ ok (some p) in
      elim (list-cases (active_campaigns db)) [
        | inl same ↦ let f : ok none ≡ ok (some p) = subst Of same e in cc
        | inr (inl (c, same)) ↦ portfolio-IsResolved db now require c p same (subst Of same e)
        | inr (inr (c, d, ds, same)) ↦ absurd (error-ne-ok _ _ (subst Of same e))
      ]
