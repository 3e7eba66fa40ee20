-- ===== src/Campaign/Window.antt =====
-- The execution window of `get_active_campaign_portfolio` and that of `_campaign_allows_entry` agree.
use mathlib.Core.Path.{subst}
use iran_market_radar.Base.{
  ℕ, ◌≡◌, refl, sym, ap, ◌∙◌, ◌&&◌, Bool, true, false, false, some, List, [], ◌∷◌, ◌==◌, keep,
  by_if, Bool-cases, inl, inr,
}
use iran_market_radar.Float.{Float}
use iran_market_radar.Domain.{Portfolio, PaperCampaign}
use iran_market_radar.Campaign.{
  Db, ok, error, CampaignError, get_active_campaign_portfolio, portfolio_of_campaign,
  portfolio_of_campaigns, in_window,
}
use iran_market_radar.Campaign.Resolution.{get_active_campaign_portfolio-IsResolved, error-ne-ok}
use iran_market_radar.Ledger.Pending.{single_campaign, is_active_status}

keep-keep {ℓ} :
    {A : Type ℓ} (p q : A → Bool) (xs : List A) → keep (λ x. p x && q x) xs ≡ keep p (keep q xs)
keep-keep p q [] = refl
keep-keep p q (x ∷ xs) = elim (Bool-cases (p x)) [
  | inl a ↦ elim (Bool-cases (q x)) [
    | inl b ↦ simp (a, b, keep-keep p q xs)
    | inr b ↦ simp (a, b, keep-keep p q xs)
  ]
  | inr a ↦ elim (Bool-cases (q x)) [
    | inl b ↦ simp (a, b, keep-keep p q xs)
    | inr b ↦ simp (a, b, keep-keep p q xs)
  ]
]

module _ {F : Type 0} ⦃fl : Float F⦄ where
  in_window_lem :
      (db : Db F) (now : ℕ) (c : PaperCampaign F)
      → in_window now c ≡ true
      → portfolio_of_campaign db now true c ≡ portfolio_of_campaign db now false c
  unfolding portfolio_of_campaign
  in_window_lem db now c h = simp (h)

  single-closed :
      (cs : List (PaperCampaign F)) (c : PaperCampaign F) (id now : ℕ)
      → keep (λ c. is_active_status c.status) cs ≡ c ∷ []
      → in_window now c ≡ false
      → single_campaign (keep (λ c. c.portfolio_id == id && is_active_status c.status) cs) now
        ≡ false
  single-closed cs c id now only h =
      let step =
        keep-keep (λ (x : PaperCampaign F). x.portfolio_id == id) (λ x. is_active_status x.status)
          cs
        ∙ ap (keep (λ (x : PaperCampaign F). x.portfolio_id == id)) only in
      ap (λ xs. single_campaign xs now) step
      ∙ by_if (λ xs. single_campaign xs now ≡ false) (c.portfolio_id == id) (λ _. h) (λ _. refl)

  -- Where the portfolio is resolved without its window, but not with it, entries are closed too.
  pub outside-closed :
      (db : Db F) (now : ℕ) (p : Portfolio F) (e : CampaignError)
      → get_active_campaign_portfolio db now false ≡ ok (some p)
      → get_active_campaign_portfolio db now true ≡ error e
      → single_campaign
          (keep (λ c. c.portfolio_id == p.id && is_active_status c.status) db.campaigns)
          now
        ≡ false
  unfolding get_active_campaign_portfolio
  outside-closed db now p e found refused =
      let r = get_active_campaign_portfolio-IsResolved db now false p found in
      let c = r.campaign in
      let here =
        subst (λ cs. portfolio_of_campaigns db now false cs ≡ ok (some p)) r.only_campaign found in
      let there =
        subst (λ cs. portfolio_of_campaigns db now true cs ≡ error e) r.only_campaign refused in
      elim (Bool-cases (in_window now c)) [
        | inl inside ↦
            absurd (error-ne-ok e (some p) (sym there ∙ in_window_lem db now c inside ∙ here))
        | inr out ↦ single-closed db.campaigns c p.id now r.only_campaign out
      ]
