-- ===== src/Campaign/Opening.antt =====
-- The opening snapshot is created once and then found valid.
use mathlib.Core.Path.{subst}
use iran_market_radar.Base.{
  ◌≡◌, refl, ap, Bool, true, false, not, none, some, List, [], ◌∷◌, ◌++◌, find, arith, by_if,
  by_option, not-false,
}
use iran_market_radar.Float.{Float, of_nat}
use iran_market_radar.Domain.{Portfolio, PaperCampaign}
use iran_market_radar.Campaign.{
  Db, PortfolioSnapshot, Result, ok, error, opens, opening_in, any_of, same_money,
  opening_snapshot_is_valid, identity_error, validate_campaign_opening_snapshot, is_pristine,
  opening_snapshot, ensure_initial_campaign_snapshot,
}

find-append_none {ℓ} :
    {A : Type ℓ} (p : A → Bool) (xs : List A) (y : A)
    → find p xs ≡ none
    → p y ≡ true
    → find p (xs ++ y ∷ []) ≡ some y
find-append_none p [] y missing h = ground arith
find-append_none p (x ∷ xs) y missing h = ground (arith, find-append_none p xs y)

abbrev value_or : {A : Type 0} → A → Result A → A
value_or d (ok a) = a
value_or d (error e) = d

pub ok-injective : {A : Type 0} (a b : A) → ok a ≡ ok b → a ≡ b
ok-injective a b e = ap (value_or a) e

module _ {F : Type 0} ⦃fl : Float F⦄ where
  -- The new opening snapshot passes its check.
  opening_snapshot-valid :
      (db : Db F) (c : PaperCampaign F) (p : Portfolio F)
      → same_money {F = F} (of_nat 0) (of_nat 0) ≡ true
      → is_pristine db c p ≡ true
      → opening_snapshot_is_valid (opening_snapshot c p) c p ≡ true
  unfolding opening_snapshot_is_valid is_pristine
  opening_snapshot-valid db c p zero_same pristine = ground arith

  module _ (db : Db F) (c : PaperCampaign F) (p : Portfolio F) (s : PortfolioSnapshot F) where
    pub validate-ok :
        identity_error c p ≡ none
        → opening_in c db.snapshots ≡ some s
        → opening_snapshot_is_valid s c p ≡ true
        → validate_campaign_opening_snapshot db c p ≡ ok s
    unfolding validate_campaign_opening_snapshot
    validate-ok same found valid = ground (arith, same, found, valid)

    ensure-found :
        identity_error c p ≡ none
        → opening_in c db.snapshots ≡ some s
        → opening_snapshot_is_valid s c p ≡ true
        → ensure_initial_campaign_snapshot db c p ≡ ok (false, db)
    unfolding ensure_initial_campaign_snapshot
    ensure-found same found valid = ground (arith, same, found, valid)

  -- What a call that does not raise has made sure of.
  pub record IsEnsured (db : Db F) (c : PaperCampaign F) (p : Portfolio F) (made : Bool)
      (db' : Db F) : Type 0 where
    pub opening : PortfolioSnapshot F
    pub validated : validate_campaign_opening_snapshot db' c p ≡ ok opening
    pub settled : ensure_initial_campaign_snapshot db' c p ≡ ok (false, db')
    pub unchanged : made ≡ false → db' ≡ db
    pub appended :
        made ≡ true
        → (db' ≡ record db { snapshots = db.snapshots ++ opening_snapshot c p ∷ [] })
          × (is_pristine db c p ≡ true)
          × (any_of (λ x. x.portfolio_id) p.id db.snapshots ≡ false)

  found-IsEnsured :
      (db : Db F) (c : PaperCampaign F) (p : Portfolio F) (s : PortfolioSnapshot F)
      → identity_error c p ≡ none
      → opening_in c db.snapshots ≡ some s
      → opening_snapshot_is_valid s c p ≡ true
      → IsEnsured db c p false db
  found-IsEnsured db c p s same found valid = record {
    opening = s;
    validated = validate-ok db c p s same found valid;
    settled = ensure-found db c p s same found valid;
    unchanged = λ _. refl;
    appended = λ e. cc;
  }

  made-IsEnsured :
      (db : Db F) (c : PaperCampaign F) (p : Portfolio F)
      → same_money {F = F} (of_nat 0) (of_nat 0) ≡ true
      → identity_error c p ≡ none
      → opening_in c db.snapshots ≡ none
      → any_of (λ x. x.portfolio_id) p.id db.snapshots ≡ false
      → is_pristine db c p ≡ true
      → IsEnsured db c p true (record db { snapshots = db.snapshots ++ opening_snapshot c p ∷ [] })
  made-IsEnsured db c p zero_same same missing none_later pristine =
      let db' = record db { snapshots = db.snapshots ++ opening_snapshot c p ∷ [] } in
      let found =
        find-append_none (λ s. opens c.id s.opening_of) db.snapshots (opening_snapshot c p) missing
          (ground arith) in
      let valid = opening_snapshot-valid db c p zero_same pristine in
      record {
        opening = opening_snapshot c p;
        validated = validate-ok db' c p (opening_snapshot c p) same found valid;
        settled = ensure-found db' c p (opening_snapshot c p) same found valid;
        unchanged = λ e. cc;
        appended = λ _. (refl, pristine, none_later);
      }

  -- When the opening snapshot is ensured without an error, it is then found valid, and ensuring it
  -- again changes nothing. A call that reports no creation has changed nothing; one that does has
  -- appended the campaign's opening, to a portfolio without snapshots, positions, orders or trades
  -- and whose only cash row is the campaign's capital.
  pub ensure_initial_campaign_snapshot-IsEnsured :
      same_money {F = F} (of_nat 0) (of_nat 0) ≡ true
      → (db : Db F) (c : PaperCampaign F) (p : Portfolio F) (made : Bool) (db' : Db F)
      → ensure_initial_campaign_snapshot db c p ≡ ok (made, db')
      → IsEnsured db c p made db'
  unfolding ensure_initial_campaign_snapshot
  ensure_initial_campaign_snapshot-IsEnsured zero_same db c p made db' =
      let P = λ (r : Result (Bool × Db F)). r ≡ ok (made, db') → IsEnsured db c p made db' in
      let returns = λ (a : Bool × Db F) (h : IsEnsured db c p a.0 a.1) (e : ok a ≡ ok (made, db')).
        subst (λ (x : Bool × Db F). IsEnsured db c p x.0 x.1) (ok-injective a (made, db') e) h in
      by_option P (identity_error c p)
        (λ same.
          by_option P (opening_in c db.snapshots)
            (λ missing.
              by_if P (any_of (λ x. x.portfolio_id) p.id db.snapshots) (λ _ e. cc)
                (λ none_later.
                  by_if P (not (is_pristine db c p)) (λ _ e. cc)
                    (λ pristine.
                      returns
                        (true, record db { snapshots = db.snapshots ++ opening_snapshot c p ∷ [] })
                        (made-IsEnsured db c p zero_same same missing none_later
                          (not-false _ pristine)))))
            (λ s found.
              by_if P (opening_snapshot_is_valid s c p)
                (λ valid. returns (false, db) (found-IsEnsured db c p s same found valid))
                (λ _ e. cc)))
        (λ x _ e. cc)
