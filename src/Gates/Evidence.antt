-- ===== src/Gates/Evidence.antt =====
-- What stands behind a symbol that passes the fundamental gate.
use iran_market_radar.Base.{ℕ, ◌≤◌, ◌≡◌, ◌&&◌, true, false, some, map, length, ◌==◌, All}
use iran_market_radar.Float.{Float, ◌≤f◌, ◌<f◌, of_nat}
use iran_market_radar.Gates.{
  DataSourceReceipt, fundamental_independence_key, count_distinct, succeeded_within,
}
use iran_market_radar.Gates.Fundamental.{
  FundamentalInput, FundamentalSnapshot, Filing, FundamentalGateEvidence, distinct_keys, age_days,
  snapshot_at, filing_at,
}

-- A receipt of an official fundamental source that succeeded within the limit before the decision.
abbrev pub IsHealthy : ℕ → ℕ → DataSourceReceipt → Type 0
IsHealthy limit now r =
    (r.is_fundamental ≡ true)
    × (r.is_healthy ≡ true)
    × (r.is_official ≡ true)
    × (succeeded_within now limit r.last_success_at ≡ true)

module _ {F : Type 0} ⦃fl : Float F⦄ where
  -- The snapshot behind a passing symbol.
  pub record IsBacked (g : FundamentalInput F) (instrument symbol now : ℕ)
      (e : FundamentalGateEvidence F) : Type 0 where
    pub snapshot : FundamentalSnapshot F
    pub found : snapshot_at g instrument now ≡ some snapshot
    pub known : (snapshot.instrument_id ≡ instrument) × (snapshot.as_of ≤ now)
    pub recent : age_days now snapshot.as_of ≤ 120
    pub some_source : (length (distinct_keys snapshot.source_keys) == 0) ≡ false
    pub all_receipts : All (IsHealthy g.fundamental_receipt_stale now) e.receipts
    pub independent :
        g.minimum_fundamental_sources ≤ count_distinct (map fundamental_independence_key e.receipts)
    pub score : (of_nat 60 ≤f snapshot.fundamental_score) ≡ true
    pub piotroski : 5 ≤ snapshot.piotroski_f_score
    pub growth : (of_nat 0 <f snapshot.monthly_sales_growth_yoy) ≡ true
    pub debt :
        ((of_nat 0 ≤f snapshot.debt_to_equity) ≡ true)
        × ((snapshot.debt_to_equity ≤f fl.dec 25 1) ≡ true)
    pub filing : Filing F
    pub filed : filing_at g instrument symbol now ≡ some filing
    pub not_negative : (filing.is_negative && (of_nat 7 ≤f filing.impact_score)) ≡ false
