-- ===== src/Gates/Fundamental.antt =====
-- `evaluate_fundamental_gate` of services/scorer/fundamental_gate.py.
use iran_market_radar.Base.{
  ℕ, ◌-◌, ◌/◌, ◌&&◌, ◌||◌, Bool, true, false, not, Option, none, some, List, [], ◌∷◌, ◌++◌, map,
  length, ltb, leb, ◌==◌, if◌then◌else◌, keep, exists_in, is_some,
}
use iran_market_radar.Float.{Float, ◌≤f◌, ◌<f◌, of_nat}
use iran_market_radar.Trusted.{latest}
use iran_market_radar.Gates.{
  DataSourceReceipt, ReceiptKey, codal_disclosures, same_receipt_key, fundamental_independence_key,
  count_distinct, healthy_fundamental_receipts,
}

-- `source_keys` are the keys of the details, none where they are missing.
pub record FundamentalSnapshot (F : Type 0) : Type 0 where
  pub instrument_id : ℕ
  pub as_of : ℕ
  pub fundamental_score : F
  pub piotroski_f_score : ℕ
  pub monthly_sales_growth_yoy : F
  pub debt_to_equity : F
  pub source_keys : List ReceiptKey

-- `from_codal` is the test of the structured data's source key.
pub record Filing (F : Type 0) : Type 0 where
  pub instrument_id : ℕ
  pub symbol : ℕ
  pub published_at : ℕ
  pub from_codal : Bool
  pub is_negative : Bool
  pub impact_score : F

pub data FundamentalReason : Type 0 where
  no_fundamental_snapshot no_provenance missing_receipts dependent_sources too_old :
      FundamentalReason
  low_score low_piotroski no_growth bad_debt no_codal_receipt no_filing : FundamentalReason
  negative_filing : FundamentalReason

pub record FundamentalInput (F : Type 0) : Type 0 where
  pub minimum_fundamental_sources : ℕ
  pub fundamental_receipt_stale : ℕ
  pub receipts : List DataSourceReceipt
  pub snapshots : List (FundamentalSnapshot F)
  pub filings : List (Filing F)

-- Of the evidence: whether it passed, the receipts behind the snapshot, the score and the reasons.
pub record FundamentalGateEvidence (F : Type 0) : Type 0 where
  pub passed : Bool
  pub receipts : List DataSourceReceipt
  pub score : F
  pub reasons : List FundamentalReason

abbrev pub fundamental_reason_if : Bool → FundamentalReason → List FundamentalReason
fundamental_reason_if c r = if c then r ∷ [] else []

abbrev pub nothing_against : List FundamentalReason → Bool
nothing_against [] = true
nothing_against (r ∷ rs) = false

-- `receipt_by_source[key]`: of the receipts of a key, which is unique, the last.
abbrev pub receipt_by_source : List DataSourceReceipt → ReceiptKey → Option DataSourceReceipt
receipt_by_source [] key = none
receipt_by_source (r ∷ rs) key =
    let rest = receipt_by_source rs key in
    if is_some rest then rest else if same_receipt_key r.source_key key then some r else none

abbrev pub remove_key : ReceiptKey → List ReceiptKey → List ReceiptKey
remove_key key keys = keep (λ k. not (same_receipt_key k key)) keys

-- `set(keys)`.
abbrev pub distinct_keys : List ReceiptKey → List ReceiptKey
distinct_keys [] = []
distinct_keys (k ∷ ks) =
    let rest = distinct_keys ks in if exists_in (same_receipt_key k) rest then rest else k ∷ rest

-- The receipts of the keys that have one.
abbrev pub matched_receipts : List DataSourceReceipt → List ReceiptKey → List DataSourceReceipt
matched_receipts receipts [] = []
matched_receipts receipts (k ∷ ks) = elim (receipt_by_source receipts k) [
  | none ↦ matched_receipts receipts ks
  | some r ↦ r ∷ matched_receipts receipts ks
]

-- Whether some key has no receipt.
abbrev pub lacks_receipt : List DataSourceReceipt → List ReceiptKey → Bool
lacks_receipt receipts keys = exists_in (λ k. not (is_some (receipt_by_source receipts k))) keys

-- `(decision_time - as_of).days`, of a time that is not later.
abbrev pub age_days : ℕ → ℕ → ℕ
age_days now t = (now - t) / 86_400_000_000

module _ {F : Type 0} where
  -- The newest snapshot of the instrument at the decision.
  abbrev pub snapshot_at : FundamentalInput F → ℕ → ℕ → Option (FundamentalSnapshot F)
  snapshot_at g instrument now =
      latest (λ s. s.as_of)
        (keep (λ s. s.instrument_id == instrument && leb s.as_of now) g.snapshots)

  abbrev pub filing_at : FundamentalInput F → ℕ → ℕ → ℕ → Option (Filing F)
  filing_at g instrument symbol now =
      latest (λ f. f.published_at)
        (keep
          (λ f.
            f.instrument_id == instrument
            && f.symbol == symbol
            && leb f.published_at now
            && f.from_codal)
          g.filings)

module _ {F : Type 0} ⦃fl : Float F⦄ where
  unfoldable pub filing_reasons : Option (Filing F) → List FundamentalReason
  filing_reasons none = no_filing ∷ []
  filing_reasons (some f) =
      fundamental_reason_if (f.is_negative && (of_nat 7 ≤f f.impact_score)) negative_filing

  -- The reasons against the numbers of the snapshot.
  unfoldable pub number_reasons : FundamentalSnapshot F → ℕ → List FundamentalReason
  number_reasons s now =
      fundamental_reason_if (ltb 120 (age_days now s.as_of)) too_old
      ++ (fundamental_reason_if (s.fundamental_score <f of_nat 60) low_score
          ++ (fundamental_reason_if (ltb s.piotroski_f_score 5) low_piotroski
              ++ (fundamental_reason_if (s.monthly_sales_growth_yoy ≤f of_nat 0) no_growth
                  ++ fundamental_reason_if
                      ((s.debt_to_equity <f of_nat 0) || (fl.dec 25 1 <f s.debt_to_equity))
                      bad_debt)))

  -- The reasons against its sources.
  unfoldable pub source_reasons :
      ℕ → List DataSourceReceipt → FundamentalSnapshot F → List FundamentalReason
  source_reasons minimum receipts s =
      let keys = distinct_keys s.source_keys in
      fundamental_reason_if (length keys == 0) no_provenance
      ++ (fundamental_reason_if (lacks_receipt receipts keys) missing_receipts
          ++ fundamental_reason_if
              (ltb
                (count_distinct (map fundamental_independence_key (matched_receipts receipts keys)))
                minimum)
              dependent_sources)

  unfoldable pub evaluate_snapshot :
      FundamentalInput F → ℕ → ℕ → ℕ → FundamentalSnapshot F → FundamentalGateEvidence F
  evaluate_snapshot g instrument symbol now s =
      let receipts = healthy_fundamental_receipts g.receipts g.fundamental_receipt_stale now in
      let reasons =
        source_reasons g.minimum_fundamental_sources receipts s
        ++ (number_reasons s now
            ++ (fundamental_reason_if (not (is_some (receipt_by_source receipts codal_disclosures)))
                  no_codal_receipt
                ++ filing_reasons (filing_at g instrument symbol now))) in
      record {
        passed = nothing_against reasons;
        receipts = matched_receipts receipts (distinct_keys s.source_keys);
        score = s.fundamental_score;
        reasons = reasons;
      }

  unfoldable pub evaluate_fundamental_gate :
      FundamentalInput F → ℕ → ℕ → ℕ → FundamentalGateEvidence F
  evaluate_fundamental_gate g instrument symbol now = elim (snapshot_at g instrument now) [
    | none ↦ record {
      passed = false;
      receipts = [];
      score = of_nat 0;
      reasons = no_fundamental_snapshot ∷ [];
    }
    | some s ↦ evaluate_snapshot g instrument symbol now s
  ]
