-- ===== src/Gates.antt =====
-- services/collector/quality.py: the receipts of the data sources, and the gate before any purchase.
-- Times are microseconds; reasons are constructors instead of texts.
pub mod Data
pub mod Fundamental
pub mod Passing
pub mod Evidence
pub mod Tests
use iran_market_radar.Base.{
  ℕ, ◌+◌, ◌-◌, ◌/◌, ◌*◌, ◌&&◌, Bool, true, false, not, Option, none, some, List, [], ◌∷◌, ◌++◌, map,
  length, ltb, leb, ◌==◌, if◌then◌else◌, find, keep, exists_in, or_else,
}

-- The values of `source_key` that the gates compare, and any other.
pub data ReceiptKey : Type 0 where
  market_watch codal_disclosures : ReceiptKey
  other_key : ℕ → ReceiptKey

-- `independence_key` and `upstream_family` are entries of the metadata, `none` where they are missing
-- or empty; the texts are numbers.
pub record DataSourceReceipt : Type 0 where
  pub source_key : ReceiptKey
  pub is_fundamental : Bool
  pub is_healthy : Bool
  pub is_official : Bool
  pub last_success_at : Option ℕ
  pub independence_key : Option ℕ
  pub upstream_family : Option ℕ
  pub provider_name : ℕ

abbrev pub same_receipt_key : ReceiptKey → ReceiptKey → Bool
same_receipt_key market_watch market_watch = true
same_receipt_key codal_disclosures codal_disclosures = true
same_receipt_key (other_key a) (other_key b) = a == b
same_receipt_key _ _ = false

-- `fundamental_independence_key`.
abbrev pub fundamental_independence_key : DataSourceReceipt → ℕ
fundamental_independence_key r =
    or_else r.independence_key (or_else r.upstream_family r.provider_name)

-- `len({...})`.
abbrev pub count_distinct : List ℕ → ℕ
count_distinct [] = 0
count_distinct (n ∷ ns) = (if exists_in (λ m. m == n) ns then 0 else 1) + count_distinct ns

-- A success at the cutoff or before, and not before the cutoff less the limit.
abbrev pub succeeded_within : ℕ → ℕ → Option ℕ → Bool
succeeded_within cutoff limit none = false
succeeded_within cutoff limit (some t) = leb t cutoff && leb cutoff (t + limit)

unfoldable pub healthy_fundamental_receipts :
    List DataSourceReceipt → ℕ → ℕ → List DataSourceReceipt
healthy_fundamental_receipts receipts limit cutoff =
    keep
      (λ r.
        r.is_fundamental
        && r.is_healthy
        && r.is_official
        && succeeded_within cutoff limit r.last_success_at)
      receipts
