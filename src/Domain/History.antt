-- ===== src/Domain/History.antt =====
-- packages/domain/models.py: the rows of the daily history. Dates are numbers of days.
use iran_market_radar.Base.{ℕ, Bool, Option}
use iran_market_radar.Domain.{SourceKey, TrustTier}

pub record EodBar (F : Type 0) : Type 0 where
  pub instrument_id : ℕ
  pub trading_date : ℕ
  pub open_price : F
  pub high : F
  pub low : F
  pub close : F
  pub last : F
  pub yesterday_price : F
  pub volume : ℕ
  pub value : F
  pub source_key : SourceKey
  pub batch_id : Option ℕ
  pub trust_tier : TrustTier
  pub trade_eligible : Bool

pub record ClientTypeSnapshot (F : Type 0) : Type 0 where
  pub instrument_id : ℕ
  pub trading_date : ℕ
  pub real_buy_count : ℕ
  pub real_buy_volume : ℕ
  pub real_buy_value : F
  pub real_sell_count : ℕ
  pub real_sell_volume : ℕ
  pub real_sell_value : F
  pub legal_buy_value : F
  pub legal_sell_value : F
  pub source_key : SourceKey
  pub batch_id : Option ℕ
  pub trust_tier : TrustTier
  pub trade_eligible : Bool
