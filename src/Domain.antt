-- ===== src/Domain.antt =====
-- packages/domain/models.py: the rows of the paper broker. Texts for the user are left out;
-- identifiers and symbols are numbers, times are microseconds in UTC, and the strings that the code
-- compares are enumerations. `F` is the type of `float`.
pub mod History
use iran_market_radar.Base.{ℕ, Bool, Option, List, ◌≡◌, refl}

pub data Side : Type 0 where
  buy sell other_side : Side

-- `if side == "BUY": … elif side == "SELL": … else: …`.
abbrev pub by_side {ℓ} : {A : Type ℓ} → Side → A → A → A → A
by_side buy b s other = b
by_side sell b s other = s
by_side other_side b s other = other

pub by_side_cases {ℓ κ} :
    {A : Type ℓ} (P : A → Type κ) (side : Side) {b s other : A}
    → (side ≡ buy → P b)
    → (side ≡ sell → P s)
    → (side ≡ other_side → P other)
    → P (by_side side b s other)
by_side_cases P buy h k l = h refl
by_side_cases P sell h k l = k refl
by_side_cases P other_side h k l = l refl

-- The literal type `OrderStatus` of services/paper_broker/execution.py.
pub data OrderStatus : Type 0 where
  created validated submitted acknowledged partially_filled filled : OrderStatus
  cancel_requested cancelled expired rejected : OrderStatus

pub data OrderType : Type 0 where
  limit scale_in close stop_exit target_exit time_exit signal_exit kill_exit trim : OrderType

-- `signal_id`: absent, a published signal, or `position:<id>`.
pub data Reference : Type 0 where
  no_reference : Reference
  signal_ref position_ref : ℕ → Reference

pub record BrokerOrder (F : Type 0) : Type 0 where
  pub id : ℕ
  pub portfolio_id : ℕ
  pub signal_id : Reference
  pub symbol : ℕ
  pub side : Side
  pub order_type : OrderType
  pub price : F
  pub quantity : ℕ
  pub filled_quantity : ℕ
  pub status : OrderStatus
  pub created_at : ℕ
  pub updated_at : ℕ
  pub last_evaluated_snapshot_at : Option ℕ

pub record OrderFill (F : Type 0) : Type 0 where
  pub order_id : ℕ
  pub symbol : ℕ
  pub side : Side
  pub fill_price : F
  pub quantity : ℕ
  pub slippage_rials : F
  pub fees_rials : F
  pub tax_rials : F
  pub net_value_rials : F
  pub executed_at : ℕ

pub record Portfolio (F : Type 0) : Type 0 where
  pub id : ℕ
  pub is_paper : Bool
  pub cash : F
  pub initial_cash : F
  pub realized_pnl : F
  pub is_active : Bool
  pub kill_switch_active : Bool
  pub updated_at : ℕ

-- The entries of `risk_flags_fa`: the two that the code looks for, and any other text.
pub data Flag : Type 0 where
  scaled_in trimmed : Flag
  text_flag : ℕ → Flag

pub record Position (F : Type 0) : Type 0 where
  pub id : ℕ
  pub portfolio_id : ℕ
  pub symbol : ℕ
  pub quantity : ℕ
  pub average_entry_price : F
  pub current_price : F
  pub unrealized_pnl : F
  pub stop_loss : Option F
  pub target_price : Option F
  pub total_invested_rials : F
  pub risk_pct : F
  pub expected_days_to_target : ℕ
  pub risk_flags : List Flag
  pub opened_at : ℕ
  pub is_open : Bool

pub data TransactionType : Type 0 where
  initial buy_fill sell_fill : TransactionType

pub record CashLedger (F : Type 0) : Type 0 where
  pub portfolio_id : ℕ
  pub transaction_type : TransactionType
  pub amount_rials : F
  pub settled_cash : F
  pub unsettled_cash : F
  pub reserved_cash : F
  pub available_cash : F
  pub fees_due : F
  pub reference_id : Option ℕ

pub data ExitReason : Type 0 where
  open_trade manual_exit stop_loss_hit target_1 time_stop signal_invalidated : ExitReason
  kill_switch risk_reduction other_reason : ExitReason

-- The trade log; of the JSON features, the entries that the broker reads back.
pub record PaperTradeLog (F : Type 0) : Type 0 where
  pub id : ℕ
  pub portfolio_id : ℕ
  pub symbol : ℕ
  pub entry_price : F
  pub exit_price : Option F
  pub quantity : ℕ
  pub total_invested_rials : F
  pub entry_at : ℕ
  pub exit_at : Option ℕ
  pub gross_pnl : F
  pub net_pnl : F
  pub return_pct : F
  pub risk_reward_ratio : F
  pub exit_reason : ExitReason
  pub initial_stop : Option F
  pub entry_order_id : ℕ
  pub scale_in_order_ids : List ℕ
  pub is_closed : Bool

pub data Decision : Type 0 where
  entry_filled scale_in_filled exit_filled trim_filled : Decision

pub record DecisionAudit : Type 0 where
  pub symbol : ℕ
  pub decision : Decision
  pub as_of : ℕ

pub data CampaignStatus : Type 0 where
  ready_blocked_data ready running other_status : CampaignStatus

pub record PaperCampaign (F : Type 0) : Type 0 where
  pub id : ℕ
  pub portfolio_id : ℕ
  pub status : CampaignStatus
  pub starts_at : ℕ
  pub ends_at : ℕ
  pub initial_capital_rials : F

-- The keys of the policy's regimes, and any other text or none.
pub data Regime : Type 0 where
  risk_on neutral risk_off halted other_regime : Regime

-- Of a published signal, what the broker reads.
pub record PublishedSignal (F : Type 0) : Type 0 where
  pub id : ℕ
  pub symbol : ℕ
  pub actionable : Bool
  pub expires_at : Option ℕ
  pub entry_low : Option F
  pub invalidation_price : Option F
  -- `exit_plan["targets"]`, `none` where the plan is empty or lacks the key.
  pub targets : Option (List F)
  pub sector : Option ℕ
  pub regime : Regime
  pub time_stop_sessions : ℕ
  pub risk_flags : List Flag

pub record Instrument : Type 0 where
  pub id : ℕ
  pub ticker : ℕ
  pub is_active : Bool

-- The values of `source_key`, `schema_version` and `trust_tier` that the trusted queries compare.
pub data SourceKey : Type 0 where
  cdn_market_watch cdn_history other_source : SourceKey

pub data SchemaVersion : Type 0 where
  market_watch_v1 history_v1 other_schema : SchemaVersion

pub data TrustTier : Type 0 where
  official_direct other_tier : TrustTier

pub record MarketDataBatch : Type 0 where
  pub id : ℕ
  pub source_key : SourceKey
  pub schema_version : SchemaVersion
  pub complete : Bool
  pub trade_eligible : Bool
  pub trust_tier : TrustTier

pub record MarketSnapshot (F : Type 0) : Type 0 where
  pub instrument_id : ℕ
  pub source_timestamp : ℕ
  pub last_price : F
  pub volume : ℕ
  pub allowed_min : F
  pub allowed_max : F
  pub source_key : SourceKey
  pub batch_id : Option ℕ
  pub trust_tier : TrustTier
  pub trade_eligible : Bool
