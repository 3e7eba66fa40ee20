-- ===== src/Ledger/Pending.antt =====
-- `PaperBrokerService.process_pending_orders` and `_campaign_allows_entry`: each pending order, oldest
-- first, through the entry gates and against the first later official snapshot.
use iran_market_radar.Base.{
  ℕ, ◌+◌, ◌-◌, ◌/◌, Bool, true, false, not, ◌&&◌, Option, none, some, List, [], ◌∷◌, ltb, leb, ◌==◌,
  if◌then◌else◌, find, keep, exists_in,
}
use iran_market_radar.Float.{Float, of_nat}
use iran_market_radar.Domain.{
  Side, buy, sell, other_side, by_side, OrderStatus, submitted, partially_filled, filled, rejected,
  Reference, signal_ref, position_ref, BrokerOrder, OrderFill, Portfolio, PaperCampaign,
  CampaignStatus, other_status, PublishedSignal, Instrument, MarketSnapshot,
}
use iran_market_radar.Execution.{ExecutionBar, Simulated, simulate_order_fill}
use iran_market_radar.Trusted.{
  latest_trusted_market_snapshot_after, previous_trusted_snapshot, latest,
}
use iran_market_radar.Ledger.Book.{
  Book, Env, Orm, Message, add_row, set_order, say, campaign_closed, kill_switch_blocks,
  signal_invalid, unknown_symbol, simulated,
}
use iran_market_radar.Ledger.Entry.{apply_buy, reject_fill}
use iran_market_radar.Ledger.Exit.{apply_sell}

abbrev pub is_active_status : CampaignStatus → Bool
is_active_status other_status = false
is_active_status _ = true

abbrev pub is_buy : Side → Bool
is_buy buy = true
is_buy _ = false

-- `order.signal_id and order.signal_id.startswith("position:")`.
abbrev pub is_position_ref : Reference → Bool
is_position_ref (position_ref id) = true
is_position_ref _ = false

-- The UTC date of a time.
abbrev pub date_of : ℕ → ℕ
date_of t = t / 86_400_000_000

abbrev pub max_nat : ℕ → ℕ → ℕ
max_nat a b = if ltb a b then b else a

-- `max` over the values that are not `None`.
abbrev pub max_opt : ℕ → Option ℕ → ℕ
max_opt a none = a
max_opt a (some b) = max_nat a b

abbrev expires_later : ℕ → Option ℕ → Bool
expires_later now none = false
expires_later now (some t) = ltb now t

abbrev pub same_side : Side → Side → Bool
same_side buy buy = true
same_side sell sell = true
same_side other_side other_side = true
same_side _ _ = false

abbrev pub in_sides : Option (List Side) → Side → Bool
in_sides none s = true
in_sides (some sides) s = exists_in (same_side s) sides

abbrev pub is_pending : OrderStatus → Bool
is_pending submitted = true
is_pending partially_filled = true
is_pending _ = false

module _ {F : Type 0} where
  abbrev pub single_campaign : List (PaperCampaign F) → ℕ → Bool
  single_campaign (c ∷ []) now = leb c.starts_at now && leb now c.ends_at
  single_campaign _ now = false

  -- Exactly one active campaign of the portfolio, within its window.
  unfoldable pub campaign_allows_entry : Env F → Portfolio F → Bool
  campaign_allows_entry env portfolio =
      single_campaign
        (keep (λ c. c.portfolio_id == portfolio.id && is_active_status c.status) env.campaigns)
        env.now

  abbrev pub signal_by_ref : Env F → Reference → Option (PublishedSignal F)
  signal_by_ref env (signal_ref id) = find (λ s. s.id == id) env.signals
  signal_by_ref env _ = none

  abbrev pub signal_is_valid : ℕ → Option (PublishedSignal F) → Bool
  signal_is_valid now none = false
  signal_is_valid now (some s) = s.actionable && expires_later now s.expires_at

  -- `approved_signal`.
  abbrev pub approved_signal : Env F → BrokerOrder F → Option (PublishedSignal F)
  approved_signal env o =
      if is_buy o.side && not (is_position_ref o.signal_id)
      then signal_by_ref env o.signal_id
      else none

  -- The gates that a purchase passes before any price is looked at.
  unfoldable pub entry_gate : Env F → Portfolio F → BrokerOrder F → Option Message
  entry_gate env portfolio o =
      if not (is_buy o.side)
      then none
      else if not (campaign_allows_entry env portfolio)
      then some campaign_closed
      else if portfolio.kill_switch_active
      then some kill_switch_blocks
      else if is_position_ref o.signal_id
      then none
      else if signal_is_valid env.now (signal_by_ref env o.signal_id)
      then none
      else some signal_invalid

  abbrev executed_of : Option (OrderFill F) → Option ℕ
  executed_of none = none
  executed_of (some f) = some f.executed_at

  -- The time that the next snapshot must be later than.
  unfoldable pub after_timestamp : Book F → BrokerOrder F → ℕ
  after_timestamp b o =
      max_opt
        (max_opt o.created_at (
          executed_of
            (latest (λ f. f.executed_at) (keep (λ f. f.order_id == o.id) b.fills.flushed))))
        o.last_evaluated_snapshot_at

  -- The bar of a later observed price and the volume since the snapshot before.
  abbrev pub incremental_bar : MarketSnapshot F → ℕ → ExecutionBar F
  incremental_bar s volume = record {
    open_price = s.last_price;
    high = s.last_price;
    low = s.last_price;
    close = s.last_price;
    volume = volume;
    allowed_min = some s.allowed_min;
    allowed_max = some s.allowed_max;
  }

  -- A trusted snapshot of the same date before the new one, and the volume traded since.
  unfoldable pub incremental_volume : Option (MarketSnapshot F) → MarketSnapshot F → ℕ
  incremental_volume none s = 0
  incremental_volume (some p) s =
      if date_of p.source_timestamp == date_of s.source_timestamp then s.volume - p.volume else 0

  -- `.order_by(created_at.asc())`.
  abbrev pub insert_by_time : BrokerOrder F → List (BrokerOrder F) → List (BrokerOrder F)
  insert_by_time o [] = o ∷ []
  insert_by_time o (x ∷ xs) =
      if leb o.created_at x.created_at then o ∷ x ∷ xs else x ∷ insert_by_time o xs

  abbrev pub sort_by_time : List (BrokerOrder F) → List (BrokerOrder F)
  sort_by_time [] = []
  sort_by_time (o ∷ os) = insert_by_time o (sort_by_time os)

  -- The pending orders of the portfolio on the allowed sides.
  unfoldable pub pending_orders : Option (List Side) → Book F → List (BrokerOrder F)
  pending_orders allowed b = sort_by_time (
      keep (λ o. o.portfolio_id == b.portfolio.id && is_pending o.status && in_sides allowed o.side)
        b.orders)

module _ {F : Type 0} ⦃fl : Float F⦄ where
  -- The default slippage of 20 basis points and participation of five per cent.
  abbrev pub simulate : Env F → BrokerOrder F → MarketSnapshot F → ℕ → Simulated F
  simulate env o s volume =
      simulate_order_fill (of_nat 20) (fl.dec 5 2) env.now false false o (incremental_bar s volume)

  -- The fill is stamped with the snapshot's time and carried out by side.
  unfoldable pub apply_fill :
      Orm F → Env F → MarketSnapshot F → BrokerOrder F → OrderFill F → Book F → Option (Book F)
  apply_fill orm env s o f b =
      let fill = record f { executed_at = s.source_timestamp } in
      let added = record b { fills = add_row fill b.fills } in
      by_side o.side (apply_buy orm s.source_timestamp (approved_signal env o) o fill added)
        (apply_sell orm s.source_timestamp o fill added) (reject_fill orm simulated o fill added)

  -- The order is simulated on the new volume.
  unfoldable pub process_volume :
      Orm F → Env F → MarketSnapshot F → ℕ → BrokerOrder F → Book F → Option (Book F)
  process_volume orm env s volume o b =
      let r = simulate env o s volume in
      let seen = say simulated (set_order r.order (record b { processed = b.processed + 1 })) in
      elim r.fill [ none ↦ some seen | some f ↦ apply_fill orm env s r.order f seen ]

  -- The order's cursor moves to the snapshot, whether or not it can be filled on it.
  unfoldable pub process_snapshot :
      Orm F → Env F → ℕ → Option (MarketSnapshot F) → ℕ → BrokerOrder F → Book F → Option (Book F)
  process_snapshot orm env instrument none after o b = some b
  process_snapshot orm env instrument (some s) after o b =
      let o' = record o { last_evaluated_snapshot_at = some s.source_timestamp } in
      let volume =
        incremental_volume (previous_trusted_snapshot env.batches env.snapshots instrument after)
          s in
      if volume == 0
      then some (set_order o' b)
      else process_volume orm env s volume o' (set_order o' b)

  abbrev refuse : Env F → Message → BrokerOrder F → Book F → Book F
  refuse env m o b = say m (set_order (record o { status = rejected; updated_at = env.now }) b)

  unfoldable pub process_instrument :
      Orm F → Env F → Option Instrument → BrokerOrder F → Book F → Option (Book F)
  process_instrument orm env none o b =
      some (say unknown_symbol (set_order (record o { status = rejected }) b))
  process_instrument orm env (some i) o b =
      let after = after_timestamp b o in
      process_snapshot orm env i.id
        (latest_trusted_market_snapshot_after env.batches env.snapshots env.now env.stale i.id
          after)
        after o b

  unfoldable pub process_order : Orm F → Env F → BrokerOrder F → Book F → Option (Book F)
  process_order orm env o b =
      if leb o.quantity o.filled_quantity
      then some (set_order (record o { status = filled }) b)
      else elim (entry_gate env b.portfolio o) [
        | some m ↦ some (refuse env m o b)
        | none ↦ process_instrument orm env (find (λ i. i.ticker == o.symbol) env.instruments) o b
      ]

  -- The loop; `none` is an exception, after which the caller rolls the session back.
  unfoldable pub process_orders : Orm F → Env F → List (BrokerOrder F) → Book F → Option (Book F)
  process_orders orm env [] b = some b
  process_orders orm env (o ∷ os) b = elim (process_order orm env o b) [
    | none ↦ none
    | some b' ↦ process_orders orm env os b'
  ]

  unfoldable pub process_pending_orders :
      Orm F → Env F → Option (List Side) → Book F → Option (Book F)
  process_pending_orders orm env allowed b =
      process_orders orm env (pending_orders allowed b)
        (record b { processed = 0; filled = 0; messages = [] })
