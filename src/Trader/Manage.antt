-- ===== src/Trader/Manage.antt =====
-- `AutoPaperTrader._check_exits` and `_submit_exit`: exits, additions, partial sales and the trailing
-- stop of the open positions.
use iran_market_radar.Base.{
  ℕ, ◌/◌, ◌&&◌, Bool, true, false, not, Option, none, some, List, [], ◌∷◌, map, length, ltb, leb,
  ◌==◌, if◌then◌else◌, find, keep, exists_in, or_else,
}
use iran_market_radar.Float.{Float, ◌⊕◌, ◌⊖◌, ◌⊗◌, ◌⊘◌, ◌≤f◌, ◌<f◌, feq, of_nat, fmax}
use iran_market_radar.Domain.{
  Position, Portfolio, BrokerOrder, PaperTradeLog, Instrument, MarketSnapshot, MarketDataBatch,
  Flag, scaled_in, trimmed, text_flag, ExitReason, stop_loss_hit, target_1, signal_invalidated,
}
use iran_market_radar.Domain.History.{EodBar, ClientTypeSnapshot}
use iran_market_radar.Risk.{RiskPolicy}
use iran_market_radar.Trusted.{latest_trusted_market_snapshot}
use iran_market_radar.Trusted.History.{trusted_eod_query, trusted_client_type_query}
use iran_market_radar.Trader.{
  ExitSignal, indicator_deterioration, target_hit, stop_hit, Features, Look,
}

-- What `_check_exits` reads and does not change. `logs` are the open trade logs.
pub record Watch (F : Type 0) : Type 0 where
  pub policy : RiskPolicy F
  pub portfolio : Portfolio F
  pub orders : List (BrokerOrder F)
  pub instruments : List Instrument
  pub batches : List MarketDataBatch
  pub snapshots : List (MarketSnapshot F)
  pub bars : List (EodBar F)
  pub clients : List (ClientTypeSnapshot F)
  pub logs : List (PaperTradeLog F)
  pub compute_symbol_features : List (EodBar F) → List (ClientTypeSnapshot F) → Features F
  pub now : ℕ
  pub stale : ℕ

abbrev pub day_of : ℕ → ℕ
day_of t = t / 86_400_000_000

abbrev pub has_scaled_in : List Flag → Bool
has_scaled_in [] = false
has_scaled_in (scaled_in ∷ fs) = true
has_scaled_in (trimmed ∷ fs) = has_scaled_in fs
has_scaled_in (text_flag t ∷ fs) = has_scaled_in fs

abbrev pub has_trimmed : List Flag → Bool
has_trimmed [] = false
has_trimmed (trimmed ∷ fs) = true
has_trimmed (scaled_in ∷ fs) = has_trimmed fs
has_trimmed (text_flag t ∷ fs) = has_trimmed fs

-- `len({...})` of dates.
abbrev pub distinct_dates : List ℕ → List ℕ
distinct_dates [] = []
distinct_dates (d ∷ ds) =
    let rest = distinct_dates ds in if exists_in (λ x. x == d) rest then rest else d ∷ rest

-- The code of a signal; `_submit_exit` maps the four of them.
abbrev pub reason_code : ExitSignal → ExitReason
reason_code stop_hit = stop_loss_hit
reason_code target_hit = target_1
reason_code ExitSignal.time_stop = ExitReason.time_stop
reason_code indicator_deterioration = signal_invalidated

-- The last `n` of a list, `xs[-n:]`.
abbrev pub last_of {ℓ} : {A : Type ℓ} → ℕ → List A → List A
last_of n [] = []
last_of n (x ∷ xs) = let rest = last_of n xs in if leb (length (x ∷ xs)) n then x ∷ xs else rest

module _ {F : Type 0} ⦃fl : Float F⦄ where
  -- A test on three features, false where one is missing.
  abbrev pub on_features : Features F → (F → F → F → Bool) → Bool
  on_features f test = elim f.rsi_14 [
    | none ↦ false
    | some rsi ↦ elim f.ema_20 [
      | none ↦ false
      | some ema ↦ elim f.real_buyer_power_ratio [ none ↦ false | some power ↦ test rsi ema power ]
    ]
  ]

  abbrev pub at_most : F → Option F → Bool
  at_most price none = false
  at_most price (some limit) = limit ≤f price

  abbrev pub at_least : F → Option F → Bool
  at_least price none = false
  at_least price (some limit) = price ≤f limit

  -- What is seen of a position: `none` where the loop goes on to the next one.
  unfoldable pub look_at : Watch F → Position F → Option (Look F)
  look_at w p = elim (find (λ i. i.ticker == p.symbol) w.instruments) [
    | none ↦ none
    | some i ↦
        let bars = trusted_eod_query w.batches w.bars i.id in
        let clients = last_of 30 (trusted_client_type_query w.batches w.clients i.id) in
        let features = w.compute_symbol_features (last_of 30 bars) clients in
        if ltb (length bars) 30
        then none
        else elim (latest_trusted_market_snapshot w.batches w.snapshots w.now w.stale i.id) [
          | none ↦ none
          | some s ↦ some (record {
            price = s.last_price;
            source_timestamp = s.source_timestamp;
            features = record features {
              real_buyer_power_ratio =
                  if length clients == 0 then none else features.real_buyer_power_ratio;
            };
            dates = map (λ b. b.trading_date) bars;
          })
        ]
  ]

  -- The position is marked at the price.
  abbrev pub mark : F → Position F → Position F
  mark price p = record p {
    current_price = price;
    unrealized_pnl = (price ⊖ p.average_entry_price) ⊗ of_nat p.quantity;
  }

  abbrev pub open_log : Watch F → Position F → Option (PaperTradeLog F)
  open_log w p =
      find (λ l. l.portfolio_id == w.portfolio.id && l.symbol == p.symbol && not l.is_closed) w.logs

  abbrev pub initial_stop_of : Option (PaperTradeLog F) → Option F
  initial_stop_of none = none
  initial_stop_of (some l) = l.initial_stop

  unfoldable pub initial_risk_per_share : Position F → Option F → F
  initial_risk_per_share p none = of_nat 0
  initial_risk_per_share p (some stop) =
      if stop <f p.average_entry_price then p.average_entry_price ⊖ stop else of_nat 0

  unfoldable pub current_r : Position F → F → F → Option F
  current_r p risk price =
      if of_nat 0 <f risk then some ((price ⊖ p.average_entry_price) ⊘ risk) else none

  -- The reason to leave that is seen before the position is adjusted.
  unfoldable pub exit_signal : Position F → Look F → Option ExitSignal
  exit_signal p look =
      if on_features look.features
        (λ rsi ema power. (look.price <f ema) && (power <f fl.dec 8 1) && (rsi <f of_nat 48))
      then some indicator_deterioration
      else if at_most look.price p.target_price
      then some target_hit
      else if at_least look.price p.stop_loss
      then some stop_hit
      else none

  abbrev pub on_r : Option F → (F → Bool) → Bool
  on_r none test = false
  on_r (some r) test = test r

  unfoldable pub may_scale_in : RiskPolicy F → Position F → Look F → Option F → Bool
  may_scale_in policy p look r =
      on_r r (λ x.
        (policy.exit_management.scale_in_min_r ≤f x)
        && (x ≤f policy.exit_management.scale_in_max_r))
      && not (has_scaled_in p.risk_flags)
      && on_features look.features
          (λ rsi ema power. (rsi <f of_nat 72) && (ema <f look.price) && (fl.dec 12 1 <f power))

  unfoldable pub may_trim : RiskPolicy F → Position F → Option F → Bool
  may_trim policy p r =
      on_r r (λ x. policy.exit_management.trim_at_r ≤f x) && not (has_trimmed p.risk_flags)

  -- `proposed_stop`, for a position in profit by `r` times its initial risk.
  unfoldable pub proposed_stop : RiskPolicy F → Position F → F → F → Option F
  proposed_stop policy p risk r =
      let rules = policy.exit_management in
      let previous = or_else p.stop_loss (of_nat 0) in
      if rules.lock_one_r_trigger_r ≤f r
      then some (fmax previous (p.average_entry_price ⊕ risk))
      else if rules.lock_half_r_trigger_r ≤f r
      then some (fmax previous (p.average_entry_price ⊕ fl.dec 5 1 ⊗ risk))
      else if rules.breakeven_trigger_r ≤f r
      then some (fmax previous p.average_entry_price)
      else p.stop_loss

  abbrev pub same_stop : Option F → Option F → Bool
  same_stop none none = true
  same_stop (some a) (some b) = feq a b
  same_stop _ _ = false

  -- The time stop counts the sessions after the day of the purchase.
  unfoldable pub holding_sessions : Position F → Look F → ℕ
  holding_sessions p look = length (
      distinct_dates
        (keep (λ d. ltb (day_of p.opened_at) d && leb d (day_of look.source_timestamp)) look.dates))

  unfoldable pub time_is_up : Position F → Look F → Bool
  time_is_up p look =
      ltb 0 p.expected_days_to_target && leb p.expected_days_to_target (holding_sessions p look)
