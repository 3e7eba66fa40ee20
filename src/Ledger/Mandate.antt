-- ===== src/Ledger/Mandate.antt =====
-- Every filled order of `process_pending_orders` is justified: a pending order on an allowed side, a
-- fresh official price later than the order, and for a purchase an open campaign, a kill switch that
-- is off and a valid reference.
use iran_market_radar.Base.{
  ℕ, ◌+◌, ◌≤◌, ◌<◌, ◌≡◌, refl, ◌∙◌, sym, ap, ◌⊎◌, true, false, Option, none, some, [], ◌∷◌, ◌++◌,
  leb, ◌==◌, find-passes, eq_of_==, arith, by_if, by_option,
}
use iran_market_radar.Float.{Float}
use iran_market_radar.Domain.{
  Portfolio, BrokerOrder, OrderFill, MarketSnapshot, buy, Instrument, by_side_cases, DecisionAudit,
}
use iran_market_radar.Execution.Lifecycle.{simulate_order_fill-IsOutcome}
use iran_market_radar.Trusted.{
  is_trusted, latest_trusted_market_snapshot_after, previous_trusted_snapshot,
}
use iran_market_radar.Trusted.Freshness.{latest_trusted_market_snapshot_after-fresh}
use iran_market_radar.Ledger.Book.{Ensures, Book, Env, Orm}
use iran_market_radar.Ledger.Pending.{
  apply_fill, process_volume, process_snapshot, process_instrument, process_order,
  incremental_volume, entry_gate, after_timestamp, simulate, incremental_bar, campaign_allows_entry,
  is_position_ref, signal_is_valid, signal_by_ref,
}
use iran_market_radar.Ledger.Audited.{
  SameMandate, AuditStep, silent, audited, IsAuditOf, AuditStep-map, decides, apply_buy-AuditStep,
  apply_sell-AuditStep, reject_fill-AuditStep,
}

module _ {F : Type 0} where
  AuditStep-from :
      {P : DecisionAudit → Type 0} {b c d : Book F}
      → SameMandate b c
      → c.audits ≡ b.audits
      → c.filled ≡ b.filled
      → c.cash_rows ≡ b.cash_rows
      → AuditStep P c d
      → AuditStep P b d
  AuditStep-from same audits count rows (silent h i n k) =
      silent (h.0 ∙ same.0, h.1 ∙ same.1) (i ∙ audits) (n ∙ count) (k ∙ rows)
  AuditStep-from same audits count rows (audited a r h i n k side p) =
      audited a r (h.0 ∙ same.0, h.1 ∙ same.1) (i ∙ ap (λ x. x ++ a ∷ []) audits)
        (n ∙ ap (λ m. m + 1) count) (k ∙ ap (λ x. x ++ r ∷ []) rows) side p

  Ensures-from :
      {P Q : DecisionAudit → Type 0} (b c : Book F) (o : Option (Book F))
      → ((a : DecisionAudit) → P a → Q a)
      → SameMandate b c
      → c.audits ≡ b.audits
      → c.filled ≡ b.filled
      → c.cash_rows ≡ b.cash_rows
      → Ensures (AuditStep P c) o
      → Ensures (AuditStep Q b) o
  Ensures-from b c none f same audits count rows h = tt
  Ensures-from b c (some d) f same audits count rows h =
      AuditStep-map f (AuditStep-from same audits count rows h)

  -- The official price that a fill is carried out on.
  pub record Priced (env : Env F) (o : BrokerOrder F) (at : ℕ) : Type 0 where
    pub instrument : Instrument
    pub snapshot : MarketSnapshot F
    pub names_symbol : instrument.ticker ≡ o.symbol
    pub of_instrument : snapshot.instrument_id ≡ instrument.id
    pub trusted : is_trusted env.batches snapshot ≡ true
    pub dated : snapshot.source_timestamp ≡ at
    pub after_order : o.created_at < at
    pub not_future : at ≤ env.now
    pub fresh : env.now ≤ at + env.stale

  -- What a purchase needs.
  abbrev pub MayBuy : Env F → Portfolio F → BrokerOrder F → Type 0
  MayBuy env p o =
      (p.kill_switch_active ≡ false)
      × (campaign_allows_entry env p ≡ true)
      × ((is_position_ref o.signal_id ≡ true)
          ⊎ (signal_is_valid env.now (signal_by_ref env o.signal_id) ≡ true))

  pub record Justified (env : Env F) (p : Portfolio F) (o : BrokerOrder F) (a : DecisionAudit)
      : Type 0 where
    pub same_symbol : a.symbol ≡ o.symbol
    pub same_side : decides a.decision ≡ o.side
    pub priced : Priced env o a.as_of
    pub may_buy : o.side ≡ buy → MayBuy env p o

  entry_gate-MayBuy :
      (env : Env F) (p : Portfolio F) (o : BrokerOrder F)
      → entry_gate env p o ≡ none
      → o.side ≡ buy
      → MayBuy env p o
  unfolding entry_gate
  entry_gate-MayBuy env p o e side = ground arith

  after_timestamp-later : (b : Book F) (o : BrokerOrder F) → o.created_at ≤ after_timestamp b o
  unfolding after_timestamp
  after_timestamp-later b o = ground arith

module _ {F : Type 0} ⦃fl : Float F⦄ where
  apply_fill-AuditStep :
      (orm : Orm F) (env : Env F) (s : MarketSnapshot F)
      → (o : BrokerOrder F) (f : OrderFill F) (b : Book F)
      → Ensures (AuditStep (IsAuditOf o s.source_timestamp o.side) b) (apply_fill orm env s o f b)
  unfolding apply_fill
  apply_fill-AuditStep orm env s o f b =
      by_side_cases (Ensures (AuditStep _ b)) o.side
        (λ e.
          Ensures-from b _ _ (λ a p. (p.0, p.1, p.2 ∙ sym e)) (refl, refl) refl refl refl
            (apply_buy-AuditStep _ o _ _ orm _))
        (λ e.
          Ensures-from b _ _ (λ a p. (p.0, p.1, p.2 ∙ sym e)) (refl, refl) refl refl refl
            (apply_sell-AuditStep _ o _ _ orm))
        (λ e.
          Ensures-from b _ _ (λ a p. p) (refl, refl) refl refl refl
            (reject_fill-AuditStep 0 o _ _ _ orm _))

  process_volume-AuditStep :
      (orm : Orm F) (env : Env F) (s : MarketSnapshot F) (volume : ℕ)
      → (o : BrokerOrder F) (b : Book F) → o.filled_quantity ≤ o.quantity
      → Ensures
          (AuditStep (IsAuditOf o s.source_timestamp o.side) b)
          (process_volume orm env s volume o b)
  unfolding process_volume
  process_volume-AuditStep orm env s volume o b h =
      let kept =
        simulate_order_fill-IsOutcome _ _ env.now o (incremental_bar s volume) false false h in
      by_option (Ensures (AuditStep _ b)) (simulate env o s volume).fill
        (λ _. silent (refl, refl) refl refl refl)
        (λ f _.
          Ensures-from b _ _ (λ a p. (p.0 ∙ kept.same_symbol, p.1, p.2 ∙ kept.same_side))
            (refl, refl) refl refl refl (apply_fill-AuditStep orm env s _ f _))

  module _ (orm : Orm F) (env : Env F) where
    -- The snapshot found is one for which `G` holds.
    process_snapshot-AuditStep :
        (G : MarketSnapshot F → Type 0) (instrument : ℕ) (found : Option (MarketSnapshot F))
        → ((s : MarketSnapshot F) → found ≡ some s → G s)
        → (after : ℕ) (o : BrokerOrder F) (b : Book F) → o.filled_quantity ≤ o.quantity
        → Ensures
            (AuditStep
              (λ a. (s : MarketSnapshot F) × G s × IsAuditOf o s.source_timestamp o.side a)
              b)
            (process_snapshot orm env instrument found after o b)
    unfolding process_snapshot
    process_snapshot-AuditStep G instrument none good after o b h =
        silent (refl, refl) refl refl refl
    process_snapshot-AuditStep G instrument (some s) good after o b h =
        by_if (Ensures (AuditStep _ b))
          (incremental_volume (previous_trusted_snapshot env.batches env.snapshots instrument after)
              s
            == 0)
          (λ _. silent (refl, refl) refl refl refl)
          (λ _.
            Ensures-from b _ _ (λ a p. (s, good s refl, p)) (refl, refl) refl refl refl
              (process_volume-AuditStep orm env s _ _ _ h))

    -- The fresh snapshot of an instrument justifies a fill on it.
    fresh-Justified :
        (o : BrokerOrder F) (b : Book F) (i : Instrument)
        → i.ticker ≡ o.symbol
        → (o.side ≡ buy → MayBuy env b.portfolio o)
        → (a : DecisionAudit)
        → (s : MarketSnapshot F) × (latest_trusted_market_snapshot_after env.batches env.snapshots
              env.now env.stale i.id
              (after_timestamp b o)
            ≡ some s)
          × IsAuditOf o s.source_timestamp o.side a
        → Justified env b.portfolio o a
    fresh-Justified o b i named may a (s, found, audit) =
        let fresh =
          latest_trusted_market_snapshot_after-fresh env.batches env.snapshots env.now env.stale
            i.id (after_timestamp b o) found in
        let later = after_timestamp-later b o in
        record {
          same_symbol = audit.0;
          same_side = audit.2;
          priced = record {
            instrument = i;
            snapshot = s;
            names_symbol = named;
            of_instrument = fresh.1;
            trusted = fresh.0;
            dated = sym audit.1;
            after_order = omega (arith, fresh.2, later, audit.1);
            not_future = omega (arith, fresh.3, audit.1);
            fresh = omega (arith, fresh.4, audit.1);
          };
          may_buy = may;
        }

    process_instrument-AuditStep :
        (found : Option Instrument) (o : BrokerOrder F) (b : Book F)
        → ((i : Instrument) → found ≡ some i → i.ticker ≡ o.symbol)
        → (o.side ≡ buy → MayBuy env b.portfolio o)
        → o.filled_quantity ≤ o.quantity
        → Ensures (AuditStep (Justified env b.portfolio o) b) (process_instrument orm env found o b)
    unfolding process_instrument
    process_instrument-AuditStep none o b named may h = silent (refl, refl) refl refl refl
    process_instrument-AuditStep (some i) o b named may h =
        Ensures-from b b _ (fresh-Justified o b i (named i refl) may) (refl, refl) refl refl refl
          (process_snapshot-AuditStep _ i.id _ (λ s e. e) _ o b h)

    pub process_order-AuditStep :
        (o : BrokerOrder F) (b : Book F)
        → Ensures (AuditStep (Justified env b.portfolio o) b) (process_order orm env o b)
    unfolding process_order
    process_order-AuditStep o b =
        by_if (Ensures (AuditStep _ b)) (leb o.quantity o.filled_quantity)
          (λ _. silent (refl, refl) refl refl refl)
          (λ unfilled.
            by_option (Ensures (AuditStep _ b)) (entry_gate env b.portfolio o)
              (λ gate.
                process_instrument-AuditStep _ o b
                  (λ i found.
                    eq_of_== _ _ (find-passes (λ i. i.ticker == o.symbol) env.instruments found))
                  (entry_gate-MayBuy env b.portfolio o gate) (ground (arith, unfilled)))
              (λ m _. silent (refl, refl) refl refl refl))
