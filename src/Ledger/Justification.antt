-- ===== src/Ledger/Justification.antt =====
-- The run of `process_pending_orders`: every audit that it leaves is of a justified fill.
use mathlib.Core.Path.{subst}
use mathlib.Core.List.{Mem, mem-cons_self, mem-cons_of_mem}
use iran_market_radar.Base.{
  ◌+◌, length, ◌≡◌, sym, ap, ◌∙◌, Bool, true, ◌&&◌, Option, none, some, List, [], ◌∷◌, ◌++◌, leb,
  ◌==◌, keep, arith, All, All-map, by_if, by_option, append_assoc, append-nil,
}
use iran_market_radar.Float.{Float}
use iran_market_radar.Domain.{Portfolio, BrokerOrder, Side, DecisionAudit, CashLedger}
use iran_market_radar.Trusted.Freshness.{All-keep}
use iran_market_radar.Ledger.Book.{Ensures, Ensures-apply, Book, Env, Orm}
use iran_market_radar.Ledger.Pending.{
  process_order, process_orders, process_pending_orders, pending_orders, campaign_allows_entry,
  single_campaign, is_active_status, is_pending, in_sides, sort_by_time, insert_by_time,
}
use iran_market_radar.Ledger.Audited.{row_side, decides, SameMandate, AuditStep, silent, audited}
use iran_market_radar.Ledger.Mandate.{Justified, process_order-AuditStep}

All-self {ℓ} : {A : Type ℓ} (xs : List A) → All (λ x. Mem x xs) xs
All-self [] = tt
All-self (x ∷ xs) = (mem-cons_self, All-map xs (λ y m. mem-cons_of_mem x m) (All-self xs))

module _ {F : Type 0} where
  -- A pending order of the portfolio on an allowed side.
  abbrev pub IsCandidate : Option (List Side) → Book F → BrokerOrder F → Type 0
  IsCandidate allowed b o =
      Mem o b.orders
      × (o.portfolio_id ≡ b.portfolio.id)
      × (is_pending o.status ≡ true)
      × (in_sides allowed o.side ≡ true)

  All-insert :
      (P : BrokerOrder F → Type 0) (o : BrokerOrder F) (xs : List (BrokerOrder F))
      → P o
      → All P xs
      → All P (insert_by_time o xs)
  All-insert P o [] p h = (p, tt)
  All-insert P o (x ∷ xs) p h =
      by_if (All P) (leb o.created_at x.created_at) (λ _. (p, h))
        (λ _. (h.0, All-insert P o xs p h.1))

  pub All-sort :
      (P : BrokerOrder F → Type 0) (xs : List (BrokerOrder F)) → All P xs → All P (sort_by_time xs)
  All-sort P [] h = tt
  All-sort P (x ∷ xs) h = All-insert P x (sort_by_time xs) h.0 (All-sort P xs h.1)

  pending_orders-IsCandidate :
      (allowed : Option (List Side)) (b : Book F)
      → All (IsCandidate allowed b) (pending_orders allowed b)
  unfolding pending_orders
  pending_orders-IsCandidate allowed b = All-sort (IsCandidate allowed b) (keep passes b.orders) (
      All-map (keep passes b.orders) (λ o h. let p = split o h.0 in (h.1, p.0, p.1, p.2))
        (All-keep (λ o. Mem o b.orders) passes b.orders (All-self b.orders)))
    where
      passes : BrokerOrder F → Bool
      passes o = o.portfolio_id == b.portfolio.id && is_pending o.status && in_sides allowed o.side

      split :
          (o : BrokerOrder F)
          → passes o ≡ true
          → (o.portfolio_id ≡ b.portfolio.id)
            × (is_pending o.status ≡ true)
            × (in_sides allowed o.side ≡ true)
      split o h = ground arith

  campaign-same :
      (env : Env F) (p q : Portfolio F)
      → q.id ≡ p.id
      → campaign_allows_entry env q ≡ campaign_allows_entry env p
  unfolding campaign_allows_entry
  campaign-same env p q h =
      ap
        (λ n.
          single_campaign
            (keep (λ c. c.portfolio_id == n && is_active_status c.status) env.campaigns) env.now)
        h

  Justified-before :
      (env : Env F) (b c : Book F) (o : BrokerOrder F) (a : DecisionAudit)
      → SameMandate b c
      → Justified env c.portfolio o a
      → Justified env b.portfolio o a
  Justified-before env b c o a same j = record {
    same_symbol = j.same_symbol;
    same_side = j.same_side;
    priced = j.priced;
    may_buy = λ side.
        let may = j.may_buy side in
        (sym same.1 ∙ may.0, sym (campaign-same env b.portfolio c.portfolio same.0) ∙ may.1, may.2);
  }

  -- For each audit the cash row of a fill on its side, in the same order.
  abbrev pub Paired : List DecisionAudit → List (CashLedger F) → Type 0
  Paired [] [] = Unit
  Paired [] (r ∷ rs) = ⊥
  Paired (a ∷ as') [] = ⊥
  Paired (a ∷ as') (r ∷ rs) = (row_side r.transaction_type ≡ decides a.decision) × Paired as' rs

  pub Paired-append :
      (as' bs : List DecisionAudit) (rs ss : List (CashLedger F))
      → Paired as' rs
      → Paired bs ss
      → Paired (as' ++ bs) (rs ++ ss)
  Paired-append [] bs [] ss h k = k
  Paired-append [] bs (r ∷ rs) ss h k = absurd h
  Paired-append (a ∷ as') bs [] ss h k = absurd h
  Paired-append (a ∷ as') bs (r ∷ rs) ss h k = (h.0, Paired-append as' bs rs ss h.1 k)

  -- The audits and the cash rows that a run adds, each audit with the order that justifies it.
  pub record Audits (Q : BrokerOrder F → Type 0) (env : Env F) (b b' : Book F) : Type 0 where
    pub added : List DecisionAudit
    pub appended : b'.audits ≡ b.audits ++ added
    pub counted : b'.filled ≡ b.filled + length added
    pub rows : List (CashLedger F)
    pub booked : b'.cash_rows ≡ b.cash_rows ++ rows
    pub paired : Paired added rows
    pub justified : All (λ a. (o : BrokerOrder F) × Q o × Justified env b.portfolio o a) added

  module _ (Q : BrokerOrder F → Type 0) (env : Env F) where
    none-Audits : (b : Book F) → Audits Q env b b
    none-Audits b = record {
      added = [];
      appended = sym (append-nil b.audits);
      counted = omega arith;
      rows = [];
      booked = sym (append-nil b.cash_rows);
      paired = tt;
      justified = tt;
    }

    before :
        (b c : Book F) (xs : List DecisionAudit)
        → SameMandate b c
        → All (λ a. (o : BrokerOrder F) × Q o × Justified env c.portfolio o a) xs
        → All (λ a. (o : BrokerOrder F) × Q o × Justified env b.portfolio o a) xs
    before b c xs same h = All-map xs (λ a j. (j.0, j.1, Justified-before env b c j.0 a same j.2)) h

    step-Audits :
        (o : BrokerOrder F) {b c d : Book F}
        → Q o
        → AuditStep (Justified env b.portfolio o) b c
        → Audits Q env c d
        → Audits Q env b d
    step-Audits o {b} {c} q (silent same h n k) r = record {
      added = r.added;
      appended = r.appended ∙ ap (λ x. x ++ r.added) h;
      counted = omega (arith, r.counted, n);
      rows = r.rows;
      booked = r.booked ∙ ap (λ x. x ++ r.rows) k;
      paired = r.paired;
      justified = before b c r.added same r.justified;
    }
    step-Audits o {b} {c} q (audited a row same h n k side j) r = record {
      added = a ∷ r.added;
      appended = r.appended ∙ ap (λ x. x ++ r.added) h ∙ append_assoc b.audits (a ∷ []) r.added;
      counted = omega (arith, r.counted, n);
      rows = row ∷ r.rows;
      booked = r.booked ∙ ap (λ x. x ++ r.rows) k ∙ append_assoc b.cash_rows (row ∷ []) r.rows;
      paired = (side, r.paired);
      justified = ((o, q, j), before b c r.added same r.justified);
    }

    Ensures-step :
        (o : BrokerOrder F) (b c : Book F) (r : Option (Book F))
        → Q o
        → AuditStep (Justified env b.portfolio o) b c
        → Ensures (Audits Q env c) r
        → Ensures (Audits Q env b) r
    Ensures-step o b c none q h a = tt
    Ensures-step o b c (some d) q h a = step-Audits o q h a

module _ {F : Type 0} ⦃fl : Float F⦄ where
  process_orders-Audits :
      (Q : BrokerOrder F → Type 0) (orm : Orm F) (env : Env F) (os : List (BrokerOrder F))
      (b : Book F)
      → All Q os
      → Ensures (Audits Q env b) (process_orders orm env os b)
  unfolding process_orders
  process_orders-Audits Q orm env [] b q = none-Audits Q env b
  process_orders-Audits Q orm env (o ∷ os) b q =
      by_option (Ensures (Audits Q env b)) (process_order orm env o b) (λ _. tt)
        (λ c e.
          Ensures-step Q env o b c (process_orders orm env os c) q.0
            (subst (Ensures (AuditStep (Justified env b.portfolio o) b)) e
              (process_order-AuditStep orm env o b))
            (process_orders-Audits Q orm env os c q.1))

  -- When a batch of pending orders is processed and does not raise, it appends as many audits as it
  -- reports fills, and for each audit, in the same order, the cash row of a fill on the same side,
  -- and no other cash row. Each audit is of an order of the session that was pending in this
  -- portfolio on an allowed side; its fill is dated by a snapshot of the order's instrument from a
  -- complete and eligible official batch, later than the order, not in the future and no older than
  -- the limit; and if the order is a purchase, the kill switch is off, exactly one active campaign
  -- is within its window, and the order refers to a position or to an actionable signal that has
  -- not expired.
  pub process_pending_orders-Justified :
      (orm : Orm F) (env : Env F) (allowed : Option (List Side)) (b b' : Book F)
      → process_pending_orders orm env allowed b ≡ some b'
      → (added : List DecisionAudit) × (b'.audits ≡ b.audits ++ added)
        × (b'.filled ≡ length added)
        × ((rows : List (CashLedger F)) × (b'.cash_rows ≡ b.cash_rows ++ rows) × Paired added rows)
        × All
            (λ a. (o : BrokerOrder F) × IsCandidate allowed b o × Justified env b.portfolio o a)
            added
  unfolding process_pending_orders
  process_pending_orders-Justified orm env allowed b b' e =
      let a =
        Ensures-apply (Audits _ env _)
          (process_orders-Audits (IsCandidate allowed b) orm env _ _
            (pending_orders-IsCandidate allowed b))
          e in
      (a.added, a.appended, omega (arith, a.counted), (a.rows, a.booked, a.paired), a.justified)
