-- ===== src/Trader/Gated.antt =====
-- The stages of a cycle: what its purchases need, and how many there are.
use mathlib.Core.Path.{subst}
use iran_market_radar.Trader.Stops.{IsSubmitted}
use iran_market_radar.Base.{
  ◌≤◌, length, ◌≡◌, refl, sym, ap, ◌∙◌, ◌||◌, true, false, not, Option, none, some, List, [], ◌∷◌,
  ◌++◌, arith, by_if, by_option, All, All-map, All-append, All-const, not-false, append_assoc,
}
use iran_market_radar.Float.{Float}
use iran_market_radar.Domain.{
  Side, buy, sell, other_side, Portfolio, BrokerOrder, DecisionAudit, CashLedger,
}
use iran_market_radar.Campaign.{Result, ok, error, get_active_campaign_portfolio}
use iran_market_radar.Gates.Data.{evaluate_data_gate}
use iran_market_radar.Gates.Passing.{IsReady, evaluate_data_gate-allowed}
use iran_market_radar.Ledger.Book.{Book, Env, Orm, Ensures}
use iran_market_radar.Ledger.Pending.{
  process_order, process_orders, process_pending_orders, pending_orders, campaign_allows_entry,
  in_sides,
}
use iran_market_radar.Ledger.Audited.{SameMandate, AuditStep, silent, audited, decides}
use iran_market_radar.Ledger.Mandate.{Justified, process_order-AuditStep}
use iran_market_radar.Ledger.Justification.{
  Paired, Paired-append, IsCandidate, process_pending_orders-Justified,
}
use iran_market_radar.Trader.{Desk}
use iran_market_radar.Trader.Entries.{Opportunity, enter_best, max_new, guard_drawdown}
use iran_market_radar.Trader.Counted.{enter_best-length}
use iran_market_radar.Ledger.Entry.{positions_of}
use iran_market_radar.Trader.Scan.{ScanResult, scan_raised, no_regime_evidence, scanned}
use iran_market_radar.Trader.Cycle.{
  enter_on, synced, CycleInput, Report, process_buys, finish, enter, pass_gates, after_exits, db_of,
  market_of, watch_of,
}

pub sells_only : (s : Side) → in_sides (some (sell ∷ [])) s ≡ true → s ≡ buy → ⊥
sells_only buy h e = cc
sells_only sell h e = cc
sells_only other_side h e = cc

module _ {F : Type 0} ⦃fl : Float F⦄ where
  -- What the entries of a cycle need.
  pub record Cleared (inp : CycleInput F) : Type 0 where
    pub paper : inp.paper_only ≡ true
    pub wanted : (inp.manual || inp.auto_enabled) ≡ true
    pub open_market : inp.market_open ≡ true
    pub market_synced : inp.sync ≡ synced true
    pub in_campaign :
        (p : Option (Portfolio F)) × (get_active_campaign_portfolio (db_of inp) inp.env.now true
          ≡ ok p)
    pub ready : IsReady inp.gate true

  abbrev pub BuysWhen : CycleInput F → DecisionAudit → Type 0
  BuysWhen inp a = decides a.decision ≡ buy → Cleared inp

  -- A book with further audits, and for each the cash row of the same fill.
  pub record Extends (inp : CycleInput F) (base : Book F) (b : Book F) : Type 0 where
    pub added : List DecisionAudit
    pub appended : b.audits ≡ base.audits ++ added
    pub cleared : All (BuysWhen inp) added
    pub rows : List (CashLedger F)
    pub booked : b.cash_rows ≡ base.cash_rows ++ rows
    pub matched : Paired added rows

  -- An order of the loop over the open positions, in the book `c` that the pending sales leave of the
  -- book `base` with the campaign's portfolio `p`.
  pub record IsManaged (inp : CycleInput F) (base : Book F) (o : BrokerOrder F) : Type 0 where
    pub p : Portfolio F
    pub resolved : get_active_campaign_portfolio (db_of inp) inp.env.now false ≡ ok (some p)
    pub c : Book F
    pub sold :
        process_pending_orders inp.orm inp.env (some (sell ∷ [])) (record base { portfolio = p })
        ≡ some c
    pub of_loop : IsSubmitted (watch_of inp c) (positions_of c.portfolio.id c.positions) o

  pub record Gated (inp : CycleInput F) (base : Book F) (r : Report F) : Type 0 where
    pub extended : Extends inp base r.book
    pub entered : All (λ _. Cleared inp) r.entries
    pub managed : All (IsManaged inp base) r.submitted
    pub fits :
        length r.entries ≤ max_new inp.policy (positions_of r.book.portfolio.id r.book.positions)

  abbrev pub IsGated : CycleInput F → Book F → Option (Report F) → Type 0
  IsGated inp base none = Unit
  IsGated inp base (some r) = Gated inp base r

  module _ (inp : CycleInput F) (base : Book F) where
    pub batch-Extends :
        (allowed : Option (List Side)) (b b' : Book F)
        → process_pending_orders inp.orm inp.env allowed b ≡ some b'
        → ((o : BrokerOrder F) (a : DecisionAudit)
            → IsCandidate allowed b o
            → Justified inp.env b.portfolio o a
            → BuysWhen inp a)
        → Extends inp base b
        → Extends inp base b'
    batch-Extends allowed b b' e clears h =
        let j = process_pending_orders-Justified inp.orm inp.env allowed b b' e in
        record {
          added = h.added ++ j.0;
          appended = j.1 ∙ ap (λ x. x ++ j.0) h.appended ∙ append_assoc base.audits h.added j.0;
          rows = h.rows ++ j.3.0;
          booked = j.3.1 ∙ ap (λ x. x ++ j.3.0) h.booked ∙ append_assoc base.cash_rows h.rows j.3.0;
          matched = Paired-append h.added j.0 h.rows j.3.0 h.matched j.3.2;
          cleared =
              All-append (BuysWhen inp) h.added j.0 h.cleared
                (All-map j.0 (λ a x. clears x.0 a x.1 x.2) j.4);
        }

    process_buys-IsGated :
        (k : Book F → Option (Report F)) (b : Book F)
        → ((o : BrokerOrder F) (a : DecisionAudit)
            → Justified inp.env b.portfolio o a
            → BuysWhen inp a)
        → Extends inp base b
        → ((b' : Book F) → Extends inp base b' → IsGated inp base (k b'))
        → IsGated inp base (process_buys inp k b)
    unfolding process_buys
    process_buys-IsGated k b clears h next =
        by_option (IsGated inp base) (process_pending_orders inp.orm inp.env (some (buy ∷ [])) b)
          (λ _. tt) (λ b' e. next b' (batch-Extends _ b b' e (λ o a _ j. clears o a j) h))

    finish-IsGated :
        (d : Desk F) (xs : List (Opportunity F)) (b : Book F)
        → All (IsManaged inp base) d.submitted
        → Cleared inp
        → Extends inp base b
        → IsGated inp base (finish inp d xs b)
    unfolding finish guard_drawdown
    finish-IsGated d xs b m c h =
        by_option (IsGated inp base) (enter_best (market_of inp b) d.next_id xs) (λ _. tt)
          (λ os e. record {
            extended = record {
              added = h.added;
              appended = h.appended;
              cleared = h.cleared;
              rows = h.rows;
              booked = h.booked;
              matched = h.matched;
            };
            managed = m;
            entered = All-const os c;
            fits = enter_best-length (market_of inp b) d.next_id xs os e;
          })

    enter_on-IsGated :
        (d : Desk F) (b : Book F) (r : ScanResult F)
        → All (IsManaged inp base) d.submitted
        → Cleared inp
        → Extends inp base b
        → IsGated inp base (enter_on inp d b r)
    unfolding enter_on
    enter_on-IsGated d b scan_raised m c h = tt
    enter_on-IsGated d b no_regime_evidence m c h = record {
      extended = h;
      entered = tt;
      managed = m;
      fits = ground arith;
    }
    enter_on-IsGated d b (scanned xs) m c h = finish-IsGated d xs b m c h

    enter-IsGated :
        (d : Desk F) (b : Book F)
        → All (IsManaged inp base) d.submitted
        → Cleared inp
        → Extends inp base b
        → IsGated inp base (enter inp d b)
    unfolding enter
    enter-IsGated d b m c h = enter_on-IsGated d b _ m c h

    pass_gates-IsGated :
        (d : Desk F) (b : Book F) (r : Result (Option (Portfolio F)))
        → All (IsManaged inp base) d.submitted
        → ((e : _) → r ≡ error e → campaign_allows_entry inp.env b.portfolio ≡ false)
        → ((p : Option (Portfolio F)) → r ≡ ok p → IsReady inp.gate true → Cleared inp)
        → Extends inp base b
        → IsGated inp base (pass_gates inp d b r)
    unfolding pass_gates
    pass_gates-IsGated d b (error e) m closed clears h =
        process_buys-IsGated _ b
          (λ o a j purchase.
            let may = (j.may_buy (sym j.same_side ∙ purchase)).1 in let shut = closed e refl in cc)
          h (λ b' h'. record { extended = h'; entered = tt; managed = m; fits = ground arith })
    pass_gates-IsGated d b (ok p) m closed clears h =
        by_if (IsGated inp base) (not (evaluate_data_gate inp.gate true).allowed)
          (λ _. record { extended = h; entered = tt; managed = m; fits = ground arith })
          (λ passed.
            let c =
              clears p refl ((evaluate_data_gate-allowed inp.gate true).0 (not-false _ passed)) in
            process_buys-IsGated _ b (λ o a j purchase. c) h (λ b' h'. enter-IsGated d b' m c h'))

    pub after_exits-IsGated :
        (d : Desk F) (b : Book F)
        → All (IsManaged inp base) d.submitted
        → ((e : _)
            → get_active_campaign_portfolio (db_of inp) inp.env.now true ≡ error e
            → campaign_allows_entry inp.env b.portfolio ≡ false)
        → ((p : Option (Portfolio F))
            → get_active_campaign_portfolio (db_of inp) inp.env.now true ≡ ok p
            → IsReady inp.gate true
            → Cleared inp)
        → Extends inp base b
        → IsGated inp base (after_exits inp d b)
    unfolding after_exits
    after_exits-IsGated d b m closed clears h =
        by_if (IsGated inp base) b.portfolio.kill_switch_active
          (λ on.
            process_buys-IsGated _ b
              (λ o a j purchase. let off = (j.may_buy (sym j.same_side ∙ purchase)).0 in cc) h
              (λ b' h'. record { extended = h'; entered = tt; managed = m; fits = ground arith }))
          (λ _. pass_gates-IsGated d b _ m closed clears h)

  same_mandate : {P : DecisionAudit → Type 0} {b c : Book F} → AuditStep P b c → SameMandate b c
  same_mandate (silent h i n k) = h
  same_mandate (audited a r h i n k side p) = h

  Ensures-map :
      {P Q : Book F → Type 0} (r : Option (Book F))
      → ((b : Book F) → P b → Q b)
      → Ensures P r
      → Ensures Q r
  Ensures-map none f h = tt
  Ensures-map (some b) f h = f b h

  -- The processing of orders keeps the portfolio.
  process_orders-SameMandate :
      (orm : Orm F) (env : Env F) (os : List (BrokerOrder F)) (b : Book F)
      → Ensures (SameMandate b) (process_orders orm env os b)
  unfolding process_orders
  process_orders-SameMandate orm env [] b = (refl, refl)
  process_orders-SameMandate orm env (o ∷ os) b =
      by_option (Ensures (SameMandate b)) (process_order orm env o b) (λ _. tt)
        (λ c e.
          let first =
            same_mandate
              (subst (Ensures (AuditStep _ b)) e (process_order-AuditStep orm env o b)) in
          Ensures-map {P = SameMandate c} {Q = SameMandate b} _
            (λ d same. (same.0 ∙ first.0, same.1 ∙ first.1))
            (process_orders-SameMandate orm env os c))

  pub batch-SameMandate :
      (orm : Orm F) (env : Env F) (allowed : Option (List Side)) (b : Book F)
      → Ensures (SameMandate b) (process_pending_orders orm env allowed b)
  unfolding process_pending_orders
  batch-SameMandate orm env allowed b =
      process_orders-SameMandate orm env (pending_orders allowed b)
        (record b { processed = 0; filled = 0; messages = [] })
