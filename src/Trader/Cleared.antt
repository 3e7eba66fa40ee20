-- ===== src/Trader/Cleared.antt =====
-- What a cycle may buy: every purchase passes the gates, and the sales do not wait for them.
use mathlib.Core.Path.{subst}
use iran_market_radar.Base.{
  ℕ, All-map, ◌+◌, ◌≤◌, length, ◌≡◌, refl, sym, ap, ◌∙◌, ◌&&◌, ◌||◌, true, false, not, Option, none,
  some, List, [], ◌∷◌, ◌==◌, keep, arith, by_if, by_option, All, not-false, append-nil,
}
use iran_market_radar.Float.{Float, IsOrdered}
use iran_market_radar.Domain.{sell, Portfolio, Position, BrokerOrder, position_ref}
use iran_market_radar.Trader.{Desk, fresh_desk}
use iran_market_radar.Trader.Manage.{Watch}
use iran_market_radar.Trader.Stops.{IsSubmitted, adds, leaves, check_exits-AllKept}
use iran_market_radar.Campaign.{Result, ok, error, get_active_campaign_portfolio}
use iran_market_radar.Campaign.Window.{outside-closed}
use iran_market_radar.Gates.Passing.{IsReady}
use iran_market_radar.Ledger.Book.{Book, Ensures-apply}
use iran_market_radar.Ledger.Pending.{
  process_pending_orders, campaign_allows_entry, single_campaign, is_active_status,
}
use iran_market_radar.Ledger.Audited.{SameMandate}
use iran_market_radar.Trader.Entries.{max_new, open_positions}
use iran_market_radar.Trader.Gated.{
  sells_only, Cleared, Extends, IsManaged, Gated, IsGated, batch-Extends, after_exits-IsGated,
  batch-SameMandate,
}
use iran_market_radar.Ledger.Entry.{positions_of}
use iran_market_radar.Trader.Exits.{check_exits}
use iran_market_radar.Trader.Cycle.{
  SyncResult, synced, sync_failed, CycleInput, Report, Stage, ends, trade, resolve, after_sync,
  run_cycle, db_of, watch_of,
}

module _ {F : Type 0} ⦃fl : Float F⦄ where
  module _ (order : IsOrdered F) (inp : CycleInput F) where
    resolved-closed :
        (b : Book F) (p : Portfolio F)
        → get_active_campaign_portfolio (db_of inp) inp.env.now false ≡ ok (some p)
        → b.portfolio.id ≡ p.id
        → (e : _) → get_active_campaign_portfolio (db_of inp) inp.env.now true ≡ error e
        → campaign_allows_entry inp.env b.portfolio ≡ false
    unfolding campaign_allows_entry
    resolved-closed b p found same e refused =
        ap
          (λ n.
            single_campaign
              (keep (λ c. c.portfolio_id == n && is_active_status c.status) inp.env.campaigns)
              inp.env.now)
          same
        ∙ outside-closed (db_of inp) inp.env.now p e found refused

    unchanged : (b : Book F) → Extends inp b b
    unchanged b = record {
      added = [];
      appended = sym (append-nil b.audits);
      cleared = tt;
      rows = [];
      booked = sym (append-nil b.cash_rows);
      matched = tt;
    }

    module _ (start : Book F) (p : Portfolio F)
        (found : get_active_campaign_portfolio (db_of inp) inp.env.now false ≡ ok (some p)) where
      asked :
          (c : Book F) (r : List (Position F) × Desk F)
          → process_pending_orders inp.orm inp.env
              (some (sell ∷ []))
              (record start { portfolio = p })
            ≡ some c
          → check_exits
              (watch_of inp c)
              []
              (positions_of c.portfolio.id c.positions)
              (fresh_desk c.next_id)
            ≡ some r
          → All (IsManaged inp start) r.1.submitted
      asked c r sold e =
          All-map r.1.submitted
            (λ o h. record { p = p; resolved = found; c = c; sold = sold; of_loop = h })
            ((check_exits-AllKept order (watch_of inp c) (positions_of c.portfolio.id c.positions)
              c.next_id e).1)

      trade-IsGated :
          ((q : Option (Portfolio F))
            → get_active_campaign_portfolio (db_of inp) inp.env.now true ≡ ok q
            → IsReady inp.gate true
            → Cleared inp)
          → IsGated inp start (trade inp (record start { portfolio = p }))
      unfolding trade
      trade-IsGated clears =
          let b = record start { portfolio = p } in
          by_option (IsGated inp start)
            (process_pending_orders inp.orm inp.env (some (sell ∷ [])) b) (λ _. tt)
            (λ c e.
              let kept = Ensures-apply (SameMandate b) (batch-SameMandate inp.orm inp.env _ b) e in
              let sold =
                batch-Extends inp start _ b c e
                  (λ o a k j purchase. absurd (sells_only o.side k.3 (sym j.same_side ∙ purchase)))
                  from_start in
              by_option (IsGated inp start) (check_exits (watch_of inp c) [] _ _) (λ _. tt)
                (λ r managed.
                  after_exits-IsGated inp start _ _ (asked c r e managed)
                    (resolved-closed c p found kept.0) clears
                    (record {
                      added = sold.added;
                      appended = sold.appended;
                      cleared = sold.cleared;
                      rows = sold.rows;
                      booked = sold.booked;
                      matched = sold.matched;
                    })))
        where
          from_start : Extends inp start (record start { portfolio = p })
          from_start = record {
            added = [];
            appended = sym (append-nil start.audits);
            cleared = tt;
            rows = [];
            booked = sym (append-nil start.cash_rows);
            matched = tt;
          }

    stays : {stage : Stage} (b : Book F) → IsGated inp b (some (ends stage b))
    stays b = record { extended = unchanged b; entered = tt; managed = tt; fits = ground arith }

    resolve-IsGated :
        (b : Book F) (r : Result (Option (Portfolio F)))
        → get_active_campaign_portfolio (db_of inp) inp.env.now false ≡ r
        → ((q : Option (Portfolio F))
            → get_active_campaign_portfolio (db_of inp) inp.env.now true ≡ ok q
            → IsReady inp.gate true
            → Cleared inp)
        → IsGated inp b (resolve inp b r)
    unfolding resolve
    resolve-IsGated b (error e) found clears = tt
    resolve-IsGated b (ok none) found clears = stays b
    resolve-IsGated b (ok (some p)) found clears = trade-IsGated b p found clears

    after_sync-IsGated :
        (b : Book F) (s : SyncResult)
        → inp.sync ≡ s
        → inp.paper_only ≡ true
        → (inp.manual || inp.auto_enabled) ≡ true
        → inp.market_open ≡ true
        → IsGated inp b (after_sync inp b s)
    unfolding after_sync
    after_sync-IsGated b sync_failed e paper wanted opened = stays b
    after_sync-IsGated b (synced eligible) e paper wanted opened =
        by_if (IsGated inp b) (not eligible) (λ _. stays b)
          (λ yes. resolve-IsGated b _ refl (λ q found ready. record {
            paper = paper;
            wanted = wanted;
            open_market = opened;
            market_synced = e ∙ ap synced (not-false eligible yes);
            in_campaign = (q, found);
            ready = ready;
          }))

  run_cycle-Gated :
      (order : IsOrdered F) (inp : CycleInput F) (b : Book F) {r : Report F}
      → run_cycle inp b ≡ some r
      → Gated inp b r
  unfolding run_cycle
  run_cycle-Gated order inp b e = subst (IsGated inp b) e (
      by_if (IsGated inp b) (not inp.paper_only) (λ _. tt)
        (λ paper.
          by_if (IsGated inp b) (not inp.manual && not inp.auto_enabled) (λ _. stays order inp b)
            (λ wanted.
              by_if (IsGated inp b) (not inp.market_open) (λ _. stays order inp b)
                (λ opened.
                  after_sync-IsGated order inp b inp.sync refl (not-false _ paper) (ground arith)
                    (not-false _ opened)))))

  submitted-refers :
      (w : Watch F) (ps : List (Position F)) (o : BrokerOrder F)
      → IsSubmitted w ps o
      → (n : ℕ) × (o.signal_id ≡ position_ref n)
  submitted-refers w ps o (adds qs n price kept a) = (a.held.id, a.is_purchase.2)
  submitted-refers w ps o (leaves qs n kept x) = (n, x.refers)

  -- A cycle that does not raise submits at most three purchases on signals, and each other order that it
  -- submits refers to a position; and if it submits any on a signal, they and the positions that the
  -- loaded rows of the portfolio show as open at its end, without those that its own pending purchases
  -- have opened, are together no more than the policy's limit of active positions.
  pub run_cycle-entries :
      (order : IsOrdered F) (inp : CycleInput F) (b : Book F) {r : Report F}
      → run_cycle inp b ≡ some r
      → (length r.entries ≤ 3)
        × All (λ o. (n : ℕ) × (o.signal_id ≡ position_ref n)) r.submitted
        × (1 ≤ length r.entries
            → length r.entries
                + length (open_positions (positions_of r.book.portfolio.id r.book.positions))
              ≤ inp.policy.portfolio_limits.max_active_positions)
  unfolding max_new
  run_cycle-entries order inp b {r} e =
      let g = run_cycle-Gated order inp b e in
      let fits = g.fits in
      (
        ground (arith, fits),
        All-map r.submitted (λ o m. submitted-refers _ _ o m.of_loop) g.managed,
        λ some_entry. ground (arith, fits),
      )
