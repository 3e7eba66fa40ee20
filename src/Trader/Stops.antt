-- ===== src/Trader/Stops.antt =====
-- What the loop over the open positions does: each order that it submits is a guarded addition or an
-- exit that fits, and the holdings stay.
use mathlib.Core.Path.{subst}
use iran_market_radar.Base.{
  ℕ, ◌≡◌, refl, sym, ◌&&◌, not, Option, none, some, List, [], ◌∷◌, ◌++◌, is_some, by_if, by_option,
  All, All-append, append_assoc, append-nil,
}
use iran_market_radar.Float.{Float, IsOrdered}
use iran_market_radar.Domain.{Position, BrokerOrder}
use iran_market_radar.Ledger.Orders.{Submission, accepted, refused, failed}
use iran_market_radar.Ledger.Orders.Guards.{IsExit, create_exit_order-IsExit}
use iran_market_radar.Ledger.Orders.Coverage.{IsAddition, scale_in_position-accepted}
use iran_market_radar.Trader.{ExitSignal, TraderDecision, Look, Desk, fresh_desk}
use iran_market_radar.Trader.Manage.{
  Watch, look_at, mark, open_log, initial_stop_of, initial_risk_per_share, current_r, exit_signal,
  may_scale_in, may_trim,
}
use iran_market_radar.Trader.Exits.{
  add_submission, count_exit, scale_in_step, trim_step, moves_stop, trail_desk, close_step, managed,
  manage_desk, check_exits,
}
use iran_market_radar.Trader.Kept.{
  AllKept, AllKept-refl, AllKept-exchange, mark-IsKept, managed-IsKept,
}

module _ {F : Type 0} ⦃fl : Float F⦄ where
  -- An order that the loop submits: a guarded addition to an open position, or an exit that, with the
  -- exits pending before the loop, sells no more than the position holds. `positions` are those of
  -- the portfolio at that moment.
  pub data IsSubmitted (w : Watch F) (ps : List (Position F)) (o : BrokerOrder F) : Type 0 where
    adds :
        (positions : List (Position F)) (position : ℕ) (price : F)
        → AllKept ps positions
        → IsAddition w.portfolio positions w.orders position price o
        → IsSubmitted w ps o
    leaves :
        (positions : List (Position F)) (position : ℕ)
        → AllKept ps positions
        → IsExit w.portfolio positions w.orders position o
        → IsSubmitted w ps o

  abbrev AllSubmitted : Watch F → List (Position F) → Option (Desk F) → Type 0
  AllSubmitted w ps none = Unit
  AllSubmitted w ps (some d) = All (IsSubmitted w ps) d.submitted

  module _ (w : Watch F) (ps : List (Position F)) where
    add_submission-AllSubmitted :
        (s : Submission F) (decision : TraderDecision) (look : Look F) (d : Desk F)
        → ((o : BrokerOrder F) → s ≡ accepted o → IsSubmitted w ps o)
        → All (IsSubmitted w ps) d.submitted
        → AllSubmitted w ps (add_submission s decision look d)
    unfolding add_submission
    add_submission-AllSubmitted (accepted o) decision look d h hs =
        All-append (IsSubmitted w ps) d.submitted (o ∷ []) hs (h o refl, tt)
    add_submission-AllSubmitted (refused m) decision look d h hs = hs
    add_submission-AllSubmitted failed decision look d h hs = tt

    count_exit-AllSubmitted :
        (s : Submission F) (decision : TraderDecision) (look : Look F) (d : Desk F)
        → ((o : BrokerOrder F) → s ≡ accepted o → IsSubmitted w ps o)
        → All (IsSubmitted w ps) d.submitted
        → AllSubmitted w ps (count_exit s decision look d)
    unfolding count_exit
    count_exit-AllSubmitted (accepted o) decision look d h hs =
        All-append (IsSubmitted w ps) d.submitted (o ∷ []) hs (h o refl, tt)
    count_exit-AllSubmitted (refused m) decision look d h hs = hs
    count_exit-AllSubmitted failed decision look d h hs = tt

    trail_desk-AllSubmitted :
        (p : Position F) (stop : Option F) (look : Look F) (d : Desk F)
        → All (IsSubmitted w ps) d.submitted
        → All (IsSubmitted w ps) (trail_desk p stop look d).submitted
    unfolding trail_desk
    trail_desk-AllSubmitted p stop look d hs =
        by_if (λ (x : Desk F). All (IsSubmitted w ps) x.submitted) (moves_stop p stop) (λ _. hs)
          (λ _. hs)

    module _ (positions : List (Position F)) (kept : AllKept ps positions) (p : Position F)
        (look : Look F) where
      scale_in_step-AllSubmitted :
          (reason : Option ExitSignal) (r : Option F) (d : Desk F)
          → All (IsSubmitted w ps) d.submitted
          → AllSubmitted w ps (scale_in_step w positions p look reason r d)
      unfolding scale_in_step
      scale_in_step-AllSubmitted reason r d hs =
          by_if (AllSubmitted w ps) (not (is_some reason) && may_scale_in w.policy p look r)
            (λ _.
              add_submission-AllSubmitted _ _ look d
                (λ o e. adds positions p.id look.price kept (
                  scale_in_position-accepted w.policy d.next_id w.now w.portfolio positions w.orders
                    p.id look.price o e))
                hs)
            (λ _. hs)

      trim_step-AllSubmitted :
          (reason : Option ExitSignal) (r : Option F) (d : Desk F)
          → All (IsSubmitted w ps) d.submitted
          → AllSubmitted w ps (trim_step w positions p look reason r d)
      unfolding trim_step
      trim_step-AllSubmitted reason r d hs =
          by_if (AllSubmitted w ps) (not (is_some reason) && may_trim w.policy p r)
            (λ _.
              add_submission-AllSubmitted _ _ look d
                (λ o e. leaves positions p.id kept (
                  create_exit_order-IsExit d.next_id w.now w.portfolio positions w.orders p.id
                    look.price _ _ o e))
                hs)
            (λ _. hs)

      close_step-AllSubmitted :
          (reason : Option ExitSignal) (d : Desk F)
          → All (IsSubmitted w ps) d.submitted
          → AllSubmitted w ps (close_step w positions p look reason d)
      unfolding close_step
      close_step-AllSubmitted none d hs = hs
      close_step-AllSubmitted (some reason) d hs =
          count_exit-AllSubmitted _ _ look d
            (λ o e. leaves positions p.id kept (
              create_exit_order-IsExit d.next_id w.now w.portfolio positions w.orders p.id
                look.price _ _ o e))
            hs

    manage_desk-AllSubmitted :
        (order : IsOrdered F) (before after : List (Position F)) (p : Position F) (look : Look F)
        (d : Desk F)
        → AllKept ps (before ++ p ∷ after)
        → All (IsSubmitted w ps) d.submitted
        → AllSubmitted w ps (manage_desk w before p after look d)
    unfolding manage_desk
    manage_desk-AllSubmitted order before after p look d kept hs =
        let q = mark look.price p in
        let risk = initial_risk_per_share q (initial_stop_of (open_log w q)) in
        let r = current_r q risk look.price in
        let reason = exit_signal q look in
        let marked =
          AllKept-exchange order ps before after p q (mark-IsKept order look.price p) kept in
        let trailed =
          AllKept-exchange order ps before after p (managed w look p)
            (managed-IsKept order w look p) kept in
        by_option (AllSubmitted w ps) (scale_in_step w (before ++ q ∷ after) q look reason r d)
          (λ _. tt)
          (λ d1 e1.
            let hs1 =
              subst (AllSubmitted w ps) e1
                (scale_in_step-AllSubmitted (before ++ q ∷ after) marked q look reason r d hs) in
            by_option (AllSubmitted w ps) (trim_step w (before ++ q ∷ after) q look reason r d1)
              (λ _. tt)
              (λ d2 e2.
                let hs2 =
                  subst (AllSubmitted w ps) e2
                    (trim_step-AllSubmitted (before ++ q ∷ after) marked q look reason r d1 hs1) in
                close_step-AllSubmitted (before ++ managed w look p ∷ after) trailed
                  (managed w look p) look _ _ (trail_desk-AllSubmitted q _ look d2 hs2)))

    abbrev IsManaged : Option (List (Position F) × Desk F) → Type 0
    IsManaged none = Unit
    IsManaged (some (qs, d)) = AllKept ps qs × All (IsSubmitted w ps) d.submitted

    check_exits-IsManaged :
        (order : IsOrdered F) (before after : List (Position F)) (d : Desk F)
        → AllKept ps (before ++ after)
        → All (IsSubmitted w ps) d.submitted
        → IsManaged (check_exits w before after d)
    unfolding check_exits
    check_exits-IsManaged order before [] d kept hs =
        (subst (AllKept ps) (append-nil before) kept, hs)
    check_exits-IsManaged order before (p ∷ after) d kept hs =
        let skip =
          check_exits-IsManaged order (before ++ p ∷ []) after d
            (subst (AllKept ps) (sym (append_assoc before (p ∷ []) after)) kept) hs in
        by_if IsManaged (not p.is_open) (λ _. skip)
          (λ _.
            by_option IsManaged (look_at w p) (λ _. skip)
              (λ look _.
                by_option IsManaged (manage_desk w before p after look d) (λ _. tt)
                  (λ d' e.
                    check_exits-IsManaged order (before ++ managed w look p ∷ []) after d'
                      (subst (AllKept ps) (sym (append_assoc before (managed w look p ∷ []) after))
                        (AllKept-exchange order ps before after p (managed w look p)
                          (managed-IsKept order w look p) kept))
                      (subst (AllSubmitted w ps) e
                        (manage_desk-AllSubmitted order before after p look d kept hs)))))

  -- What the loop makes of the positions `ps` of the portfolio, if it does not raise: no position is
  -- opened, closed or changed in its quantity and its average price, and a stop is never removed or
  -- lowered; and every order submitted is either an addition to one of the open positions, with the
  -- kill switch off, for a position that is not at a loss and within the cash that the purchases
  -- pending before the loop do not reserve; or the exit of an open position, that, taken by itself
  -- with the exits pending before the loop, sells no more than is held.
  pub check_exits-AllKept :
      (order : IsOrdered F) (w : Watch F) (ps : List (Position F)) (id : ℕ) {qs : List (Position F)}
      {d : Desk F}
      → check_exits w [] ps (fresh_desk id) ≡ some (qs, d)
      → AllKept ps qs × All (IsSubmitted w ps) d.submitted
  check_exits-AllKept order w ps id e =
      subst (IsManaged w ps) e
        (check_exits-IsManaged w ps order [] ps (fresh_desk id) (AllKept-refl order ps) tt)
