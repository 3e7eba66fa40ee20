-- ===== src/Trader/Exits.antt =====
-- `AutoPaperTrader._check_exits`: the loop over the open positions, and the orders that it submits.
use iran_market_radar.Base.{
  ℕ, ◌+◌, ◌&&◌, Bool, not, Option, none, some, List, [], ◌∷◌, ◌++◌, if◌then◌else◌, is_some,
}
use iran_market_radar.Float.{Float, of_nat, ◌<f◌}
use iran_market_radar.Domain.{Position, BrokerOrder, target_1}
use iran_market_radar.Ledger.Orders.{Submission, accepted, refused, failed, create_exit_order}
use iran_market_radar.Ledger.Orders.Purchase.{scale_in_position}
use iran_market_radar.Trader.{
  ExitSignal, TraderDecision, auto_scale_in_submitted, auto_trim_submitted, trailing_stop_updated,
  exit_submitted, Look, Desk,
}
use iran_market_radar.Trader.Manage.{
  Watch, reason_code, look_at, mark, open_log, initial_stop_of, initial_risk_per_share, current_r,
  exit_signal, may_scale_in, may_trim, proposed_stop, same_stop, time_is_up,
}

module _ {F : Type 0} where
  abbrev pub write_audit : ℕ → TraderDecision → ℕ → Desk F → Desk F
  write_audit symbol decision at d = record d {
    audits = d.audits ++ record { symbol = symbol; decision = decision; as_of = at } ∷ [];
  }

  -- `db.add_all([order, DecisionAudit(...)])` of an accepted order.
  abbrev pub submit_order : BrokerOrder F → TraderDecision → Look F → Desk F → Desk F
  submit_order o decision look d =
      write_audit o.symbol decision look.source_timestamp
        (record d { submitted = d.submitted ++ o ∷ []; next_id = d.next_id + 1 })

  -- An order that is refused leaves the session as it is; `none` is an exception.
  unfoldable pub add_submission : Submission F → TraderDecision → Look F → Desk F → Option (Desk F)
  add_submission (accepted o) decision look d = some (submit_order o decision look d)
  add_submission (refused m) decision look d = some d
  add_submission failed decision look d = none

  -- `exits += self._submit_exit(...)`.
  unfoldable pub count_exit : Submission F → TraderDecision → Look F → Desk F → Option (Desk F)
  count_exit (accepted o) decision look d =
      some (submit_order o decision look (record d { exits = d.exits + 1 }))
  count_exit (refused m) decision look d = some d
  count_exit failed decision look d = none

module _ {F : Type 0} ⦃fl : Float F⦄ where
  -- The automatic addition; `positions` is `portfolio.positions`.
  unfoldable pub scale_in_step :
      Watch F
      → List (Position F)
      → Position F
      → Look F
      → Option ExitSignal
      → Option F
      → Desk F
      → Option (Desk F)
  scale_in_step w positions p look reason r d =
      if not (is_some reason) && may_scale_in w.policy p look r
      then add_submission
          (scale_in_position w.policy d.next_id w.now w.portfolio positions w.orders p.id
            look.price)
          auto_scale_in_submitted look d
      else some d

  unfoldable pub trim_step :
      Watch F
      → List (Position F)
      → Position F
      → Look F
      → Option ExitSignal
      → Option F
      → Desk F
      → Option (Desk F)
  trim_step w positions p look reason r d =
      if not (is_some reason) && may_trim w.policy p r
      then add_submission
          (create_exit_order d.next_id w.now w.portfolio positions w.orders p.id look.price
            w.policy.exit_management.trim_fraction target_1)
          auto_trim_submitted look d
      else some d

  -- The stop that the position is to have.
  unfoldable pub next_stop : Watch F → Position F → Option ExitSignal → F → Option F → Option F
  next_stop w p reason risk none = p.stop_loss
  next_stop w p reason risk (some r) =
      if not (is_some reason) && (of_nat 0 <f risk)
      then proposed_stop w.policy p risk r
      else p.stop_loss

  abbrev pub moves_stop : Position F → Option F → Bool
  moves_stop p stop = is_some stop && not (same_stop stop p.stop_loss)

  unfoldable pub trail_position : Position F → Option F → Position F
  trail_position p stop = if moves_stop p stop then record p { stop_loss = stop } else p

  unfoldable pub trail_desk : Position F → Option F → Look F → Desk F → Desk F
  trail_desk p stop look d =
      if moves_stop p stop
      then write_audit p.symbol trailing_stop_updated look.source_timestamp d
      else d

  unfoldable pub final_reason : Position F → Look F → Option ExitSignal → Option ExitSignal
  final_reason p look reason =
      if is_some reason
      then reason
      else if time_is_up p look
      then some ExitSignal.time_stop
      else none

  unfoldable pub close_step :
      Watch F
      → List (Position F)
      → Position F
      → Look F
      → Option ExitSignal
      → Desk F
      → Option (Desk F)
  close_step w positions p look none d = some d
  close_step w positions p look (some reason) d =
      count_exit
        (create_exit_order d.next_id w.now w.portfolio positions w.orders p.id look.price (of_nat 1)
          (reason_code reason))
        (exit_submitted (reason_code reason)) look d

  -- The position after its stop has been trailed.
  unfoldable pub managed : Watch F → Look F → Position F → Position F
  managed w look p =
      let q = mark look.price p in
      let risk = initial_risk_per_share q (initial_stop_of (open_log w q)) in
      trail_position q (next_stop w q (exit_signal q look) risk (current_r q risk look.price))

  -- One round of the loop, on a position between the others of the portfolio.
  unfoldable pub manage_desk :
      Watch F
      → List (Position F)
      → Position F
      → List (Position F)
      → Look F
      → Desk F
      → Option (Desk F)
  manage_desk w before p after look d =
      let q = mark look.price p in
      let risk = initial_risk_per_share q (initial_stop_of (open_log w q)) in
      let r = current_r q risk look.price in
      let reason = exit_signal q look in
      let stop = next_stop w q reason risk r in
      elim (scale_in_step w (before ++ q ∷ after) q look reason r d) [
        | none ↦ none
        | some d1 ↦ elim (trim_step w (before ++ q ∷ after) q look reason r d1) [
          | none ↦ none
          | some d2 ↦
              close_step w (before ++ managed w look p ∷ after) (managed w look p) look
                (final_reason (managed w look p) look reason) (trail_desk q stop look d2)
        ]
      ]

  -- The rest of the loop: the positions before are done. `none` is an exception.
  unfoldable pub check_exits :
      Watch F → List (Position F) → List (Position F) → Desk F → Option (List (Position F) × Desk F)
  check_exits w before [] d = some (before, d)
  check_exits w before (p ∷ after) d =
      let skip = check_exits w (before ++ p ∷ []) after d in
      if not p.is_open then skip else elim (look_at w p) [
        | none ↦ skip
        | some look ↦ elim (manage_desk w before p after look d) [
          | none ↦ none
          | some d' ↦ check_exits w (before ++ managed w look p ∷ []) after d'
        ]
      ]
