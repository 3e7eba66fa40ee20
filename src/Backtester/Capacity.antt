-- ===== src/Backtester/Capacity.antt =====
-- The open positions of a backtest: never too many, one for each symbol, each of a hundred shares.
use mathlib.Core.Path.{subst}
use iran_market_radar.Base.{
  ℕ, ◌+◌, ◌≤◌, ◌<◌, ◌≡◌, refl, sym, ◌&&◌, Bool, true, false, Option, none, some, List, [], ◌∷◌,
  ◌++◌, length, ltb, leb, ◌==◌, exists_in, arith, by_if, by_option, append-nil,
}
use iran_market_radar.Float.{Float, of_nat, ◌≤f◌, feq}
use iran_market_radar.Strategies.{Evaluation, raised, nothing, found}
use iran_market_radar.Backtester.{Bar, Series, Holding, Config, State, bar_on, bar_of}
use iran_market_radar.Backtester.Days.{
  history_of, enter_with, record_day, enter_symbol, enter_all, enter_day, value_day, step_day,
  simulate, first_state,
}
use iran_market_radar.Backtester.Trades.{
  track, exit_of, sell_holding, settle, settle_all, buy_holding, open_candidate, follow, entry_of,
  loss_of, cost_of,
}
use iran_market_radar.Backtester.Fits.{
  Fits, none_left, Fits-Left, Fits-append, Settled, Settled-retained, Settled-sold,
}

lot_of : (qty : ℕ) (covered : Bool) → (leb 100 qty && covered) ≡ true → 100 ≤ qty
lot_of qty covered h = ground arith

module _ {F : Type 0} ⦃fl : Float F⦄ where
  data Settles (st : State F) (p : Holding F) (out : State F) : Type 0 where
    stays :
        (q : Holding F)
        → q.symbol ≡ p.symbol
        → q.quantity ≡ p.quantity
        → out.open_positions ≡ st.open_positions ++ q ∷ []
        → Settles st p out
    goes : out.open_positions ≡ st.open_positions → Settles st p out

  settle-Settles :
      (d : ℕ) (bar : Option (Bar F)) (p : Holding F) (st : State F)
      → Settles st p (settle d bar p st)
  unfolding settle sell_holding
  settle-Settles d none p st = stays _ refl refl refl
  settle-Settles d (some bar) p st =
      by_option (Settles st p) (exit_of bar (track bar p)) (λ _. stays (track bar p) refl refl refl)
        (λ r _. goes refl)

  next-Settled :
      (ps : List (Holding F)) (p : Holding F) (st next : State F) (out : List (Holding F))
      → Settles st p next
      → Settled next.open_positions ps out
      → Settled st.open_positions (p ∷ ps) out
  next-Settled ps p st next out (stays q s n e) h =
      Settled-retained st.open_positions ps out q p s n (subst (λ acc. Settled acc ps out) e h)
  next-Settled ps p st next out (goes e) h =
      Settled-sold st.open_positions ps out p (subst (λ acc. Settled acc ps out) e h)

  settle_all-Settled :
      (m : List (Series F)) (d : ℕ) (ps : List (Holding F)) (st : State F)
      → Settled st.open_positions ps (settle_all m d ps st).open_positions
  unfolding settle_all
  settle_all-Settled m d [] st = record {
    rest = [];
    same = sym (append-nil st.open_positions);
    left = none_left;
  }
  settle_all-Settled m d (p ∷ ps) st =
      next-Settled ps p st (settle d (bar_of p.symbol d m) p st) _
        (settle-Settles d (bar_of p.symbol d m) p st)
        (settle_all-Settled m d ps (settle d (bar_of p.symbol d m) p st))

  abbrev FitsState : ℕ → Option (State F) → Type 0
  FitsState most none = Unit
  FitsState most (some st) = Fits most st.open_positions

  buy_holding-Fits :
      (cfg : Config F) (d symbol : ℕ) (entry stop target : F) (qty : ℕ) (st : State F)
      → length st.open_positions < cfg.max_active_positions
      → exists_in (λ p. p.symbol == symbol) st.open_positions ≡ false
      → Fits cfg.max_active_positions st.open_positions
      → Fits cfg.max_active_positions
          (buy_holding cfg d symbol entry stop target qty st).open_positions
  unfolding buy_holding
  buy_holding-Fits cfg d symbol entry stop target qty st room absent h =
      by_if (λ (x : State F). Fits cfg.max_active_positions x.open_positions)
        (leb 100 qty && (cost_of entry qty ≤f st.cash))
        (λ buys.
          Fits-append cfg.max_active_positions st.open_positions _ room absent (lot_of qty _ buys)
            h)
        (λ _. h)

  module _ (cfg : Config F) where
    abbrev Good : Option (State F) → Type 0
    Good r = FitsState cfg.max_active_positions r

    follow-Fits :
        (d symbol : ℕ) (today : Bar F) (e : Evaluation F) (st : State F)
        → length st.open_positions < cfg.max_active_positions
        → exists_in (λ p. p.symbol == symbol) st.open_positions ≡ false
        → Fits cfg.max_active_positions st.open_positions
        → Good (follow cfg d symbol today e st)
    unfolding follow open_candidate
    follow-Fits d symbol today raised st room absent h = tt
    follow-Fits d symbol today nothing st room absent h = h
    follow-Fits d symbol today (found c) st room absent h =
        by_if Good (fl.dec 50 2 ≤f c.vote)
          (λ _.
            by_if Good (feq (entry_of c today) (of_nat 0)) (λ _. tt)
              (λ _.
                by_if Good (feq (loss_of (entry_of c today) c.stop_price) (of_nat 0)) (λ _. tt)
                  (λ _. buy_holding-Fits cfg d symbol _ _ _ _ st room absent h)))
          (λ _. h)

    enter_with-Fits :
        (d symbol : ℕ) (history : List (Bar F)) (today : Option (Bar F)) (st : State F)
        → length st.open_positions < cfg.max_active_positions
        → exists_in (λ p. p.symbol == symbol) st.open_positions ≡ false
        → Fits cfg.max_active_positions st.open_positions
        → Good (enter_with cfg d symbol history today st)
    unfolding enter_with
    enter_with-Fits d symbol history none st room absent h = h
    enter_with-Fits d symbol history (some today) st room absent h =
        by_if Good (ltb (length history) 30) (λ _. h)
          (λ _. follow-Fits d symbol today _ st room absent h)

    enter_symbol-Fits :
        (d prev : ℕ) (s : Series F) (st : State F)
        → length st.open_positions < cfg.max_active_positions
        → Fits cfg.max_active_positions st.open_positions
        → Good (enter_symbol cfg d prev s st)
    unfolding enter_symbol
    enter_symbol-Fits d prev s st room h =
        by_if Good (exists_in (λ p. p.symbol == s.symbol) st.open_positions) (λ _. h)
          (λ absent.
            enter_with-Fits d s.symbol (history_of prev s) (bar_on d s.bars) st room absent h)

    enter_all-Fits :
        (d prev : ℕ) (ss : List (Series F)) (st : State F)
        → Fits cfg.max_active_positions st.open_positions
        → Good (enter_all cfg d prev ss st)
    unfolding enter_all
    enter_all-Fits d prev [] st h = h
    enter_all-Fits d prev (s ∷ ss) st h =
        by_if Good (leb cfg.max_active_positions (length st.open_positions)) (λ _. h)
          (λ room.
            by_option Good (enter_symbol cfg d prev s st) (λ _. tt)
              (λ st' e.
                enter_all-Fits d prev ss st'
                  (subst Good e (enter_symbol-Fits d prev s st (ground arith) h))))

    step_day-Fits :
        (m : List (Series F)) (index prev d : ℕ) (st : State F)
        → Fits cfg.max_active_positions st.open_positions
        → Good (step_day cfg m index prev d st)
    unfolding step_day enter_day value_day record_day
    step_day-Fits m index prev d st h =
        let before = record st { open_positions = [] } in
        let settled = settle_all m d st.open_positions before in
        let s = settle_all-Settled m d st.open_positions before in
        let kept = subst (Fits cfg.max_active_positions) (sym s.same) (Fits-Left _ s.left h) in
        by_option Good (enter_day cfg m index prev d settled) (λ _. tt)
          (λ st' e. subst Good e (
            by_if Good
              (ltb (length settled.open_positions) cfg.max_active_positions && ltb 30 index)
              (λ _. enter_all-Fits d prev m settled kept) (λ _. kept)))

    simulate-Fits :
        (m : List (Series F)) (index prev : ℕ) (ds : List ℕ) (st : State F)
        → Fits cfg.max_active_positions st.open_positions
        → Good (simulate cfg m index prev ds st)
    unfolding simulate
    simulate-Fits m index prev [] st h = h
    simulate-Fits m index prev (d ∷ ds) st h =
        by_option Good (step_day cfg m index prev d st) (λ _. tt)
          (λ st' e.
            simulate-Fits m (index + 1) d ds st' (subst Good e (step_day-Fits m index prev d st h)))

  -- After any days of a backtest that raises no exception, the open positions are no more than the
  -- limit, no two of them are of one symbol, and each has at least a hundred shares.
  pub simulate-open :
      (cfg : Config F) (m : List (Series F)) (days : List ℕ) {st : State F}
      → simulate cfg m 0 0 days (first_state cfg) ≡ some st
      → Fits cfg.max_active_positions st.open_positions
  simulate-open cfg m days e = subst (FitsState cfg.max_active_positions) e (
      simulate-Fits cfg m 0 0 days (first_state cfg)
        (record { few = omega arith; apart = tt; lots = tt }))
