-- ===== src/Trader/Found.antt =====
-- What an opportunity of a scan has passed.
use mathlib.Core.Path.{subst}
use iran_market_radar.Base.{
  ℕ, ◌+◌, ◌≤◌, ◌≡◌, refl, ◌||◌, true, false, Option, none, some, List, [], ◌∷◌, map, length, ltb,
  arith, by_if, by_option, All, All-map, All-append, All-const,
}
use iran_market_radar.Float.{Float, of_nat, ◌≤f◌}
use iran_market_radar.Domain.{Position, Instrument, MarketSnapshot}
use iran_market_radar.Domain.History.{EodBar, ClientTypeSnapshot}
use iran_market_radar.Regime.{RegimeLabel}
use iran_market_radar.Trusted.{latest_trusted_market_snapshot}
use iran_market_radar.Trusted.History.{trusted_eod_query, trusted_client_type_query}
use iran_market_radar.Strategies.Registry.{evaluate_all, default_strategies}
use iran_market_radar.Trusted.Freshness.{All-keep}
use iran_market_radar.Gates.Fundamental.{evaluate_fundamental_gate}
use iran_market_radar.Strategies
use iran_market_radar.Scorer.{Published}
use iran_market_radar.Scorer.Votes.{qualifying_families}
use iran_market_radar.Scorer.Gate.{assemble_published_signal-IsTradable}
use iran_market_radar.Trader.Entries.{Opportunity}
use iran_market_radar.Trader.Scan.{
  ScanInput, Scanned, ScanResult, scan_raised, no_regime_evidence, scanned, is_held, pending_if,
  context_of, scan_at, scan_symbol, join_scans, scan_symbols,
}
use iran_market_radar.Trader.Signals.{
  insert_by_vote, sort_by_vote, top_vote, scored, publish, signal_of, opportunity_if, assemble_all,
  ranked, scan,
}

module _ {F : Type 0} ⦃fl : Float F⦄ where
  -- What the strategies answer on the trusted history of an instrument.
  abbrev pub answers_of :
      ScanInput F
      → RegimeLabel
      → Instrument
      → Option (List (iran_market_radar.Strategies.CandidateResult F))
  answers_of s regime i = evaluate_all default_strategies (
      context_of s regime i (
        s.compute_symbol_features (trusted_eod_query s.batches s.bars i.id)
          (trusted_client_type_query s.batches s.clients i.id)))

  -- A symbol that is scored: listed, not held, with enough history, and with the strategies' answers.
  record IsScored (s : ScanInput F) (regime : RegimeLabel) (positions : List (Position F))
      (x : Scanned F) : Type 0 where
    active : x.instrument.is_active ≡ true
    not_held : is_held positions x.instrument ≡ false
    history : s.min_history_sessions ≤ length (trusted_eod_query s.batches s.bars x.instrument.id)
    answered : answers_of s regime x.instrument ≡ some x.candidates

  -- An opportunity, with the symbol that it comes from.
  pub record IsFound (s : ScanInput F) (positions : List (Position F)) (o : Opportunity F)
      : Type 0 where
    pub instrument : Instrument
    pub regime : RegimeLabel
    pub classified : s.regime ≡ some regime
    pub candidates : List (iran_market_radar.Strategies.CandidateResult F)
    pub answered : answers_of s regime instrument ≡ some candidates
    pub same_id : o.instrument_id ≡ instrument.id
    pub same_symbol : o.signal.symbol ≡ instrument.ticker
    pub active : instrument.is_active ≡ true
    pub not_held : is_held positions instrument ≡ false
    pub history : s.min_history_sessions ≤ length (trusted_eod_query s.batches s.bars instrument.id)
    pub actionable : o.signal.actionable ≡ true
    pub backed :
        (evaluate_fundamental_gate s.fundamental instrument.id instrument.ticker s.now).passed
        ≡ true
    pub families :
        s.settings.min_independent_technical_families
        ≤ length (qualifying_families s.settings (map scored candidates))
    pub calibrated : s.calibrator.available ≡ true

  module _ (s : ScanInput F) (regime : RegimeLabel) (positions : List (Position F)) where
    abbrev AllScored : Option (List (Scanned F)) → Type 0
    AllScored none = Unit
    AllScored (some xs) = All (IsScored s regime positions) xs

    pending-AllScored :
        (i : Instrument) (bars : List (EodBar F)) (clients : List (ClientTypeSnapshot F))
        (m : MarketSnapshot F) (cs : Option (List (iran_market_radar.Strategies.CandidateResult F)))
        → i.is_active ≡ true
        → is_held positions i ≡ false
        → s.min_history_sessions ≤ length (trusted_eod_query s.batches s.bars i.id)
        → answers_of s regime i ≡ cs
        → AllScored (pending_if s i bars clients m cs)
    pending-AllScored i bars clients m none active free history e = tt
    pending-AllScored i bars clients m (some []) active free history e = tt
    pending-AllScored i bars clients m (some (c ∷ cs)) active free history e =
        (record { active = active; not_held = free; history = history; answered = e }, tt)

    scan_at-AllScored :
        (i : Instrument) (m : MarketSnapshot F)
        → i.is_active ≡ true
        → is_held positions i ≡ false
        → s.min_history_sessions ≤ length (trusted_eod_query s.batches s.bars i.id)
        → AllScored (
            scan_at s regime i
              (trusted_eod_query s.batches s.bars i.id)
              (trusted_client_type_query s.batches s.clients i.id)
              m)
    unfolding scan_at
    scan_at-AllScored i m active free history = pending-AllScored i _ _ m _ active free history refl

    scan_symbol-AllScored :
        (i : Instrument) → i.is_active ≡ true → AllScored (scan_symbol s regime positions i)
    unfolding scan_symbol
    scan_symbol-AllScored i active =
        by_if AllScored
          (ltb (length (trusted_eod_query s.batches s.bars i.id)) s.min_history_sessions) (λ _. tt)
          (λ enough.
            by_if AllScored (is_held positions i) (λ _. tt)
              (λ free.
                by_option AllScored
                  (latest_trusted_market_snapshot s.batches s.snapshots s.now s.stale i.id)
                  (λ _. tt)
                  (λ m _.
                    by_if AllScored ((m.allowed_min ≤f of_nat 0) || (m.allowed_max ≤f of_nat 0))
                      (λ _. tt) (λ _. scan_at-AllScored i m active free (ground (arith, enough))))))

    join-AllScored :
        (xs ys : Option (List (Scanned F)))
        → AllScored xs
        → AllScored ys
        → AllScored (join_scans xs ys)
    join-AllScored none ys h k = tt
    join-AllScored (some xs) none h k = tt
    join-AllScored (some xs) (some ys) h k = All-append (IsScored s regime positions) xs ys h k

    scan_symbols-AllScored :
        (is : List Instrument)
        → All (λ i. i.is_active ≡ true) is
        → AllScored (scan_symbols s regime positions is)
    unfolding scan_symbols
    scan_symbols-AllScored [] h = tt
    scan_symbols-AllScored (i ∷ is) h =
        join-AllScored (scan_symbol s regime positions i) (scan_symbols s regime positions is)
          (scan_symbol-AllScored i h.0) (scan_symbols-AllScored is h.1)

    insert-IsScored :
        (x : Scanned F) (xs : List (Scanned F))
        → IsScored s regime positions x
        → All (IsScored s regime positions) xs
        → All (IsScored s regime positions) (insert_by_vote x xs)
    insert-IsScored x [] h hs = (h, tt)
    insert-IsScored x (y ∷ ys) h hs =
        by_if (All (IsScored s regime positions)) (top_vote y ≤f top_vote x) (λ _. (h, hs))
          (λ _. (hs.0, insert-IsScored x ys h hs.1))

    sort-IsScored :
        (xs : List (Scanned F))
        → All (IsScored s regime positions) xs
        → All (IsScored s regime positions) (sort_by_vote xs)
    sort-IsScored [] h = tt
    sort-IsScored (x ∷ xs) h = insert-IsScored x (sort_by_vote xs) h.0 (sort-IsScored xs h.1)

    opportunity-IsFound :
        (given : s.regime ≡ some regime) (index count : ℕ) (x : Scanned F)
        (p : Option (Published F))
        → publish s regime index count x ≡ p
        → IsScored s regime positions x
        → All (IsFound s positions) (opportunity_if s regime x p)
    unfolding publish signal_of
    opportunity-IsFound given index count x none e h = tt
    opportunity-IsFound given index count x (some p) e h =
        by_if (All (IsFound s positions)) p.actionable
          (λ actionable.
            let trade = (assemble_published_signal-IsTradable _ _ _ _ _ _ _ _ p e).0 actionable in
            (
              record {
                instrument = x.instrument;
                regime = regime;
                classified = given;
                candidates = x.candidates;
                answered = h.answered;
                same_id = refl;
                same_symbol = refl;
                active = h.active;
                not_held = h.not_held;
                history = h.history;
                actionable = actionable;
                backed = trade.fundamental;
                families = trade.independent;
                calibrated = trade.calibrated;
              },
              tt,
            ))
          (λ _. tt)

    assemble_all-IsFound :
        (given : s.regime ≡ some regime) (count index : ℕ) (xs : List (Scanned F))
        → All (IsScored s regime positions) xs
        → All (IsFound s positions) (assemble_all s regime count index xs)
    unfolding assemble_all
    assemble_all-IsFound given count index [] h = tt
    assemble_all-IsFound given count index (x ∷ xs) h =
        All-append (IsFound s positions)
          (opportunity_if s regime x (publish s regime index count x)) _
          (opportunity-IsFound given index count x (publish s regime index count x) refl h.0)
          (assemble_all-IsFound given count (index + 1) xs h.1)

  abbrev AllFound : ScanInput F → List (Position F) → ScanResult F → Type 0
  AllFound s positions scan_raised = Unit
  AllFound s positions no_regime_evidence = Unit
  AllFound s positions (scanned xs) = All (IsFound s positions) xs

  ranked-AllFound :
      (s : ScanInput F) (regime : RegimeLabel) (positions : List (Position F))
      (r : Option (List (Scanned F)))
      → s.regime ≡ some regime
      → AllScored s regime positions r
      → AllFound s positions (ranked s regime r)
  ranked-AllFound s regime positions none given h = tt
  ranked-AllFound s regime positions (some xs) given h =
      assemble_all-IsFound s regime positions given (length xs) 0 (sort_by_vote xs)
        (sort-IsScored s regime positions xs h)

  -- Each opportunity of a scan that ends is of an active instrument without an open position, with at
  -- least the least number of trusted daily bars; its signal is actionable, with enough independent
  -- families among the candidates that all strategies give on its trusted history, evidence that passes the fundamental gate at
  -- that time, and a calibrated model.
  pub scan-IsFound :
      (s : ScanInput F) (positions : List (Position F)) {xs : List (Opportunity F)}
      → scan s positions ≡ scanned xs
      → All (IsFound s positions) xs
  unfolding scan
  scan-IsFound s positions e = subst (AllFound s positions) e (
      by_option (AllFound s positions) s.regime (λ _. tt)
        (λ regime given. ranked-AllFound s regime positions _ given (
          scan_symbols-AllScored s regime positions _ (
            All-map _ (λ i h. h.0)
              (All-keep (λ _. Unit {0}) (λ i. i.is_active) s.instruments
                (All-const s.instruments tt))))))
