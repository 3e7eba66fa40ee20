-- ===== src/Backtester/PointInTime.antt =====
-- A backtest does not look ahead: what it does up to a date depends on the bars up to that date.
use iran_market_radar.Base.{
  ℕ, ◌+◌, ◌≤◌, ◌≡◌, refl, sym, ap, ◌∙◌, ◌&&◌, false, Option, none, some, List, [], ◌∷◌, map, length,
  ltb, leb, ◌==◌, if◌then◌else◌, keep, exists_in, arith, All, Bool-cases, Option-cases, inl, inr,
}
use iran_market_radar.Float.{Float, fsum}
use iran_market_radar.Backtester.{Bar, Series, Holding, Config, State, bar_on, bar_of}
use iran_market_radar.Backtester.Days.{
  history_of, enter_with, values_at, record_day, enter_symbol, enter_all, enter_day, value_day,
  step_day, first_state, simulate,
}
use iran_market_radar.Backtester.Trades.{settle, settle_all}

module _ {F : Type 0} where
  -- The bars up to a date.
  abbrev pub up_to : ℕ → Series F → Series F
  up_to e s = record s { bars = keep (λ b. leb b.trading_date e) s.bars }

  bar_on-keep :
      (e d : ℕ) (bs : List (Bar F))
      → d ≤ e
      → bar_on d (keep (λ b. leb b.trading_date e) bs) ≡ bar_on d bs
  bar_on-keep e d [] p = refl
  bar_on-keep e d (b ∷ bs) p = elim (Bool-cases (leb b.trading_date e)) [
    | inl early ↦ simp (early, bar_on-keep e d bs p)
    | inr late ↦
        let off : (b.trading_date == d) ≡ false = ground arith in
        let rest = bar_on-keep e d bs p in
        elim (Option-cases (bar_on d bs)) [
          | inl absent ↦ simp (late, off, rest, absent)
          | inr (x, found) ↦ simp (late, rest, found)
        ]
  ]

  bar_of-up_to :
      (e symbol d : ℕ) (m : List (Series F))
      → d ≤ e
      → bar_of symbol d (map (up_to e) m) ≡ bar_of symbol d m
  bar_of-up_to e symbol d [] p = refl
  bar_of-up_to e symbol d (s ∷ ss) p = simp (bar_on-keep e d s.bars p, bar_of-up_to e symbol d ss p)

  keep-keep_earlier :
      (e prev : ℕ) (bs : List (Bar F))
      → prev ≤ e
      → keep (λ b. leb b.trading_date prev) (keep (λ b. leb b.trading_date e) bs)
        ≡ keep (λ b. leb b.trading_date prev) bs
  keep-keep_earlier e prev [] p = refl
  keep-keep_earlier e prev (b ∷ bs) p = elim (Bool-cases (leb b.trading_date e)) [
    | inl early ↦ simp (early, keep-keep_earlier e prev bs p)
    | inr late ↦
        let off : leb b.trading_date prev ≡ false = ground arith in
        simp (late, off, keep-keep_earlier e prev bs p)
  ]

then-pointwise {ℓ κ} :
    {A : Type ℓ} {B : Type κ} (r : Option A) {f g : A → Option B}
    → ((x : A) → f x ≡ g x)
    → (elim r [ none ↦ none | some x ↦ f x ]) ≡ (elim r [ none ↦ none | some x ↦ g x ])
then-pointwise none h = refl
then-pointwise (some x) h = h x

then-same {ℓ κ} :
    {A : Type ℓ} {B : Type κ} {r s : Option A} {f g : A → Option B}
    → r ≡ s
    → ((x : A) → f x ≡ g x)
    → (elim r [ none ↦ none | some x ↦ f x ]) ≡ (elim s [ none ↦ none | some x ↦ g x ])
then-same {s = s} {f = f} e h =
    ap (λ x. elim x [ none ↦ none | some y ↦ f y ]) e ∙ then-pointwise s h

module _ {F : Type 0} ⦃fl : Float F⦄ where
  settle_all-up_to :
      (e d : ℕ) (m : List (Series F)) (ps : List (Holding F)) (st : State F)
      → d ≤ e
      → settle_all (map (up_to e) m) d ps st ≡ settle_all m d ps st
  unfolding settle_all
  settle_all-up_to e d m [] st p = refl
  settle_all-up_to e d m (h ∷ hs) st p =
      settle_all-up_to e d m hs (settle d (bar_of h.symbol d (map (up_to e) m)) h st) p
      ∙ ap (λ bar. settle_all m d hs (settle d bar h st)) (bar_of-up_to e h.symbol d m p)

  enter_symbol-up_to :
      (cfg : Config F) (e d prev : ℕ) (s : Series F) (st : State F)
      → d ≤ e
      → prev ≤ e
      → enter_symbol cfg d prev (up_to e s) st ≡ enter_symbol cfg d prev s st
  unfolding enter_symbol
  enter_symbol-up_to cfg e d prev s st p q =
      ap
        (λ result.
          if exists_in (λ h. h.symbol == s.symbol) st.open_positions then some st else result)
        (ap (λ history. enter_with cfg d s.symbol history (bar_on d (up_to e s).bars) st)
            (keep-keep_earlier e prev s.bars q)
          ∙ ap (λ today. enter_with cfg d s.symbol (history_of prev s) today st)
              (bar_on-keep e d s.bars p))

  enter_all-up_to :
      (cfg : Config F) (e d prev : ℕ) (ss : List (Series F)) (st : State F)
      → d ≤ e
      → prev ≤ e
      → enter_all cfg d prev (map (up_to e) ss) st ≡ enter_all cfg d prev ss st
  unfolding enter_all
  enter_all-up_to cfg e d prev [] st p q = refl
  enter_all-up_to cfg e d prev (s ∷ ss) st p q =
      let same = enter_symbol-up_to cfg e d prev s st p q in
      elim (Option-cases (enter_symbol cfg d prev s st)) [
        | inl absent ↦ simp (same, absent)
        | inr (st', found) ↦ simp (same, found, enter_all-up_to cfg e d prev ss st' p q)
      ]

  values_at-up_to :
      (e d : ℕ) (m : List (Series F)) (ps : List (Holding F))
      → d ≤ e
      → values_at (map (up_to e) m) d ps ≡ values_at m d ps
  values_at-up_to e d m [] p = refl
  values_at-up_to e d m (h ∷ hs) p =
      simp (bar_of-up_to e h.symbol d m p, values_at-up_to e d m hs p)

  value_day-up_to :
      (e d : ℕ) (m : List (Series F)) (st : State F)
      → d ≤ e
      → value_day (map (up_to e) m) d st ≡ value_day m d st
  unfolding value_day
  value_day-up_to e d m st p =
      ap (λ values. record_day d (fsum values) st) (values_at-up_to e d m st.open_positions p)

  enter_day-up_to :
      (cfg : Config F) (e index prev d : ℕ) (m : List (Series F)) (st : State F)
      → d ≤ e
      → prev ≤ e
      → enter_day cfg (map (up_to e) m) index prev d st ≡ enter_day cfg m index prev d st
  unfolding enter_day
  enter_day-up_to cfg e index prev d m st p q =
      ap
        (λ result.
          if ltb (length st.open_positions) cfg.max_active_positions && ltb 30 index
          then result
          else some st)
        (enter_all-up_to cfg e d prev m st p q)

  step_day-up_to :
      (cfg : Config F) (e index prev d : ℕ) (m : List (Series F)) (st : State F)
      → d ≤ e
      → prev ≤ e
      → step_day cfg (map (up_to e) m) index prev d st ≡ step_day cfg m index prev d st
  unfolding step_day
  step_day-up_to cfg e index prev d m st p q =
      let before = record st { open_positions = [] } in
      let settled = settle_all m d st.open_positions before in
      let same =
        ap (enter_day cfg (map (up_to e) m) index prev d)
          (settle_all-up_to e d m st.open_positions before p)
        ∙ enter_day-up_to cfg e index prev d m settled p q in
      then-same same (λ st'. ap some (value_day-up_to e d m st' p))

  simulate-up_to :
      (cfg : Config F) (e index prev : ℕ) (m : List (Series F)) (ds : List ℕ) (st : State F)
      → prev ≤ e
      → All (λ d. d ≤ e) ds
      → simulate cfg (map (up_to e) m) index prev ds st ≡ simulate cfg m index prev ds st
  unfolding simulate
  simulate-up_to cfg e index prev m [] st q h = refl
  simulate-up_to cfg e index prev m (d ∷ ds) st q h =
      then-same (step_day-up_to cfg e index prev d m st h.0 q)
        (λ st'. simulate-up_to cfg e (index + 1) d m ds st' h.0 h.1)

  -- Two markets that agree on the bars up to a date give the same run over days up to that date: a
  -- backtest uses no later bar.
  pub simulate-PointInTime :
      (cfg : Config F) (e : ℕ) (m n : List (Series F)) (days : List ℕ)
      → map (up_to e) m ≡ map (up_to e) n
      → All (λ d. d ≤ e) days
      → simulate cfg m 0 0 days (first_state cfg) ≡ simulate cfg n 0 0 days (first_state cfg)
  simulate-PointInTime cfg e m n days same h =
      sym (simulate-up_to cfg e 0 0 m days (first_state cfg) (omega arith) h)
      ∙ ap (λ x. simulate cfg x 0 0 days (first_state cfg)) same
      ∙ simulate-up_to cfg e 0 0 n days (first_state cfg) (omega arith) h
