-- ===== src/Attribution/Counters.antt =====
-- The counters of an indicator are those of the trades that have its feature.
use mathlib.Core.Path.{subst}
use iran_market_radar.Base.{
  ℕ, ◌+◌, ◌≡◌, ◌≢◌, refl, sym, ap, ◌∙◌, Bool, true, false, not, ◌&&◌, Option, none, some, List, [],
  ◌∷◌, ◌==◌, if◌then◌else◌, length, keep, is_some, arith, by_if, eq_of_==, exists_in, Bool-cases,
  inl, inr, All, DistinctOn,
}
use iran_market_radar.Float.{Float}
use iran_market_radar.Attribution.{
  IndicatorDefinition, IndicatorPerformance, AttributedTrade, is_profitable, fresh_performance,
  count_trade, update_row, update_if, update_indicator_attribution, attribute_all,
  indicator_definitions,
}

module _ {F : Type 0} ⦃fl : Float F⦄ where
  -- The row of a name, or the row that would be added.
  abbrev pub row_of : ℕ → List (IndicatorPerformance F) → IndicatorPerformance F
  row_of n [] = fresh_performance n
  row_of n (p ∷ ps) = let rest = row_of n ps in if p.indicator_name == n then p else rest

  -- A trade, as one indicator alone sees it.
  abbrev pub count_if :
      Option F → AttributedTrade F → IndicatorPerformance F → IndicatorPerformance F
  count_if none t p = p
  count_if (some value) t p = count_trade t p

  abbrev pub replay : ℕ → List (AttributedTrade F) → IndicatorPerformance F → IndicatorPerformance F
  replay n [] p = p
  replay n (t ∷ ts) p = replay n ts (count_if (t.features_at_entry n) t p)

  count_trade-name :
      (t : AttributedTrade F) (p : IndicatorPerformance F)
      → (count_trade t p).indicator_name ≡ p.indicator_name
  unfolding count_trade
  count_trade-name t p =
      by_if (λ (x : IndicatorPerformance F). x.indicator_name ≡ p.indicator_name) (is_profitable t)
        (λ _. refl) (λ _. refl)

  row_of-update_same :
      (n : ℕ) (t : AttributedTrade F) (ps : List (IndicatorPerformance F))
      → row_of n (update_row n t ps) ≡ count_trade t (row_of n ps)
  unfolding update_row
  row_of-update_same n t [] =
      let same = count_trade-name t (fresh_performance n) in
      let here : ((count_trade t (fresh_performance n)).indicator_name == n) ≡ true =
        ground (arith, same) in
      simp (here)
  row_of-update_same n t (p ∷ ps) = elim (Bool-cases (p.indicator_name == n)) [
    | inl here ↦
        let same = count_trade-name t p in
        let there : ((count_trade t p).indicator_name == n) ≡ true = ground (arith, same, here) in
        simp (here, there)
    | inr other ↦ simp (other, row_of-update_same n t ps)
  ]

  row_of-update_other :
      (n m : ℕ) (t : AttributedTrade F) (ps : List (IndicatorPerformance F))
      → m ≢ n
      → row_of n (update_row m t ps) ≡ row_of n ps
  unfolding update_row
  row_of-update_other n m t [] ne =
      let same = count_trade-name t (fresh_performance m) in
      let other : ((count_trade t (fresh_performance m)).indicator_name == n) ≡ false =
        ground (arith, same, ne) in
      simp (other)
  row_of-update_other n m t (p ∷ ps) ne = elim (Bool-cases (p.indicator_name == m)) [
    | inl here ↦
        let same = count_trade-name t p in
        let old : (p.indicator_name == n) ≡ false = ground (arith, here, ne) in
        let new : ((count_trade t p).indicator_name == n) ≡ false =
          ground (arith, same, here, ne) in
        simp (here, old, new)
    | inr other ↦ simp (other, row_of-update_other n m t ps ne)
  ]

  update_if-same :
      (n : ℕ) (v : Option F) (t : AttributedTrade F) (ps : List (IndicatorPerformance F))
      → row_of n (update_if v n t ps) ≡ count_if v t (row_of n ps)
  update_if-same n none t ps = refl
  update_if-same n (some value) t ps = row_of-update_same n t ps

  update_if-other :
      (n m : ℕ) (v : Option F) (t : AttributedTrade F) (ps : List (IndicatorPerformance F))
      → m ≢ n
      → row_of n (update_if v m t ps) ≡ row_of n ps
  update_if-other n m none t ps ne = refl
  update_if-other n m (some value) t ps ne = row_of-update_other n m t ps ne

  attribution-other :
      (n : ℕ) (ds : List (IndicatorDefinition F)) (t : AttributedTrade F)
      (ps : List (IndicatorPerformance F))
      → All (λ d. n ≢ d.name) ds
      → row_of n (update_indicator_attribution ds t ps) ≡ row_of n ps
  unfolding update_indicator_attribution
  attribution-other n [] t ps h = refl
  attribution-other n (d ∷ ds) t ps h =
      attribution-other n ds t _ h.1
      ∙ update_if-other n d.name (t.features_at_entry d.name) t ps (λ e. h.0 (sym e))

  attribution-same :
      (n : ℕ) (ds : List (IndicatorDefinition F)) (t : AttributedTrade F)
      (ps : List (IndicatorPerformance F))
      → DistinctOn (λ (d : IndicatorDefinition F). d.name) ds
      → exists_in (λ d. d.name == n) ds ≡ true
      → row_of n (update_indicator_attribution ds t ps)
        ≡ count_if (t.features_at_entry n) t (row_of n ps)
  unfolding update_indicator_attribution
  attribution-same n [] t ps apart there = cc
  attribution-same n (d ∷ ds) t ps apart there = elim (Bool-cases (d.name == n)) [
    | inl here ↦
        let e = eq_of_== d.name n here in
        attribution-other n ds t _ (subst (λ m. All (λ c. m ≢ c.name) ds) e apart.0)
        ∙ subst
            (λ m.
              row_of m (update_if (t.features_at_entry d.name) d.name t ps)
              ≡ count_if (t.features_at_entry m) t (row_of m ps))
            e (update_if-same d.name (t.features_at_entry d.name) t ps)
    | inr other ↦
        attribution-same n ds t _ apart.1 (ground (arith, there, other))
        ∙ ap (count_if (t.features_at_entry n) t) (
            update_if-other n d.name (t.features_at_entry d.name) t ps
              (λ e. ground (arith, other, e)))
  ]

  attribute_all-replay :
      (n : ℕ) (ds : List (IndicatorDefinition F)) (ts : List (AttributedTrade F))
      (ps : List (IndicatorPerformance F))
      → DistinctOn (λ (d : IndicatorDefinition F). d.name) ds
      → exists_in (λ d. d.name == n) ds ≡ true
      → row_of n (attribute_all ds ts ps) ≡ replay n ts (row_of n ps)
  unfolding attribute_all
  attribute_all-replay n ds [] ps apart there = refl
  attribute_all-replay n ds (t ∷ ts) ps apart there =
      attribute_all-replay n ds ts _ apart there
      ∙ ap (replay n ts) (attribution-same n ds t ps apart there)

  -- The trades that have the feature, and of them those that made a profit.
  abbrev pub has_feature : ℕ → AttributedTrade F → Bool
  has_feature n t = is_some (t.features_at_entry n)

  -- The counters of a row after trades: what they were, and how many there are.
  pub record Counts (n : ℕ) (ts : List (AttributedTrade F)) (p q : IndicatorPerformance F)
      : Type 0 where
    pub total : q.total_signals ≡ p.total_signals + length (keep (has_feature n) ts)
    pub profitable :
        q.profitable_signals
        ≡ p.profitable_signals + length (keep (λ t. has_feature n t && is_profitable t) ts)
    pub lost :
        q.loss_signals
        ≡ p.loss_signals + length (keep (λ t. has_feature n t && not (is_profitable t)) ts)

  replay-Counts :
      (n : ℕ) (ts : List (AttributedTrade F)) (p : IndicatorPerformance F)
      → Counts n ts p (replay n ts p)
  unfolding count_trade
  replay-Counts n [] p = record {
    total = omega arith;
    profitable = omega arith;
    lost = omega arith;
  }
  replay-Counts n (t ∷ ts) p =
      let h = replay-Counts n ts (count_if (t.features_at_entry n) t p) in
      record {
        total = ground (arith, h.total);
        profitable = ground (arith, h.profitable);
        lost = ground (arith, h.lost);
      }

  -- From an empty table, whatever trades are attributed: the row of each indicator is what its own
  -- trades, those with a value for its feature, make of it, whatever the other indicators say; its
  -- total counts these trades, and its two counters those with a profit and those without.
  pub attribute_all-Counts :
      (n : ℕ) (ts : List (AttributedTrade F))
      → exists_in (λ (d : IndicatorDefinition F). d.name == n) indicator_definitions ≡ true
      → let row = row_of n (attribute_all indicator_definitions ts []) in
        (row ≡ replay n ts (fresh_performance n)) × Counts n ts (fresh_performance n) row
  attribute_all-Counts n ts there =
      let same = attribute_all-replay n indicator_definitions ts [] (ground arith) there in
      (
        same,
        subst (Counts n ts (fresh_performance n)) (sym same)
            (replay-Counts n ts (fresh_performance n)),
      )
