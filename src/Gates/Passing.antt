-- ===== src/Gates/Passing.antt =====
-- When the data gate lets purchases through: exactly under conditions on the data that do not mention
-- the order of the checks.
use iran_market_radar.Base.{
  ℕ, ◌≤◌, ◌≡◌, refl, ◌↔◌, ◌&&◌, ◌||◌, Bool, true, false, not, Option, none, some, List, [], ◌∷◌,
  ◌++◌, length, ltb, leb, ◌==◌, find, keep, exists_in, is_some, arith, Option-cases, inl, inr,
}
use iran_market_radar.Domain.{MarketSnapshot, MarketDataBatch}
use iran_market_radar.Trusted.{is_trusted, latest, last_of_two, has_trusted_batch, batch_is_trusted}
use iran_market_radar.Trusted.Freshness.{All-keep, All-latest, All-rows}
use iran_market_radar.Gates.Data.{
  GateInput, BlockReason, reason_if, no_reason, age_seconds, newest_snapshot, batch_by_id,
  snapshot_reasons, receipt_is_usable, batch_reasons, independent_sources, watch_receipt,
  gate_reasons, evaluate_data_gate,
}

no_reason-append :
    (xs ys : List BlockReason) → no_reason (xs ++ ys) ≡ (no_reason xs && no_reason ys)
no_reason-append [] ys = refl
no_reason-append (x ∷ xs) ys = refl

no_reason-reason_if : (c : Bool) (r : BlockReason) → no_reason (reason_if c r) ≡ not c
no_reason-reason_if true r = refl
no_reason-reason_if false r = refl

batch-found :
    (batches : List MarketDataBatch) (id : ℕ)
    → exists_in (λ b. b.id == id && batch_is_trusted b) batches ≡ true
    → is_some (find (λ b. b.id == id) batches) ≡ true
batch-found [] id h = cc
batch-found (b ∷ bs) id h = ground (arith, batch-found bs id)

has_batch-found :
    (batches : List MarketDataBatch) (o : Option ℕ)
    → has_trusted_batch batches o ≡ true
    → is_some (batch_by_id batches o) ≡ true
has_batch-found batches none h = cc
has_batch-found batches (some id) h = batch-found batches id h

no_row-length {ℓ} :
    {A : Type ℓ} (p : A → Bool) (xs : List A) → ltb 0 (length (keep p xs)) ≡ exists_in p xs
no_row-length p [] = ground arith
no_row-length p (x ∷ xs) = ground (arith, no_row-length p xs)

module _ {F : Type 0} where
  abbrev pub is_fresh : GateInput F → MarketSnapshot F → Bool
  is_fresh g s = leb (age_seconds g.now s.source_timestamp) g.critical_market_stale_seconds

  abbrev fresh_if : GateInput F → Option (MarketSnapshot F) → Bool
  fresh_if g none = false
  fresh_if g (some s) = is_fresh g s

  fresh-last_of_two :
      (g : GateInput F) (x : MarketSnapshot F) (o : Option (MarketSnapshot F))
      → is_fresh g (last_of_two (λ s. s.source_timestamp) x o) ≡ (is_fresh g x || fresh_if g o)
  fresh-last_of_two g x none = ground arith
  fresh-last_of_two g x (some y) = ground arith

  -- The newest of the rows that pass is fresh exactly when some row that passes is.
  fresh-latest :
      (g : GateInput F) (p : MarketSnapshot F → Bool) (xs : List (MarketSnapshot F))
      → fresh_if g (latest (λ s. s.source_timestamp) (keep p xs))
        ≡ exists_in (λ s. p s && is_fresh g s) xs
  fresh-latest g p [] = refl
  fresh-latest g p (x ∷ xs) = ground (
    arith,
    fresh-latest g p xs,
    fresh-last_of_two g x (latest (λ s. s.source_timestamp) (keep p xs)),
  )

  no_reason-snapshot_reasons :
      (g : GateInput F) (o : Option (MarketSnapshot F))
      → no_reason (snapshot_reasons g o) ≡ fresh_if g o
  unfolding snapshot_reasons
  no_reason-snapshot_reasons g none = refl
  no_reason-snapshot_reasons g (some s) = ground arith

  trusted-has_batch :
      (batches : List MarketDataBatch) (s : MarketSnapshot F)
      → is_trusted batches s ≡ true
      → has_trusted_batch batches s.batch_id ≡ true
  unfolding is_trusted
  trusted-has_batch batches s h = ground arith

  -- A snapshot that the trusted query returns has its batch: the reason `no_batch` is never given.
  no_reason-batch_reasons :
      (g : GateInput F) → no_reason (batch_reasons g (newest_snapshot g)) ≡ true
  unfolding batch_reasons
  no_reason-batch_reasons g = elim (Option-cases (newest_snapshot g)) [
    | inl absent ↦ ground arith
    | inr (s, found) ↦
        let trusted =
          All-latest (λ (x : MarketSnapshot F). (is_trusted g.batches x ≡ true) × Unit {0})
            (λ (x : MarketSnapshot F). x.source_timestamp) (keep (is_trusted g.batches) g.snapshots)
            {x = s}
            (All-keep (λ _. Unit {0}) (is_trusted g.batches) g.snapshots (All-rows g.snapshots))
            found in
        let there =
          has_batch-found g.batches s.batch_id (trusted-has_batch g.batches s trusted.0) in
        ground arith
  ]

  -- The conditions on the data.
  pub record IsReady (g : GateInput F) (require : Bool) : Type 0 where
    pub official_mode : g.official_mode ≡ true
    pub no_fixture : exists_in (λ i. i.is_active && g.is_fixture i) g.instruments ≡ false
    pub fresh_market : exists_in (λ s. is_trusted g.batches s && is_fresh g s) g.snapshots ≡ true
    pub watch_healthy : receipt_is_usable (watch_receipt g) ≡ true
    pub enough_sources : g.minimum_fundamental_sources ≤ independent_sources g
    pub session_open : (require && not g.market_open) ≡ false

  allowed_lem :
      (g : GateInput F) (require : Bool)
      → (evaluate_data_gate g require).allowed ≡ (
          not (not g.official_mode)
          && (not (exists_in (λ i. i.is_active && g.is_fixture i) g.instruments)
              && (exists_in (λ s. is_trusted g.batches s && is_fresh g s) g.snapshots
                  && (not (not (receipt_is_usable (watch_receipt g)))
                      && (true
                          && (not (ltb (independent_sources g) g.minimum_fundamental_sources)
                              && not (require && not g.market_open)))))))
  unfolding evaluate_data_gate gate_reasons
  allowed_lem g require = simp (
    no_reason-append, no_reason-reason_if, no_row-length, no_reason-snapshot_reasons, fresh-latest,
    no_reason-batch_reasons,
  )

  -- Purchases are allowed exactly when the mode is official, no active instrument is a fixture, some
  -- trusted snapshot is no older than the limit, the first receipt of the market watch is healthy and
  -- official, at least the minimum of independent families of fundamental sources are healthy, and
  -- the market is open, if that is required.
  pub evaluate_data_gate-allowed :
      (g : GateInput F) (require : Bool)
      → ((evaluate_data_gate g require).allowed ≡ true) ↔ IsReady g require
  evaluate_data_gate-allowed g require =
      (λ h. ground (arith, allowed_lem g require), λ r. ground (arith, allowed_lem g require))
