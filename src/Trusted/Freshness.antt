-- ===== src/Trusted/Freshness.antt =====
-- What a trusted query returns: a trusted row of the instrument, later than the given time, and fresh.
use iran_market_radar.Base.{
  ℕ, ◌+◌, ◌≤◌, ◌<◌, ◌≡◌, inl, inr, Bool, true, ◌&&◌, Option, none, some, List, [], ◌∷◌, arith, keep,
  ltb, All, Option-cases,
}
use iran_market_radar.Domain.{MarketSnapshot, MarketDataBatch}
use iran_market_radar.Trusted.{
  is_trusted, trusted_market_snapshot_query, latest_trusted_market_snapshot_after, not_older,
  earliest, latest, checked_age,
}

module _ {ℓ κ} {A : Type ℓ} (P : A → Type κ) where
  -- A row that a filter keeps passes its test, and what all rows passed before.
  pub All-keep : (p : A → Bool) (xs : List A) → All P xs → All (λ x. (p x ≡ true) × P x) (keep p xs)
  All-keep p [] h = tt
  All-keep p (x ∷ xs) h = ground (arith, All-keep p xs h.1)

  pub All-earliest : (key : A → ℕ) (xs : List A) {x : A} → All P xs → earliest key xs ≡ some x → P x
  All-earliest key [] h e = cc
  All-earliest key (y ∷ xs) {x} h e = elim (Option-cases (earliest key xs)) [
    | inl none_left ↦ ground arith
    | inr (z, found) ↦ let later = All-earliest key xs {x = z} h.1 found in ground arith
  ]

  pub All-latest : (key : A → ℕ) (xs : List A) {x : A} → All P xs → latest key xs ≡ some x → P x
  All-latest key [] h e = cc
  All-latest key (y ∷ xs) {x} h e = elim (Option-cases (latest key xs)) [
    | inl none_left ↦ ground arith
    | inr (z, found) ↦ let later = All-latest key xs {x = z} h.1 found in ground arith
  ]

module _ {ℓ} {A : Type ℓ} where
  pub All-rows : (xs : List A) → All (λ _. Unit {0}) xs
  All-rows [] = tt
  All-rows (x ∷ xs) = (tt, All-rows xs)

module _ {F : Type 0} where
  abbrev pub IsOf : List MarketDataBatch → ℕ → MarketSnapshot F → Type 0
  IsOf batches instrument s = (is_trusted batches s ≡ true) × (s.instrument_id ≡ instrument)

  query-IsOf :
      (batches : List MarketDataBatch) (xs : List (MarketSnapshot F)) (instrument : ℕ)
      → All (IsOf batches instrument) (trusted_market_snapshot_query batches xs instrument)
  unfolding trusted_market_snapshot_query
  query-IsOf batches [] instrument = tt
  query-IsOf batches (x ∷ xs) instrument = ground (arith, query-IsOf batches xs instrument)

  checked_age-some :
      (now max_age : ℕ) (o : Option (MarketSnapshot F)) {s : MarketSnapshot F}
      → checked_age now max_age o ≡ some s
      → (o ≡ some s) × (s.source_timestamp ≤ now) × (now ≤ s.source_timestamp + max_age)
  checked_age-some now max_age none e = cc
  checked_age-some now max_age (some x) e = ground arith

  -- The snapshot that an order is filled on comes from a complete and eligible official batch, is of
  -- the order's instrument, is strictly later than the given time, is not from the future, and is
  -- no older than the limit.
  pub latest_trusted_market_snapshot_after-fresh :
      (batches : List MarketDataBatch) (xs : List (MarketSnapshot F))
      → (now max_age instrument after : ℕ) {s : MarketSnapshot F}
      → latest_trusted_market_snapshot_after batches xs now max_age instrument after ≡ some s
      → (is_trusted batches s ≡ true)
        × (s.instrument_id ≡ instrument)
        × (after < s.source_timestamp)
        × (s.source_timestamp ≤ now)
        × (now ≤ s.source_timestamp + max_age)
  unfolding latest_trusted_market_snapshot_after
  latest_trusted_market_snapshot_after-fresh batches xs now max_age instrument after {s} e =
      let found = checked_age-some now max_age _ {s = s} e in
      let picked =
        All-earliest (λ (x : MarketSnapshot F). (passes x ≡ true) × IsOf batches instrument x)
          (λ (x : MarketSnapshot F). x.source_timestamp) (keep passes rows) {x = s}
          (All-keep (IsOf batches instrument) passes rows (query-IsOf batches xs instrument))
          found.0 in
      (picked.1.0, picked.1.1, ground arith, found.1, found.2)
    where
      passes : MarketSnapshot F → Bool
      passes x = not_older now max_age x && ltb after x.source_timestamp

      rows : List (MarketSnapshot F)
      rows = trusted_market_snapshot_query batches xs instrument
