-- ===== src/Trader/Counted.antt =====
-- How many purchases the loop submits.
use mathlib.Core.Path.{subst}
use iran_market_radar.Base.{
  ℕ, suc, ◌+◌, ◌-◌, ◌≤◌, ◌≡◌, Option, none, some, List, [], ◌∷◌, length, arith,
}
use iran_market_radar.Float.{Float}
use iran_market_radar.Domain.{BrokerOrder}
use iran_market_radar.Ledger.Orders.{Submission, accepted, refused, failed}
use iran_market_radar.Trader.Entries.{
  Opportunity, Market, take, max_new, submit_entry, add_entry, submit_entries, enter_best,
  sort_by_score,
}

length-take {ℓ} : {A : Type ℓ} (n : ℕ) (xs : List A) → length (take n xs) ≤ n
length-take n [] = ground arith
length-take n (x ∷ xs) = let h = length-take (n - 1) xs in ground (arith, h)

module _ {F : Type 0} ⦃fl : Float F⦄ where
  abbrev AtMost : ℕ → Option (List (BrokerOrder F)) → Type 0
  AtMost n none = Unit
  AtMost n (some os) = length os ≤ n

  add_entry-AtMost :
      (n : ℕ) (s : Submission F) (rest : Option (List (BrokerOrder F)))
      → AtMost n rest
      → AtMost (suc n) (add_entry s rest)
  add_entry-AtMost n failed rest h = tt
  add_entry-AtMost n (refused r) none h = tt
  add_entry-AtMost n (refused r) (some os) h = ground arith
  add_entry-AtMost n (accepted o) none h = tt
  add_entry-AtMost n (accepted o) (some os) h = ground arith

  submit_entries-AtMost :
      (m : Market F) (id : ℕ) (xs : List (Opportunity F))
      → AtMost (length xs) (submit_entries m id xs)
  unfolding submit_entries
  submit_entries-AtMost m id [] = ground arith
  submit_entries-AtMost m id (x ∷ xs) =
      add_entry-AtMost (length xs) (submit_entry m id x) (submit_entries m (id + 1) xs)
        (submit_entries-AtMost m (id + 1) xs)

  pub enter_best-length :
      (m : Market F) (id : ℕ) (xs : List (Opportunity F)) (os : List (BrokerOrder F))
      → enter_best m id xs ≡ some os
      → length os ≤ max_new m.policy m.positions
  unfolding enter_best
  enter_best-length m id xs os e =
      let n = max_new m.policy m.positions in
      let chosen = take n (sort_by_score xs) in
      let few = length-take n (sort_by_score xs) in
      let h = subst (AtMost (length chosen)) e (submit_entries-AtMost m id chosen) in
      ground (arith, few, h)
