-- ===== src/Backtester/Fits.antt =====
-- Lists of open positions: few enough, apart in their symbols, and of whole lots; and what is left of
-- a list once some are sold.
use iran_market_radar.Base.{
  ℕ, ◌+◌, ◌≤◌, ◌<◌, ◌≡◌, ◌≢◌, sym, ◌∙◌, false, List, [], ◌∷◌, ◌++◌, length, ◌==◌, exists_in, arith,
  All, All-append, DistinctOn, absent-DistinctOn, append_assoc,
}
use iran_market_radar.Backtester.{Holding}

module _ {F : Type 0} where
  -- No two positions of one symbol.
  abbrev pub Apart : List (Holding F) → Type 0
  Apart ps = DistinctOn (λ p. p.symbol) ps

  pub record Fits (most : ℕ) (ps : List (Holding F)) : Type 0 where
    pub few : length ps ≤ most
    pub apart : Apart ps
    pub lots : All (λ p. 100 ≤ p.quantity) ps

  -- The positions `qs` are those of `ps` that are left, in order.
  pub data Left : List (Holding F) → List (Holding F) → Type 0 where
    none_left : Left [] []
    retained :
        {q p : Holding F} {qs ps : List (Holding F)}
        → q.symbol ≡ p.symbol
        → q.quantity ≡ p.quantity
        → Left qs ps
        → Left (q ∷ qs) (p ∷ ps)
    sold : {p : Holding F} {qs ps : List (Holding F)} → Left qs ps → Left qs (p ∷ ps)

  Left-length : {qs ps : List (Holding F)} → Left qs ps → length qs ≤ length ps
  Left-length none_left = omega arith
  Left-length (retained s q l) = let h = Left-length l in ground arith
  Left-length (sold l) = let h = Left-length l in ground arith

  Left-differ :
      {qs ps : List (Holding F)} (n m : ℕ)
      → n ≡ m
      → Left qs ps
      → All (λ p. m ≢ p.symbol) ps
      → All (λ q. n ≢ q.symbol) qs
  Left-differ n m e none_left h = tt
  Left-differ n m e (retained s q l) h = (λ f. h.0 (sym e ∙ f ∙ s), Left-differ n m e l h.1)
  Left-differ n m e (sold l) h = Left-differ n m e l h.1

  Left-Apart : {qs ps : List (Holding F)} → Left qs ps → Apart ps → Apart qs
  Left-Apart none_left h = tt
  Left-Apart (retained s q l) h = (Left-differ _ _ s l h.0, Left-Apart l h.1)
  Left-Apart (sold l) h = Left-Apart l h.1

  Left-lots :
      {qs ps : List (Holding F)}
      → Left qs ps
      → All (λ p. 100 ≤ p.quantity) ps
      → All (λ p. 100 ≤ p.quantity) qs
  Left-lots none_left h = tt
  Left-lots (retained s q l) h = (let some_lots = h.0 in ground arith, Left-lots l h.1)
  Left-lots (sold l) h = Left-lots l h.1

  pub Fits-Left : (most : ℕ) {qs ps : List (Holding F)} → Left qs ps → Fits most ps → Fits most qs
  Fits-Left most l h = record {
    few = let fewer = Left-length l in let few = h.few in omega arith;
    apart = Left-Apart l h.apart;
    lots = Left-lots l h.lots;
  }

  length-append : (ps : List (Holding F)) (x : Holding F) → length (ps ++ x ∷ []) ≡ length ps + 1
  length-append [] x = omega arith
  length-append (p ∷ ps) x = let h = length-append ps x in ground arith

  pub Fits-append :
      (most : ℕ) (ps : List (Holding F)) (x : Holding F)
      → length ps < most
      → exists_in (λ p. p.symbol == x.symbol) ps ≡ false
      → 100 ≤ x.quantity
      → Fits most ps
      → Fits most (ps ++ x ∷ [])
  Fits-append most ps x room absent lot h = record {
    few = let longer = length-append ps x in omega arith;
    apart = absent-DistinctOn (λ p. p.symbol) ps x absent h.apart;
    lots = All-append (λ p. 100 ≤ p.quantity) ps (x ∷ []) h.lots (lot, tt);
  }

  pub record Settled (acc ps out : List (Holding F)) : Type 0 where
    pub rest : List (Holding F)
    pub same : out ≡ acc ++ rest
    pub left : Left rest ps

  pub Settled-retained :
      (acc ps out : List (Holding F)) (q p : Holding F)
      → q.symbol ≡ p.symbol
      → q.quantity ≡ p.quantity
      → Settled (acc ++ q ∷ []) ps out
      → Settled acc (p ∷ ps) out
  Settled-retained acc ps out q p s n h = record {
    rest = q ∷ h.rest;
    same = h.same ∙ append_assoc acc (q ∷ []) h.rest;
    left = retained s n h.left;
  }

  pub Settled-sold :
      (acc ps out : List (Holding F)) (p : Holding F)
      → Settled acc ps out
      → Settled acc (p ∷ ps) out
  Settled-sold acc ps out p h = record { rest = h.rest; same = h.same; left = sold h.left }
