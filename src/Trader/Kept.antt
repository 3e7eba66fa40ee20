-- ===== src/Trader/Kept.antt =====
-- What the rules for an open position keep of it: its holding stays, and its stop is never lowered.
use iran_market_radar.Base.{
  ◌≡◌, refl, ◌∙◌, ◌&&◌, true, not, Option, none, some, List, [], ◌∷◌, ◌++◌, is_some, or_else, by_if,
}
use iran_market_radar.Float.{Float, IsOrdered, of_nat, ◌<f◌, ◌≤f◌, fmax, fle_refl, le-fmax_left}
use iran_market_radar.Domain.{Position}
use iran_market_radar.Risk.{RiskPolicy}
use iran_market_radar.Trader.{ExitSignal, Look}
use iran_market_radar.Trader.Manage.{Watch, mark, proposed_stop}
use iran_market_radar.Trader.Exits.{next_stop, moves_stop, trail_position, managed}

module _ {F : Type 0} ⦃fl : Float F⦄ where
  -- A stop that is there stays, and is not lowered.
  abbrev pub NotLowered : Option F → Option F → Type 0
  NotLowered none b = Unit
  NotLowered (some s) none = ⊥
  NotLowered (some s) (some t) = (s ≤f t) ≡ true

  pub record IsKept (p q : Position F) : Type 0 where
    pub same_id : q.id ≡ p.id
    pub same_symbol : q.symbol ≡ p.symbol
    pub same_quantity : q.quantity ≡ p.quantity
    pub same_price : q.average_entry_price ≡ p.average_entry_price
    pub same_state : q.is_open ≡ p.is_open
    pub not_lowered : NotLowered p.stop_loss q.stop_loss

  pub data AllKept : List (Position F) → List (Position F) → Type 0 where
    none_left : AllKept [] []
    one_more :
        {p q : Position F} {ps qs : List (Position F)}
        → IsKept p q
        → AllKept ps qs
        → AllKept (p ∷ ps) (q ∷ qs)

  module _ (order : IsOrdered F) where
    NotLowered-refl : (a : Option F) → NotLowered a a
    NotLowered-refl none = tt
    NotLowered-refl (some s) = fle_refl order s

    NotLowered-trans : (a b c : Option F) → NotLowered a b → NotLowered b c → NotLowered a c
    NotLowered-trans none b c h k = tt
    NotLowered-trans (some s) none c h k = absurd h
    NotLowered-trans (some s) (some t) none h k = absurd k
    NotLowered-trans (some s) (some t) (some u) h k = order.le_trans s t u h k

    pub IsKept-refl : (p : Position F) → IsKept p p
    IsKept-refl p = record {
      same_id = refl;
      same_symbol = refl;
      same_quantity = refl;
      same_price = refl;
      same_state = refl;
      not_lowered = NotLowered-refl p.stop_loss;
    }

    pub IsKept-trans : (p q r : Position F) → IsKept p q → IsKept q r → IsKept p r
    IsKept-trans p q r h k = record {
      same_id = k.same_id ∙ h.same_id;
      same_symbol = k.same_symbol ∙ h.same_symbol;
      same_quantity = k.same_quantity ∙ h.same_quantity;
      same_price = k.same_price ∙ h.same_price;
      same_state = k.same_state ∙ h.same_state;
      not_lowered =
          NotLowered-trans p.stop_loss q.stop_loss r.stop_loss h.not_lowered k.not_lowered;
    }

    pub AllKept-refl : (ps : List (Position F)) → AllKept ps ps
    AllKept-refl [] = none_left
    AllKept-refl (p ∷ ps) = one_more (IsKept-refl p) (AllKept-refl ps)

    -- One position of the list is exchanged for one that is kept from it.
    pub AllKept-exchange :
        (ps before after : List (Position F)) (p q : Position F)
        → IsKept p q
        → AllKept ps (before ++ p ∷ after)
        → AllKept ps (before ++ q ∷ after)
    AllKept-exchange [] [] after p q k h = elim h [ ]
    AllKept-exchange [] (b ∷ before) after p q k h = elim h [ ]
    AllKept-exchange (x ∷ ps) [] after p q k (one_more h hs) = one_more (IsKept-trans x p q h k) hs
    AllKept-exchange (x ∷ ps) (b ∷ before) after p q k (one_more h hs) =
        one_more h (AllKept-exchange ps before after p q k hs)

    max-NotLowered : (a : Option F) (x : F) → NotLowered a (some (fmax (or_else a (of_nat 0)) x))
    max-NotLowered none x = tt
    max-NotLowered (some s) x = le-fmax_left order s x

    proposed_stop-NotLowered :
        (policy : RiskPolicy F) (p : Position F) (risk r : F)
        → NotLowered p.stop_loss (proposed_stop policy p risk r)
    unfolding proposed_stop
    proposed_stop-NotLowered policy p risk r =
        let rules = policy.exit_management in
        by_if (NotLowered p.stop_loss) (rules.lock_one_r_trigger_r ≤f r)
          (λ _. max-NotLowered p.stop_loss _)
          (λ _.
            by_if (NotLowered p.stop_loss) (rules.lock_half_r_trigger_r ≤f r)
              (λ _. max-NotLowered p.stop_loss _)
              (λ _.
                by_if (NotLowered p.stop_loss) (rules.breakeven_trigger_r ≤f r)
                  (λ _. max-NotLowered p.stop_loss _) (λ _. NotLowered-refl p.stop_loss)))

    next_stop-NotLowered :
        (w : Watch F) (p : Position F) (reason : Option ExitSignal) (risk : F) (r : Option F)
        → NotLowered p.stop_loss (next_stop w p reason risk r)
    unfolding next_stop
    next_stop-NotLowered w p reason risk none = NotLowered-refl p.stop_loss
    next_stop-NotLowered w p reason risk (some r) =
        by_if (NotLowered p.stop_loss) (not (is_some reason) && (of_nat 0 <f risk))
          (λ _. proposed_stop-NotLowered w.policy p risk r) (λ _. NotLowered-refl p.stop_loss)

    trail_position-IsKept :
        (p : Position F) (stop : Option F)
        → NotLowered p.stop_loss stop
        → IsKept p (trail_position p stop)
    unfolding trail_position
    trail_position-IsKept p stop h =
        by_if (IsKept p) (moves_stop p stop)
          (λ _. record {
            same_id = refl;
            same_symbol = refl;
            same_quantity = refl;
            same_price = refl;
            same_state = refl;
            not_lowered = h;
          })
          (λ _. IsKept-refl p)

    pub mark-IsKept : (price : F) (p : Position F) → IsKept p (mark price p)
    mark-IsKept price p = record {
      same_id = refl;
      same_symbol = refl;
      same_quantity = refl;
      same_price = refl;
      same_state = refl;
      not_lowered = NotLowered-refl p.stop_loss;
    }

    pub managed-IsKept :
        (w : Watch F) (look : Look F) (p : Position F) → IsKept p (managed w look p)
    unfolding managed
    managed-IsKept w look p =
        let q = mark look.price p in
        IsKept-trans p q _ (mark-IsKept look.price p)
          (trail_position-IsKept q _ (next_stop-NotLowered w q _ _ _))
