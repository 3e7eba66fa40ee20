-- ===== src/Execution/Exits.antt =====
-- services/paper_broker/execution.py, `ExecutionSimulator.evaluate_exits_and_trailing_stop`: the exit
-- rules of a position, and what a series of evaluations does to its stop and its stages.
use iran_market_radar.Base.{
  ℕ, ◌+◌, ◌≤◌, ◌≡◌, ◌↔◌, Bool, true, false, not, ◌&&◌, Option, none, some, List, [], ◌∷◌, ltb, leb,
  if◌then◌else◌, arith,
}
use iran_market_radar.Float.{
  Float, IsOrdered, ◌⊕◌, ◌⊖◌, ◌⊗◌, ◌⊘◌, ◌≤f◌, ◌<f◌, feq, of_nat, fmax, fle_refl, le-fmax_left,
}
use iran_market_radar.Execution.{ExecutionBar}

-- The first component of what the method returns.
pub data ExitAction : Type 0 where
  stop_loss time_stop target_1_trim target_2_trim trailing_stop hold : ExitAction

-- Of a position, what the method reads and sets; the stage is an attribute of the object and no
-- column of the row, so that a position loaded anew is at stage 0.
pub record Held (F : Type 0) : Type 0 where
  pub average_entry_price : F
  pub stop_price : Option F
  pub stage_exit_level : ℕ

pub record Exit (F : Type 0) : Type 0 where
  pub held : Held F
  pub action : ExitAction
  pub price : F
  pub ratio : F

-- One call's arguments: the bar, the initial risk and the sessions held.
pub record Look (F : Type 0) : Type 0 where
  pub bar : ExecutionBar F
  pub initial_risk : F
  pub holding_sessions : ℕ

abbrev pub trims : ExitAction → ℕ
trims target_1_trim = 1
trims target_2_trim = 1
trims _ = 0

module _ {F : Type 0} ⦃fl : Float F⦄ where
  -- `position.stop_loss and p(position.stop_loss)`: a stop of zero counts as none.
  abbrev pub with_stop : (F → Bool) → Option F → Bool
  with_stop p none = false
  with_stop p (some s) = not (feq s (of_nat 0)) && p s

  -- `position.stop_loss or 0`.
  abbrev pub stop_or_zero : Option F → F
  stop_or_zero none = of_nat 0
  stop_or_zero (some s) = s

  abbrev pub raise_stop : Held F → ℕ → F → Held F
  raise_stop h stage floor = record h {
    stop_price = some (fmax (stop_or_zero h.stop_price) floor);
    stage_exit_level = stage;
  }

  unfoldable pub evaluate_exits_and_trailing_stop : Held F → Look F → Exit F
  evaluate_exits_and_trailing_stop h look =
      let bar = look.bar in
      let entry = h.average_entry_price in
      let r_unit = fmax (of_nat 1) look.initial_risk in
      let current_r = (bar.close ⊖ entry) ⊘ r_unit in
      let max_favorable_r = (bar.high ⊖ entry) ⊘ r_unit in
      if with_stop (λ s. bar.low ≤f s) h.stop_price
      then record {
        held = h;
        action = stop_loss;
        price = stop_or_zero h.stop_price;
        ratio = of_nat 1;
      }
      else if leb 10 look.holding_sessions && (max_favorable_r <f fl.dec 5 1)
      then record { held = h; action = time_stop; price = bar.close; ratio = of_nat 1 }
      else if (of_nat 2 ≤f current_r) && ltb h.stage_exit_level 1
      then record {
        held = raise_stop h 1 (entry ⊕ r_unit ⊗ fl.dec 10 2);
        action = target_1_trim;
        price = entry ⊕ r_unit ⊗ of_nat 2;
        ratio = fl.dec 25 2;
      }
      else if (of_nat 3 ≤f current_r) && ltb h.stage_exit_level 2
      then record {
        held = raise_stop h 2 (entry ⊕ r_unit ⊗ fl.dec 150 2);
        action = target_2_trim;
        price = entry ⊕ r_unit ⊗ of_nat 3;
        ratio = fl.dec 25 2;
      }
      else if with_stop (λ s. bar.close <f s) h.stop_price
      then record {
        held = h;
        action = trailing_stop;
        price = stop_or_zero h.stop_price;
        ratio = of_nat 1;
      }
      else record { held = h; action = hold; price = bar.close; ratio = of_nat 0 }

  -- A series of evaluations of the same object.
  unfoldable pub evaluations : Held F → List (Look F) → List (Exit F)
  evaluations h [] = []
  evaluations h (l ∷ ls) = let e = evaluate_exits_and_trailing_stop h l in e ∷ evaluations e.held ls

  abbrev pub last_held : Held F → List (Exit F) → Held F
  last_held h [] = h
  last_held h (e ∷ es) = last_held e.held es

  abbrev pub trim_count : List (Exit F) → ℕ
  trim_count [] = 0
  trim_count (e ∷ es) = trims e.action + trim_count es

  -- The stop `b` is no lower than the stop `a`.
  abbrev pub NoLower : Option F → Option F → Type 0
  NoLower none b = Unit
  NoLower (some a) none = ⊥
  NoLower (some a) (some b) = fl.le a b ≡ true

  module _ (laws : IsOrdered F) (two_three : fl.le (of_nat 2) (of_nat 3) ≡ true) where
    NoLower-refl : (a : Option F) → NoLower a a
    NoLower-refl none = tt
    NoLower-refl (some a) = fle_refl laws a

    NoLower-trans : (a b c : Option F) → NoLower a b → NoLower b c → NoLower a c
    NoLower-trans none b c h k = tt
    NoLower-trans (some a) none c h k = absurd h
    NoLower-trans (some a) (some b) none h k = k
    NoLower-trans (some a) (some b) (some c) h k = laws.le_trans a b c h k

    NoLower-raised : (a : Option F) (x : F) → NoLower a (some (fmax (stop_or_zero a) x))
    NoLower-raised none x = tt
    NoLower-raised (some a) x = le-fmax_left laws a x

    -- Three times the risk is twice the risk and more.
    past_two : (x : F) → fl.le (of_nat 3) x ≡ true → fl.le (of_nat 2) x ≡ true
    past_two x h = laws.le_trans (of_nat 2) (of_nat 3) x two_three h

    evaluate-stage :
        (h : Held F) (l : Look F)
        → h.stage_exit_level ≤ 2
        → let e = evaluate_exits_and_trailing_stop h l in
          (e.held.stage_exit_level ≡ h.stage_exit_level + trims e.action)
          × (e.held.stage_exit_level ≤ 2)
          × NoLower h.stop_price e.held.stop_price
    unfolding evaluate_exits_and_trailing_stop
    evaluate-stage h l stage =
        let r_unit = fmax (of_nat 1) l.initial_risk in
        let entry = h.average_entry_price in
        let kept = NoLower-refl h.stop_price in
        let first = NoLower-raised h.stop_price (entry ⊕ r_unit ⊗ fl.dec 10 2) in
        let second = NoLower-raised h.stop_price (entry ⊕ r_unit ⊗ fl.dec 150 2) in
        let past = past_two ((l.bar.close ⊖ entry) ⊘ r_unit) in ground (arith, past)

    -- Over any series of evaluations that starts at stage 2 or below: the stop is never lowered, and
    -- the number of partial exits is the number of stages passed, so that there are at most two.
    pub evaluations-NoLower :
        (h : Held F) (ls : List (Look F))
        → h.stage_exit_level ≤ 2
        → let es = evaluations h ls in
          NoLower h.stop_price (last_held h es).stop_price
          × ((last_held h es).stage_exit_level ≡ h.stage_exit_level + trim_count es)
          × (h.stage_exit_level + trim_count es ≤ 2)
    unfolding evaluations
    evaluations-NoLower h [] stage = (NoLower-refl h.stop_price, omega arith, omega (arith, stage))
    evaluations-NoLower h (l ∷ ls) stage =
        let now = evaluate-stage h l stage in
        let e = evaluate_exits_and_trailing_stop h l in
        let later = evaluations-NoLower e.held ls now.1 in
        (
          NoLower-trans h.stop_price e.held.stop_price _ now.2 later.0,
          omega (arith, now.0, later.1),
          omega (arith, now.0, later.2),
        )

  -- What an answer `e` of the rules says of the position and the bar.
  abbrev pub IsRuled : Held F → Look F → Exit F → Type 0
  IsRuled h l e =
      let entry = h.average_entry_price in
      let r_unit = fmax (of_nat 1) l.initial_risk in
      let current_r = (l.bar.close ⊖ entry) ⊘ r_unit in
      let touched = with_stop (λ s. l.bar.low ≤f s) h.stop_price in
      let below = with_stop (λ s. l.bar.close <f s) h.stop_price in
      let Stale =
        (10 ≤ l.holding_sessions) × (fl.le (fl.dec 5 1) ((l.bar.high ⊖ entry) ⊘ r_unit) ≡ false) in
      let FirstTarget = (fl.le (of_nat 2) current_r ≡ true) × (h.stage_exit_level ≡ 0) in
      let SecondTarget = (fl.le (of_nat 3) current_r ≡ true) × (h.stage_exit_level ≤ 1) in
      ((e.action ≡ stop_loss) ↔ (touched ≡ true))
      × ((e.action ≡ time_stop) ↔ ((touched ≡ false) × Stale))
      × ((e.action ≡ target_1_trim) ↔ ((touched ≡ false) × (¬ Stale) × FirstTarget))
      × ((e.action ≡ target_2_trim)
          ↔ ((touched ≡ false) × (¬ Stale) × (¬ FirstTarget) × SecondTarget))
      × ((e.action ≡ trailing_stop)
          ↔ ((touched ≡ false) × (¬ Stale) × (¬ FirstTarget) × (¬ SecondTarget) × (below ≡ true)))
      × (trims e.action ≡ 0 → e.held ≡ h)

  -- Each action is signalled exactly under its rule, where no earlier rule applies: the stop touched;
  -- ten sessions without half the risk in favour; twice the risk at stage 0; three times the risk at
  -- stage 1; and a close below the stop. The object is left as it is but at a partial exit.
  pub evaluate-full_exit :
      (h : Held F) (l : Look F) → IsRuled h l (evaluate_exits_and_trailing_stop h l)
  unfolding evaluate_exits_and_trailing_stop
  evaluate-full_exit h l = ground arith
