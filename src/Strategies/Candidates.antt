-- ===== src/Strategies/Candidates.antt =====
-- The candidates of one context: what `evaluate_all` of the registry answers.
use mathlib.Core.Path.{subst}
use iran_market_radar.Base.{
  ℕ, suc, ◌≤◌, ◌≡◌, refl, true, Option, none, some, List, [], ◌∷◌, arith, by_if,
}
use iran_market_radar.Float.{Float, IsOrdered, IsArithmetic, ◌≤f◌, of_nat}
use iran_market_radar.Strategies.{
  StrategyContext, CandidateResult, Evaluation, raised, nothing, found, real_accumulation_streak,
  get_feature,
}
use iran_market_radar.Strategies.Registry.{
  Strategy, number_of, strategy_family_by_key, collect, evaluate_all, default_strategies,
}
use iran_market_radar.Strategies.Votes.{
  IsVote, Answers, votes, momentum-Answers, trend-Answers, pullback-Answers, ichimoku-Answers,
  breakout-Answers, volume-Answers, squeeze-Answers, reversion-Answers, accumulation-Answers,
  rotation-Answers, confluence-Answers, divergence-Answers,
}

module _ {F : Type 0} ⦃fl : Float F⦄ where
  -- Candidates in the order of registration from the `n`-th strategy on, at most one of each, with
  -- votes between 0 and 1 and the families of the table.
  abbrev pub AreVotes : ℕ → List (CandidateResult F) → Type 0
  AreVotes n [] = Unit
  AreVotes n (c ∷ cs) =
      (n ≤ number_of c.strategy_key)
      × IsVote c.vote
      × (c.family ≡ strategy_family_by_key c.strategy_key)
      × AreVotes (suc (number_of c.strategy_key)) cs

  abbrev Answered : ℕ → Option (List (CandidateResult F)) → Type 0
  Answered n none = Unit
  Answered n (some cs) = AreVotes n cs

  AreVotes-le : (m n : ℕ) (cs : List (CandidateResult F)) → m ≤ n → AreVotes n cs → AreVotes m cs
  AreVotes-le m n [] h v = tt
  AreVotes-le m n (c ∷ cs) h v = (omega arith, v.1, v.2, v.3)

  Answered-le :
      (m n : ℕ) (o : Option (List (CandidateResult F))) → m ≤ n → Answered n o → Answered m o
  Answered-le m n none h v = tt
  Answered-le m n (some cs) h v = AreVotes-le m n cs h v

  -- The keys ascend in the order of registration.
  abbrev IsAscending : ℕ → List (Strategy F) → Type 0
  IsAscending n [] = Unit
  IsAscending n (s ∷ ss) = (n ≤ number_of s.key) × IsAscending (suc (number_of s.key)) ss

  -- Each strategy answers by its key.
  infixr 40 ◌▸◌
  data AllAnswer (ctx : StrategyContext F) : List (Strategy F) → Type 0 where
    done : AllAnswer ctx []
    ◌▸◌ :
        {s : Strategy F} {ss : List (Strategy F)}
        → Answers s.key (s.evaluate ctx)
        → AllAnswer ctx ss
        → AllAnswer ctx (s ∷ ss)

  collect-Answered :
      (s : Strategy F) (n : ℕ) (e : Evaluation F) (rest : Option (List (CandidateResult F)))
      → n ≤ number_of s.key
      → Answers s.key e
      → Answered (suc (number_of s.key)) rest
      → Answered n (collect s e rest)
  collect-Answered s n raised rest le a r = tt
  collect-Answered s n nothing rest le a r =
      Answered-le n (suc (number_of s.key)) rest (omega arith) r
  collect-Answered s n (found c) none le a r = tt
  collect-Answered s n (found c) (some cs) le (votes _ k v) r = rw k (le, v, refl, r)

  evaluate_all-Answered :
      (ctx : StrategyContext F) (n : ℕ) (ss : List (Strategy F))
      → IsAscending n ss
      → AllAnswer ctx ss
      → Answered n (evaluate_all ss ctx)
  unfolding evaluate_all
  evaluate_all-Answered ctx n [] o done = tt
  evaluate_all-Answered ctx n (s ∷ ss) o (a ▸ as') =
      let rest = evaluate_all-Answered ctx (suc (number_of s.key)) ss o.1 as' in
      by_if (Answered n) (s.supports ctx.horizon)
        (λ _. collect-Answered s n (s.evaluate ctx) (evaluate_all ss ctx) o.0 a rest)
        (λ _. Answered-le n (suc (number_of s.key)) (evaluate_all ss ctx) (omega (arith, o.0)) rest)

  module _ (order : IsOrdered F) (laws : IsArithmetic F) (ctx : StrategyContext F) where
    default_strategies-AllAnswer :
        (of_nat 0 ≤f get_feature ctx real_accumulation_streak (of_nat 0)) ≡ true
        → AllAnswer ctx default_strategies
    default_strategies-AllAnswer streak =
        momentum-Answers order laws ctx
        ▸ trend-Answers order laws ctx
        ▸ breakout-Answers order laws ctx
        ▸ pullback-Answers order laws ctx
        ▸ reversion-Answers order laws ctx
        ▸ volume-Answers order laws ctx
        ▸ accumulation-Answers order laws ctx streak
        ▸ ichimoku-Answers order laws ctx
        ▸ rotation-Answers order laws ctx
        ▸ squeeze-Answers order laws ctx
        ▸ confluence-Answers order laws ctx
        ▸ divergence-Answers order laws ctx
        ▸ done

    -- What `evaluate_all` answers, where the streak of accumulation, a count, is not negative: each
    -- strategy has at most one candidate, in the order of registration, with a vote between 0 and 1
    -- and the family that the table gives its key.
    pub evaluate_all-AreVotes :
        {cs : List (CandidateResult F)}
        → (of_nat 0 ≤f get_feature ctx real_accumulation_streak (of_nat 0)) ≡ true
        → evaluate_all default_strategies ctx ≡ some cs
        → AreVotes 0 cs
    evaluate_all-AreVotes streak e = subst (Answered 0) e (
        evaluate_all-Answered ctx 0 default_strategies (omega arith)
          (default_strategies-AllAnswer streak))
