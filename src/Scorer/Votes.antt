-- ===== src/Scorer/Votes.antt =====
-- services/scorer/ensemble.py: the votes of the families, the technical gate and the raw score.
use iran_market_radar.Base.{
  ℕ, ◌-◌, Bool, not, ◌&&◌, List, [], ◌∷◌, ◌++◌, ◌==◌, map, keep, length, leb, if◌then◌else◌,
}
use iran_market_radar.Float.{Float, ◌⊕◌, ◌⊗◌, ◌⊘◌, ◌≤f◌, of_nat, fmax, fmin, fsum}
use iran_market_radar.Scorer.{
  Family, composite, unclassified, named, CandidateResult, FamilyVotes, QualifyingFamily,
  GateSettings, is_composite,
}

module _ {F : Type 0} ⦃fl : Float F⦄ where
  -- `family_votes.setdefault(family, []).append(vote)`.
  unfoldable pub add_vote : ℕ → F → List (FamilyVotes F) → List (FamilyVotes F)
  add_vote family vote [] = record { family = family; first = vote; rest = [] } ∷ []
  add_vote family vote (g ∷ gs) =
      let later = add_vote family vote gs in
      if g.family == family then record g { rest = g.rest ++ vote ∷ [] } ∷ gs else g ∷ later

  abbrev pub count_vote : Family → F → List (FamilyVotes F) → List (FamilyVotes F)
  count_vote composite vote gs = gs
  count_vote unclassified vote gs = gs
  count_vote (named family) vote gs = add_vote family vote gs

  unfoldable pub family_votes :
      List (CandidateResult F) → List (FamilyVotes F) → List (FamilyVotes F)
  family_votes [] gs = gs
  family_votes (cand ∷ cands) gs = family_votes cands (count_vote cand.family cand.vote gs)

  abbrev pub max_of : F → List F → F
  max_of acc [] = acc
  max_of acc (x ∷ xs) = max_of (fmax acc x) xs

  abbrev pub family_max : FamilyVotes F → QualifyingFamily F
  family_max g = record { family = g.family; vote = max_of g.first g.rest }

  unfoldable pub qualifying_families :
      GateSettings F → List (CandidateResult F) → List (QualifyingFamily F)
  qualifying_families set cands =
      keep (λ q. set.min_family_vote ≤f q.vote) (map family_max (family_votes cands []))

  unfoldable pub bullish_strategy_count : GateSettings F → List (CandidateResult F) → ℕ
  bullish_strategy_count set cands =
      length
        (keep (λ cand. not (is_composite cand.family) && (set.min_family_vote ≤f cand.vote)) cands)

  unfoldable pub technical_gate_passed : GateSettings F → List (CandidateResult F) → Bool
  technical_gate_passed set cands =
      leb set.min_independent_technical_families (length (qualifying_families set cands))
      && leb set.min_bullish_strategies (bullish_strategy_count set cands)

  unfoldable pub raw_ensemble_score : List (QualifyingFamily F) → F
  raw_ensemble_score [] = fmin (of_nat 1) (of_nat 0 ⊕ fmin (fl.dec 12 2) (of_nat 0 ⊗ fl.dec 3 2))
  raw_ensemble_score (q ∷ qs) =
      let n = length (q ∷ qs) in
      fmin (of_nat 1) (
        fsum (map (λ x. x.vote) (q ∷ qs)) ⊘ of_nat n
        ⊕ fmin (fl.dec 12 2) (of_nat (n - 1) ⊗ fl.dec 3 2))
