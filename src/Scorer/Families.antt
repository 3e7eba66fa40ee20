-- ===== src/Scorer/Families.antt =====
-- The families that qualify are independent: each is another one, and each has a vote of its own.
use mathlib.Core.Path.{subst}
use mathlib.Core.List.{Mem, mem-cons_self, mem-cons_of_mem}
use iran_market_radar.Base.{
  ℕ, ◌≡◌, refl, sym, ◌≢◌, Bool, true, List, [], ◌∷◌, ◌==◌, map, keep, arith, All, All-map,
  All-append, by_if, eq_of_==,
}
use iran_market_radar.Float.{Float, ◌≤f◌, ◌<f◌, fmax}
use iran_market_radar.Scorer.{
  Family, composite, unclassified, named, CandidateResult, FamilyVotes, QualifyingFamily,
  GateSettings,
}
use iran_market_radar.Scorer.Votes.{
  add_vote, count_vote, family_votes, max_of, family_max, qualifying_families,
}

module _ {F : Type 0} where
  abbrev pub Distinct : List (QualifyingFamily F) → Type 0
  Distinct [] = Unit
  Distinct (q ∷ qs) = All (λ r. q.family ≢ r.family) qs × Distinct qs

  abbrev DistinctVotes : List (FamilyVotes F) → Type 0
  DistinctVotes [] = Unit
  DistinctVotes (g ∷ gs) = All (λ h. g.family ≢ h.family) gs × DistinctVotes gs

module _ {F : Type 0} ⦃fl : Float F⦄ where
  -- The votes of one family satisfy `P`.
  abbrev VotesAre : (ℕ → F → Type 0) → FamilyVotes F → Type 0
  VotesAre P g = P g.family g.first × All (P g.family) g.rest

  max_of-All : (P : F → Type 0) (x : F) (xs : List F) → P x → All P xs → P (max_of x xs)
  max_of-All P x [] p h = p
  max_of-All P x (y ∷ ys) p h =
      max_of-All P (fmax x y) ys (by_if P (x <f y) (λ _. h.0) (λ _. p)) h.1

  add_vote-ne :
      (n family : ℕ) (vote : F) (gs : List (FamilyVotes F))
      → n ≢ family
      → All (λ h. n ≢ h.family) gs
      → All (λ h. n ≢ h.family) (add_vote family vote gs)
  unfolding add_vote
  add_vote-ne n family vote [] other h = (other, tt)
  add_vote-ne n family vote (g ∷ gs) other h =
      by_if (All (λ x. n ≢ x.family)) (g.family == family) (λ _. (h.0, h.1))
        (λ _. (h.0, add_vote-ne n family vote gs other h.1))

  add_vote-Distinct :
      (family : ℕ) (vote : F) (gs : List (FamilyVotes F))
      → DistinctVotes gs
      → DistinctVotes (add_vote family vote gs)
  unfolding add_vote
  add_vote-Distinct family vote [] h = (tt, tt)
  add_vote-Distinct family vote (g ∷ gs) h =
      by_if DistinctVotes (g.family == family) (λ _. (h.0, h.1))
        (λ other. (
          add_vote-ne g.family family vote gs (ground (arith, other)) h.0,
          add_vote-Distinct family vote gs h.1,
        ))

  add_vote-VotesAre :
      (P : ℕ → F → Type 0) (family : ℕ) (vote : F) (gs : List (FamilyVotes F))
      → P family vote
      → All (VotesAre P) gs
      → All (VotesAre P) (add_vote family vote gs)
  unfolding add_vote
  add_vote-VotesAre P family vote [] p h = ((p, tt), tt)
  add_vote-VotesAre P family vote (g ∷ gs) p h =
      by_if (All (VotesAre P)) (g.family == family)
        (λ same. (
          (
            h.0.0,
            All-append (P g.family) g.rest (vote ∷ []) h.0.1
                (subst (λ n. P n vote) (sym (eq_of_== g.family family same)) p, tt),
          ),
          h.1,
        ))
        (λ _. (h.0, add_vote-VotesAre P family vote gs p h.1))

  -- A vote at or above `least` that a candidate of the family has.
  abbrev pub Source : List (CandidateResult F) → ℕ → F → Type 0
  Source cands family vote =
      (cand : CandidateResult F) × Mem cand cands
      × (cand.family ≡ named family)
      × (cand.vote ≡ vote)

  Source-later :
      (cand : CandidateResult F) (cands : List (CandidateResult F)) (family : ℕ) (vote : F)
      → Source cands family vote
      → Source (cand ∷ cands) family vote
  Source-later cand cands family vote s = (s.0, mem-cons_of_mem cand s.1, s.2, s.3)

  -- Counting the votes of further candidates keeps the families apart and their votes sourced.
  count_vote-keeps :
      (P : ℕ → F → Type 0) (f : Family) (vote : F) (gs : List (FamilyVotes F))
      → ((family : ℕ) → f ≡ named family → P family vote)
      → DistinctVotes gs × All (VotesAre P) gs
      → DistinctVotes (count_vote f vote gs) × All (VotesAre P) (count_vote f vote gs)
  count_vote-keeps P composite vote gs source h = h
  count_vote-keeps P unclassified vote gs source h = h
  count_vote-keeps P (named family) vote gs source h = (
    add_vote-Distinct family vote gs h.0,
    add_vote-VotesAre P family vote gs (source family refl) h.1,
  )

  family_votes-keeps :
      (P : ℕ → F → Type 0) (cands : List (CandidateResult F)) (gs : List (FamilyVotes F))
      → All (λ cand. (family : ℕ) → cand.family ≡ named family → P family cand.vote) cands
      → DistinctVotes gs × All (VotesAre P) gs
      → DistinctVotes (family_votes cands gs) × All (VotesAre P) (family_votes cands gs)
  unfolding family_votes
  family_votes-keeps P [] gs sources h = h
  family_votes-keeps P (cand ∷ cands) gs sources h =
      family_votes-keeps P cands (count_vote cand.family cand.vote gs) sources.1
        (count_vote-keeps P cand.family cand.vote gs sources.0 h)

  All-sources :
      (cands : List (CandidateResult F))
      → All
          (λ cand. (family : ℕ) → cand.family ≡ named family → Source cands family cand.vote)
          cands
  All-sources [] = tt
  All-sources (cand ∷ cands) = (
    λ family e. (cand, mem-cons_self, e, refl),
    All-map cands (λ x s family e. Source-later cand cands family x.vote (s family e))
        (All-sources cands),
  )

  keep-ne :
      (n : ℕ) (p : QualifyingFamily F → Bool) (qs : List (QualifyingFamily F))
      → All (λ q. n ≢ q.family) qs
      → All (λ q. n ≢ q.family) (keep p qs)
  keep-ne n p [] h = tt
  keep-ne n p (q ∷ qs) h =
      by_if (All (λ x. n ≢ x.family)) (p q) (λ _. (h.0, keep-ne n p qs h.1))
        (λ _. keep-ne n p qs h.1)

  map-ne :
      (n : ℕ) (gs : List (FamilyVotes F))
      → All (λ g. n ≢ g.family) gs
      → All (λ q. n ≢ q.family) (map family_max gs)
  map-ne n [] h = tt
  map-ne n (g ∷ gs) h = (h.0, map-ne n gs h.1)

  kept-Distinct :
      (p : QualifyingFamily F → Bool) (gs : List (FamilyVotes F))
      → DistinctVotes gs
      → Distinct (keep p (map family_max gs))
  kept-Distinct p [] h = tt
  kept-Distinct p (g ∷ gs) h =
      by_if Distinct (p (family_max g))
        (λ _.
          (keep-ne g.family p (map family_max gs) (map-ne g.family gs h.0), kept-Distinct p gs h.1))
        (λ _. kept-Distinct p gs h.1)

  kept-sourced :
      (set : GateSettings F) (cands : List (CandidateResult F)) (gs : List (FamilyVotes F))
      → All (VotesAre (Source cands)) gs
      → All
          (λ q. (fl.le set.min_family_vote q.vote ≡ true) × Source cands q.family q.vote)
          (keep (λ q. set.min_family_vote ≤f q.vote) (map family_max gs))
  kept-sourced set cands [] h = tt
  kept-sourced set cands (g ∷ gs) h =
      by_if (All (λ q. (fl.le set.min_family_vote q.vote ≡ true) × Source cands q.family q.vote))
        (set.min_family_vote ≤f max_of g.first g.rest)
        (λ high. (
          (high, max_of-All (Source cands g.family) g.first g.rest h.0.0 h.0.1),
          kept-sourced set cands gs h.1,
        ))
        (λ _. kept-sourced set cands gs h.1)

  -- The families that count for the technical gate are pairwise different, and each has a candidate
  -- of that family whose vote is the family's and reaches the least vote. Composite and unclassified
  -- candidates never count, and further votes of one family do not make it count again.
  pub qualifying_families-Distinct :
      (set : GateSettings F) (cands : List (CandidateResult F))
      → Distinct (qualifying_families set cands)
        × All
            (λ q. (fl.le set.min_family_vote q.vote ≡ true) × Source cands q.family q.vote)
            (qualifying_families set cands)
  unfolding qualifying_families
  qualifying_families-Distinct set cands =
      let kept = family_votes-keeps (Source cands) cands [] (All-sources cands) (tt, tt) in
      (
        kept-Distinct (λ q. set.min_family_vote ≤f q.vote) (family_votes cands []) kept.0,
        kept-sourced set cands (family_votes cands []) kept.1,
      )
