-- ===== src/Learning/Once.antt =====
-- However many post-mortems are asked for: one for each trade, and every proposal can be traced.
use mathlib.Core.Path.{subst}
use iran_market_radar.Base.{
  ℕ, ◌+◌, ◌≡◌, refl, sym, ◌&&◌, Bool, true, false, List, [], ◌∷◌, ◌++◌, ◌==◌, find, exists_in,
  arith, by_if, by_option, All, All-map, All-append, DistinctOn, absent-DistinctOn, find-none,
  find-exists_in, exists_in-append, exists_in-last,
}
use iran_market_radar.Float.{Float, of_nat, ◌≤f◌}
use iran_market_radar.Learning.{
  FinishedTrade, TradePostMortem, LessonCategory, entry_lesson, exit_lesson, StructuredLesson,
  insufficient_sample, ExperimentProposal, Research, is_loss, is_win, is_stop, post_mortem_of,
  lesson_of, extract_lessons_and_proposals, generate_post_mortem, generate_all, nothing_learned,
}

abbrev is_entry : LessonCategory → Bool
is_entry entry_lesson = true
is_entry exit_lesson = false

-- A proposal names a lesson on an entry, and claims no evidence.
abbrev pub IsSourced : List StructuredLesson → ExperimentProposal → Type 0
IsSourced lessons p =
    (exists_in (λ l. l.id == p.source_lesson_id && is_entry l.category) lessons ≡ true)
    × (p.sample_sufficiency ≡ insufficient_sample)

IsSourced-more :
    (lessons : List StructuredLesson) (l : StructuredLesson) (p : ExperimentProposal)
    → IsSourced lessons p
    → IsSourced (lessons ++ l ∷ []) p
IsSourced-more lessons l p h = (exists_in-append _ lessons (l ∷ []) h.0, h.1)

module _ {F : Type 0} where
  abbrev pub has_post_mortem : List (TradePostMortem F) → ℕ → Bool
  has_post_mortem ms trade = exists_in (λ m. m.trade_id == trade) ms

  -- One post-mortem for a trade, a post-mortem for each lesson, and a lesson for each proposal.
  pub record IsLearned (r : Research F) : Type 0 where
    pub once : DistinctOn (λ (m : TradePostMortem F). m.trade_id) r.post_mortems
    pub traced :
        All
          (λ l. (has_post_mortem r.post_mortems l.trade_id ≡ true) × (l.requires_validation ≡ true))
          r.lessons
    pub sourced : All (IsSourced r.lessons) r.proposals

  lesson-IsLearned :
      (r : Research F) (l : StructuredLesson) (next : ℕ)
      → has_post_mortem r.post_mortems l.trade_id ≡ true
      → l.requires_validation ≡ true
      → IsLearned r
      → IsLearned (record r { lessons = r.lessons ++ l ∷ []; next_id = next })
  lesson-IsLearned r l next known checked h = record {
    once = h.once;
    traced = All-append _ r.lessons (l ∷ []) h.traced ((known, checked), tt);
    sourced = All-map r.proposals (IsSourced-more r.lessons l) h.sourced;
  }

  proposal-IsLearned :
      (r : Research F) (p : ExperimentProposal)
      → IsSourced r.lessons p
      → IsLearned r
      → IsLearned (record r { proposals = r.proposals ++ p ∷ [] })
  proposal-IsLearned r p s h = record {
    once = h.once;
    traced = h.traced;
    sourced = All-append (IsSourced r.lessons) r.proposals (p ∷ []) h.sourced (s, tt);
  }

  post_mortem-IsLearned :
      (r : Research F) (m : TradePostMortem F)
      → has_post_mortem r.post_mortems m.trade_id ≡ false
      → IsLearned r
      → IsLearned (record r { post_mortems = r.post_mortems ++ m ∷ [] })
  post_mortem-IsLearned r m absent h = record {
    once = absent-DistinctOn _ r.post_mortems m absent h.once;
    traced =
        All-map r.lessons
          (λ l k.
            (exists_in-append (λ x. x.trade_id == l.trade_id) r.post_mortems (m ∷ []) k.0, k.1))
          h.traced;
    sourced = h.sourced;
  }

module _ {F : Type 0} ⦃fl : Float F⦄ where
  extract-IsLearned :
      (t : FinishedTrade F) (r : Research F)
      → has_post_mortem r.post_mortems t.id ≡ true
      → IsLearned r
      → IsLearned (extract_lessons_and_proposals t r)
  unfolding extract_lessons_and_proposals
  extract-IsLearned t r known h =
      by_if (IsLearned {F = F}) (is_loss t.outcome_status && is_stop t.exit_reason)
        (λ _.
          let l = lesson_of t r.next_id entry_lesson in
          proposal-IsLearned (record r { lessons = r.lessons ++ l ∷ []; next_id = r.next_id + 1 }) _
            (
              exists_in-last (λ x. x.id == r.next_id && is_entry x.category) r.lessons l
                  (ground arith),
              refl,
            )
            (lesson-IsLearned r l (r.next_id + 1) known refl h))
        (λ _.
          by_if (IsLearned {F = F}) (is_win t.outcome_status && (of_nat 2 ≤f t.realized_r))
            (λ _.
              lesson-IsLearned r (lesson_of t r.next_id exit_lesson) (r.next_id + 1) known refl h)
            (λ _. h))

  extract-keeps :
      (t : FinishedTrade F) (r : Research F)
      → (extract_lessons_and_proposals t r).post_mortems ≡ r.post_mortems
  unfolding extract_lessons_and_proposals
  extract-keeps t r =
      by_if (λ (x : Research F). x.post_mortems ≡ r.post_mortems)
        (is_loss t.outcome_status && is_stop t.exit_reason) (λ _. refl)
        (λ _.
          by_if (λ (x : Research F). x.post_mortems ≡ r.post_mortems)
            (is_win t.outcome_status && (of_nat 2 ≤f t.realized_r)) (λ _. refl) (λ _. refl))

  -- One post-mortem: the tables stay sound, the trade has one, and so have those that had one.
  record Grows (t : FinishedTrade F) (r s : Research F) : Type 0 where
    learned : IsLearned s
    done : has_post_mortem s.post_mortems t.id ≡ true
    kept :
        (n : ℕ) → has_post_mortem r.post_mortems n ≡ true → has_post_mortem s.post_mortems n ≡ true

  generate_post_mortem-Grows :
      (t : FinishedTrade F) (r : Research F) → IsLearned r → Grows t r (generate_post_mortem t r).1
  unfolding generate_post_mortem
  generate_post_mortem-Grows t r h =
      by_option (λ (x : TradePostMortem F × Research F). Grows t r x.1)
        (find (λ m. m.trade_id == t.id) r.post_mortems)
        (λ absent.
          let added = record r { post_mortems = r.post_mortems ++ post_mortem_of t ∷ [] } in
          let known =
            exists_in-last (λ m. m.trade_id == t.id) r.post_mortems (post_mortem_of t)
              (ground arith) in
          let same = extract-keeps t added in
          record {
            learned =
                extract-IsLearned t added known (
                  post_mortem-IsLearned r (post_mortem_of t) (find-none _ r.post_mortems absent) h);
            done = subst (λ ms. has_post_mortem ms t.id ≡ true) (sym same) known;
            kept = λ n k.
                subst (λ ms. has_post_mortem ms n ≡ true) (sym same)
                  (exists_in-append (λ m. m.trade_id == n) r.post_mortems (post_mortem_of t ∷ [])
                    k);
          })
        (λ m found. record {
          learned = h;
          done = find-exists_in _ r.post_mortems found;
          kept = λ n k. k;
        })

  generate_all-grows :
      (ts : List (FinishedTrade F)) (r : Research F)
      → IsLearned r
      → IsLearned (generate_all ts r)
        × All (λ t. has_post_mortem (generate_all ts r).post_mortems t.id ≡ true) ts
        × ((n : ℕ)
            → has_post_mortem r.post_mortems n ≡ true
            → has_post_mortem (generate_all ts r).post_mortems n ≡ true)
  unfolding generate_all
  generate_all-grows [] r h = (h, tt, λ n k. k)
  generate_all-grows (t ∷ ts) r h =
      let g = generate_post_mortem-Grows t r h in
      let rest = generate_all-grows ts (generate_post_mortem t r).1 g.learned in
      (rest.0, (rest.2 t.id g.done, rest.1), λ n k. rest.2 n (g.kept n k))

  -- Whatever closed trades are given to the engine, repeated ones included, from empty tables: each of
  -- them has a post-mortem and no two post-mortems are of one trade; each lesson is of a trade with a
  -- post-mortem and requires validation; and each proposal comes from a lesson on an entry and is
  -- marked as an insufficient sample.
  pub generate_all-IsLearned :
      (ts : List (FinishedTrade F))
      → let r = generate_all ts nothing_learned in
        IsLearned r × All (λ t. has_post_mortem r.post_mortems t.id ≡ true) ts
  generate_all-IsLearned ts =
      let g =
        generate_all-grows ts nothing_learned (record { once = tt; traced = tt; sourced = tt }) in
      (g.0, g.1)
