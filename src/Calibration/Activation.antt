-- ===== src/Calibration/Activation.antt =====
-- Of the calibration artifacts at most one is active, however they are trained and activated.
use mathlib.Core.Path.{subst}
use iran_market_radar.Base.{
  ◌||◌, ℕ, ◌+◌, ◌≤◌, ◌≡◌, refl, true, false, some, List, [], ◌∷◌, ◌++◌, map, find, arith, All,
  All-append, by_if, by_option, ◌==◌, if◌then◌else◌,
}
use iran_market_radar.Float.{Float, ◌<f◌}
use iran_market_radar.Calibration.{
  CalibrationArtifact, active, ScoredTrade, Sample, Fitted, TrainingResult, is_candidate, is_active,
  min_oos_samples, archive, set_active, samples_of, insufficient, register, train_candidate,
  activate_candidate,
}
use iran_market_radar.Calibration.Training.{graded, is_active-graded}
use iran_market_radar.Calibration.Samples.{oos-Enough}

module _ {F : Type 0} where
  abbrev pub count_active : List (CalibrationArtifact F) → ℕ
  count_active [] = 0
  count_active (a ∷ rest) = (if is_active a.status then 1 else 0) + count_active rest

  count_active-archive : (xs : List (CalibrationArtifact F)) → count_active (map archive xs) ≡ 0
  count_active-archive [] = refl
  count_active-archive (x ∷ xs) = ground (arith, count_active-archive xs)

  count_active-set_active :
      (id now : ℕ) (xs : List (CalibrationArtifact F))
      → count_active xs ≡ 0
      → count_active (set_active id now xs) ≤ 1
  count_active-set_active id now [] h = omega arith
  count_active-set_active id now (x ∷ xs) h = ground (arith, count_active-set_active id now xs)

  count_active-append :
      (xs ys : List (CalibrationArtifact F))
      → count_active (xs ++ ys) ≡ count_active xs + count_active ys
  count_active-append [] ys = omega arith
  count_active-append (x ∷ xs) ys = omega (arith, count_active-append xs ys)

  count_active-add :
      (xs : List (CalibrationArtifact F)) (a : CalibrationArtifact F)
      → is_active a.status ≡ false
      → count_active (xs ++ a ∷ []) ≡ count_active xs
  count_active-add xs a h = ground (arith, count_active-append xs (a ∷ []))

module _ {F : Type 0} ⦃fl : Float F⦄ where
  -- The stores that training and activating, in any order, make of the empty one.
  pub data Reachable : List (CalibrationArtifact F) → Type 0 where
    start : Reachable []
    trained :
        {xs : List (CalibrationArtifact F)} (fit : List (Sample F) → List (Sample F) → Fitted F)
        (id : ℕ) (trades : List (ScoredTrade F))
        → Reachable xs
        → Reachable (train_candidate fit id trades xs).artifacts
    activated :
        {xs ys : List (CalibrationArtifact F)} (now : ℕ) (a : CalibrationArtifact F)
        → Reachable xs
        → find (λ x. x.id == a.id) xs ≡ some a
        → activate_candidate a now xs ≡ some ys
        → Reachable ys

  count_active-register :
      (id n m : ℕ) (fitted : Fitted F) (xs : List (CalibrationArtifact F))
      → count_active (register id n m fitted xs).artifacts ≡ count_active xs
  unfolding register
  count_active-register id n m fitted xs =
      by_option {B = TrainingResult F} (λ r. count_active r.artifacts ≡ count_active xs)
        (find (λ a. a.version == fitted.version) xs)
        (λ _. count_active-add xs _ (is_active-graded _)) (λ _ _. refl)

  count_active-train_candidate :
      (fit : List (Sample F) → List (Sample F) → Fitted F) (id : ℕ) (trades : List (ScoredTrade F))
      (xs : List (CalibrationArtifact F))
      → count_active (train_candidate fit id trades xs).artifacts ≡ count_active xs
  unfolding train_candidate
  count_active-train_candidate fit id trades xs = grind (arith, count_active-register)

  count_active-activate_candidate :
      (a : CalibrationArtifact F) (now : ℕ) (xs ys : List (CalibrationArtifact F))
      → activate_candidate a now xs ≡ some ys
      → count_active ys ≤ 1
  unfolding activate_candidate
  count_active-activate_candidate a now xs ys h =
      ground (arith, count_active-set_active a.id now (map archive xs) (count_active-archive xs))

  -- What an artifact that may be used, or be activated, has passed.
  abbrev pub IsGated : CalibrationArtifact F → Type 0
  IsGated a =
      (is_candidate a.status || is_active a.status) ≡ true
      → (min_oos_samples ≤ a.oos_sample_size) × ((a.brier_after <f a.brier_before) ≡ true)

  archive-IsGated : (a : CalibrationArtifact F) → IsGated a → IsGated (archive a)
  archive-IsGated a g = by_if IsGated (is_active a.status) (λ _ h. ground arith) (λ _. g)

  archive-id : (a : CalibrationArtifact F) → (archive a).id ≡ a.id
  archive-id a =
      by_if (λ (x : CalibrationArtifact F). x.id ≡ a.id) (is_active a.status) (λ _. refl)
        (λ _. refl)

  reactivated-IsGated :
      (now : ℕ) (x : CalibrationArtifact F)
      → is_candidate x.status ≡ true
      → IsGated x
      → IsGated (record (archive x) { status = active; activated_at = some now })
  reactivated-IsGated now x c g =
      by_if (λ y. IsGated (record y { status = active; activated_at = some now }))
        (is_active x.status) (λ _ _. g (ground arith)) (λ _ _. g (ground arith))

  candidate-found :
      (id : ℕ) (a x : CalibrationArtifact F) (xs : List (CalibrationArtifact F))
      → find (λ y. y.id == id) (x ∷ xs) ≡ some a
      → is_candidate a.status ≡ true
      → ((archive x).id == id) ≡ true
      → is_candidate x.status ≡ true
  candidate-found id a x xs f c e = ground (arith, archive-id x)

  found-later :
      (id : ℕ) (a x : CalibrationArtifact F) (xs : List (CalibrationArtifact F))
      → find (λ y. y.id == id) (x ∷ xs) ≡ some a
      → ((archive x).id == id) ≡ false
      → find (λ y. y.id == id) xs ≡ some a
  found-later id a x xs f e = ground (arith, archive-id x)

  All-archive : (xs : List (CalibrationArtifact F)) → All IsGated xs → All IsGated (map archive xs)
  All-archive [] gs = tt
  All-archive (x ∷ xs) gs = (archive-IsGated x gs.0, All-archive xs gs.1)

  set_active-IsGated :
      (id now : ℕ) (a : CalibrationArtifact F) (xs : List (CalibrationArtifact F))
      → find (λ x. x.id == id) xs ≡ some a
      → is_candidate a.status ≡ true
      → All IsGated xs
      → All IsGated (set_active id now (map archive xs))
  set_active-IsGated id now a [] f c gs = cc
  set_active-IsGated id now a (x ∷ xs) f c gs =
      by_if (All IsGated) ((archive x).id == id)
        (λ e.
          (reactivated-IsGated now x (candidate-found id a x xs f c e) gs.0, All-archive xs gs.1))
        (λ e. (
          archive-IsGated x gs.0,
          set_active-IsGated id now a xs (found-later id a x xs f e) c gs.1,
        ))

  activate_candidate-All :
      (now : ℕ) (a : CalibrationArtifact F) (xs ys : List (CalibrationArtifact F))
      → find (λ x. x.id == a.id) xs ≡ some a
      → activate_candidate a now xs ≡ some ys
      → All IsGated xs
      → All IsGated ys
  unfolding activate_candidate
  activate_candidate-All now a xs ys f h gs =
      let c : is_candidate a.status ≡ true = ground (arith, h) in
      let e : set_active a.id now (map archive xs) ≡ ys = ground (arith, h) in
      subst (All IsGated) e (set_active-IsGated a.id now a xs f c gs)

  register-All :
      (id n m : ℕ) (fitted : Fitted F) (xs : List (CalibrationArtifact F))
      → min_oos_samples ≤ m
      → All IsGated xs
      → All IsGated (register id n m fitted xs).artifacts
  unfolding register
  register-All id n m fitted xs le gs =
      by_option {B = TrainingResult F} (λ r. All IsGated r.artifacts)
        (find (λ a. a.version == fitted.version) xs)
        (λ _. All-append IsGated xs _ gs ((λ h. (le, graded _ h)), tt)) (λ _ _. gs)

  train_candidate-All :
      (fit : List (Sample F) → List (Sample F) → Fitted F) (id : ℕ) (trades : List (ScoredTrade F))
      (xs : List (CalibrationArtifact F))
      → All IsGated xs
      → All IsGated (train_candidate fit id trades xs).artifacts
  unfolding train_candidate
  train_candidate-All fit id trades xs gs =
      by_if {A = TrainingResult F} (λ r. All IsGated r.artifacts) (insufficient (samples_of trades))
        (λ _. gs) (λ enough. register-All id _ _ _ xs (oos-Enough (samples_of trades) enough) gs)

  -- A store in which at most one artifact is active, and every candidate and active artifact was
  -- tested on twenty samples and improved the Brier score.
  abbrev pub IsSound : List (CalibrationArtifact F) → Type 0
  IsSound xs = (count_active xs ≤ 1) × All IsGated xs

  -- Every store that training and activating, in any order, make of the empty one has at most one
  -- active artifact, and each candidate and active one records at least twenty out-of-sample trades
  -- and a Brier score that is lower after the calibration than before.
  pub Reachable-IsSound : (xs : List (CalibrationArtifact F)) → Reachable xs → IsSound xs
  Reachable-IsSound _ start = (omega arith, tt)
  Reachable-IsSound _ (trained {xs} fit id trades r) =
      let sound = Reachable-IsSound xs r in
      (
        omega (arith, count_active-train_candidate fit id trades xs, sound.0),
        train_candidate-All fit id trades xs sound.1,
      )
  Reachable-IsSound _ (activated {xs} {ys} now a r f h) = (
    count_active-activate_candidate a now xs ys h,
    activate_candidate-All now a xs ys f h (Reachable-IsSound xs r).1,
  )
