-- ===== src/Calibration/Training.antt =====
-- What training a candidate answers and records: `train_candidate` of
-- services/scorer/calibration_store.py.
use mathlib.Core.Path.{subst}
use iran_market_radar.Calibration.Samples.{Enough, Enough-passed, passed-Enough}
use iran_market_radar.Float.{◌<f◌, Float}
use iran_market_radar.Base.{
  ◌↔◌, ◌||◌, ℕ, ◌≡◌, refl, Bool, true, false, none, some, List, [], ◌∷◌, ◌++◌, length, find, by_if,
  by_option, ◌==◌, if◌then◌else◌,
}
use iran_market_radar.Calibration.{
  CalibrationArtifact, candidate, rejected, ScoredTrade, Sample, Fitted, TrainingResult,
  is_candidate, is_active, drop, samples_of, split_at, insufficient, register, train_candidate,
}

pub graded :
    (b : Bool)
    → (is_candidate (if b then candidate else rejected)
        || is_active (if b then candidate else rejected))
      ≡ true
    → b ≡ true
graded true h = refl
graded false h = h

usable-graded :
    (b : Bool)
    → b ≡ (
        is_candidate (if b then candidate else rejected)
        || is_active (if b then candidate else rejected))
usable-graded true = refl
usable-graded false = refl

pub is_active-graded : (b : Bool) → is_active (if b then candidate else rejected) ≡ false
is_active-graded true = refl
is_active-graded false = refl

is_candidate-graded : (b : Bool) → ((if b then candidate else rejected) ≡ candidate) ↔ (b ≡ true)
is_candidate-graded true = (λ _. refl, λ _. refl)
is_candidate-graded false = (λ e. cc, λ e. cc)

module _ {F : Type 0} ⦃fl : Float F⦄ where
  abbrev usable : CalibrationArtifact F → Bool
  usable a = is_candidate a.status || is_active a.status

  -- A refusal, an artifact that is there already, or a new one. `fit` is the fit on the training
  -- samples and its test on the others.
  pub data IsTrained (fit : List (Sample F) → List (Sample F) → Fitted F)
      (samples : List (Sample F)) (xs : List (CalibrationArtifact F)) (r : TrainingResult F)
      : Type 0 where
    refused :
        (¬ Enough samples)
        → r.artifact ≡ none
        → r.allowed ≡ false
        → r.artifacts ≡ xs
        → IsTrained fit samples xs r
    known :
        (e : Enough samples) (a : CalibrationArtifact F)
        → find (λ x. x.version == (fit e.train e.oos).version) xs ≡ some a
        → r.artifact ≡ some a
        → r.allowed ≡ usable a
        → r.artifacts ≡ xs
        → IsTrained fit samples xs r
    added :
        (e : Enough samples) (a : CalibrationArtifact F)
        → find (λ x. x.version == (fit e.train e.oos).version) xs ≡ none
        → r.artifact ≡ some a
        → r.allowed ≡ usable a
        → r.artifacts ≡ xs ++ a ∷ []
        → a.version ≡ (fit e.train e.oos).version
        → (a.status ≡ candidate)
          ↔ (((fit e.train e.oos).brier_after <f (fit e.train e.oos).brier_before) ≡ true)
        → is_active a.status ≡ false
        → a.train_sample_size ≡ length e.train
        → a.oos_sample_size ≡ 20
        → IsTrained fit samples xs r

  register-IsTrained :
      (fit : List (Sample F) → List (Sample F) → Fitted F) (id : ℕ) (samples : List (Sample F))
      (xs : List (CalibrationArtifact F)) (e : Enough samples)
      → IsTrained fit samples xs
          (register id (length e.train) (length e.oos) (fit e.train e.oos) xs)
  unfolding register
  register-IsTrained fit id samples xs e =
      by_option {B = TrainingResult F} (IsTrained fit samples xs)
        (find (λ a. a.version == (fit e.train e.oos).version) xs)
        (λ absent.
          added e _ absent refl (usable-graded _) refl refl (is_candidate-graded _)
            (is_active-graded _) refl e.tested)
        (λ a there. known e a there refl refl refl)

  -- Training answers in one of three ways. It refuses, and leaves the store, exactly when the samples
  -- do not suffice: at least fifty to train on and the last twenty to test, two regimes, and a win and
  -- a loss among the first. Otherwise the fit on the first, tested on the last twenty, names a version:
  -- it answers the first artifact of this version and leaves the store; or, where there is none, it
  -- adds one artifact of this version, not active, a candidate exactly when the fit improves the Brier
  -- score, with the sizes of the two windows. An artifact is answered as allowed exactly when it is a
  -- candidate or active.
  pub train_candidate-IsTrained :
      (fit : List (Sample F) → List (Sample F) → Fitted F) (id : ℕ) (trades : List (ScoredTrade F))
      (xs : List (CalibrationArtifact F))
      → IsTrained fit (samples_of trades) xs (train_candidate fit id trades xs)
  unfolding train_candidate
  train_candidate-IsTrained fit id trades xs =
      let samples = samples_of trades in
      by_if {A = TrainingResult F} (IsTrained fit samples xs) (insufficient samples)
        (λ short. refused (λ e. let enough = passed-Enough samples e in cc) refl refl refl)
        (λ passed.
          let (e, train, oos) = Enough-passed samples passed in
          subst
            (λ ts. IsTrained fit samples xs (
              register id (length ts) (length (drop (split_at samples) samples))
                (fit ts (drop (split_at samples) samples)) xs))
            train
            (subst
              (λ ts.
                IsTrained fit samples xs
                  (register id (length e.train) (length ts) (fit e.train ts) xs))
              oos (register-IsTrained fit id samples xs e)))
