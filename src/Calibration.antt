-- ===== src/Calibration.antt =====
-- services/scorer/calibration_store.py: candidates of the probability calibration and the activation
-- of one of them. What the calibrator of packages/ml/calibration.py, around a library's isotonic fit,
-- gives on the samples, its Brier scores and the version that the hash of the data set names, are a
-- parameter, `fit`.
pub mod Activation
pub mod Samples
pub mod Training
mod Tests
use iran_market_radar.Base.{
  ℕ, ◌+◌, ◌-◌, Bool, true, false, not, ◌&&◌, ◌||◌, Option, none, some, List, [], ◌∷◌, ◌++◌, map,
  length, find, exists_in, ltb, leb, ◌==◌, if◌then◌else◌,
}
use iran_market_radar.Float.{Float, ◌⊘◌, ◌≤f◌, ◌<f◌, of_nat}

pub data ArtifactStatus : Type 0 where
  candidate active archived rejected : ArtifactStatus

pub record CalibrationArtifact (F : Type 0) : Type 0 where
  pub id : ℕ
  pub version : ℕ
  pub status : ArtifactStatus
  pub train_sample_size : ℕ
  pub oos_sample_size : ℕ
  pub brier_before : F
  pub brier_after : F
  pub activated_at : Option ℕ

-- A closed trade of the portfolio, in the order of opening: the opportunity score of its decision, if
-- both are there, and the regime at entry, `none` where it is empty or unknown.
pub record ScoredTrade (F : Type 0) : Type 0 where
  pub opportunity_score : Option F
  pub net_pnl : F
  pub regime : Option ℕ

pub record Sample (F : Type 0) : Type 0 where
  pub score : F
  pub won : Bool
  pub regime : Option ℕ

-- What the fit on the training samples and its test on the others give.
pub record Fitted (F : Type 0) : Type 0 where
  pub version : ℕ
  pub brier_before : F
  pub brier_after : F

pub record TrainingResult (F : Type 0) : Type 0 where
  pub artifact : Option (CalibrationArtifact F)
  pub allowed : Bool
  pub artifacts : List (CalibrationArtifact F)

abbrev pub min_train_samples : ℕ
min_train_samples = 50

abbrev pub min_oos_samples : ℕ
min_oos_samples = 20

abbrev pub is_candidate : ArtifactStatus → Bool
is_candidate candidate = true
is_candidate _ = false

abbrev pub is_active : ArtifactStatus → Bool
is_active active = true
is_active _ = false

abbrev pub max_nat : ℕ → ℕ → ℕ
max_nat a b = if ltb a b then b else a

-- `xs[:n]` and `xs[n:]`.
abbrev pub take {ℓ} : {A : Type ℓ} → ℕ → List A → List A
take n [] = []
take n (x ∷ xs) = let rest = take (n - 1) xs in if n == 0 then [] else x ∷ rest

abbrev pub drop {ℓ} : {A : Type ℓ} → ℕ → List A → List A
drop n [] = []
drop n (x ∷ xs) = let rest = drop (n - 1) xs in if n == 0 then x ∷ xs else rest

-- The different values of a list.
abbrev pub distinct : List ℕ → List ℕ
distinct [] = []
distinct (n ∷ ns) =
    let rest = distinct ns in if exists_in (λ m. m == n) rest then rest else n ∷ rest

module _ {F : Type 0} where
  abbrev pub regimes_of : List (Sample F) → List ℕ
  regimes_of [] = []
  regimes_of (s ∷ ss) = elim s.regime [ none ↦ regimes_of ss | some r ↦ r ∷ regimes_of ss ]

  -- `activate_candidate` first archives the active rows.
  abbrev pub archive : CalibrationArtifact F → CalibrationArtifact F
  archive a = if is_active a.status then record a { status = archived } else a

  abbrev pub set_active : ℕ → ℕ → List (CalibrationArtifact F) → List (CalibrationArtifact F)
  set_active id now [] = []
  set_active id now (a ∷ as') =
      if a.id == id
      then record a { status = active; activated_at = some now } ∷ as'
      else a ∷ set_active id now as'

module _ {F : Type 0} ⦃fl : Float F⦄ where
  unfoldable pub samples_of : List (ScoredTrade F) → List (Sample F)
  samples_of [] = []
  samples_of (t ∷ ts) = elim t.opportunity_score [
    | none ↦ samples_of ts
    | some score ↦
        let rest = samples_of ts in
        if not ((of_nat 0 ≤f score) && (score ≤f of_nat 100))
        then rest
        else record { score = score ⊘ of_nat 100; won = of_nat 0 <f t.net_pnl; regime = t.regime }
          ∷ rest
  ]

  abbrev pub split_at : List (Sample F) → ℕ
  split_at samples = max_nat min_train_samples (length samples - min_oos_samples)

  -- Too few samples, fewer than two regimes, or a training window of wins or of losses only.
  unfoldable pub insufficient : List (Sample F) → Bool
  insufficient samples =
      let train = take (split_at samples) samples in
      ltb (length samples) (min_train_samples + min_oos_samples)
      || ltb (length (distinct (regimes_of samples))) 2
      || not (exists_in (λ s. s.won) train && exists_in (λ s. not s.won) train)

  -- The candidate, once the samples suffice.
  unfoldable pub register : ℕ → ℕ → ℕ → Fitted F → List (CalibrationArtifact F) → TrainingResult F
  register id train_size oos_size fitted artifacts =
      elim (find (λ a. a.version == fitted.version) artifacts) [
        | some existing ↦ record {
          artifact = some existing;
          allowed = is_candidate existing.status || is_active existing.status;
          artifacts = artifacts;
        }
        | none ↦
            let improved = fitted.brier_after <f fitted.brier_before in
            let a : CalibrationArtifact F = record {
              id = id;
              version = fitted.version;
              status = if improved then candidate else rejected;
              train_sample_size = train_size;
              oos_sample_size = oos_size;
              brier_before = fitted.brier_before;
              brier_after = fitted.brier_after;
              activated_at = none;
            } in
            record { artifact = some a; allowed = improved; artifacts = artifacts ++ a ∷ [] }
      ]

  unfoldable pub train_candidate :
      (List (Sample F) → List (Sample F) → Fitted F)
      → ℕ
      → List (ScoredTrade F)
      → List (CalibrationArtifact F)
      → TrainingResult F
  train_candidate fit id trades artifacts =
      let samples = samples_of trades in
      let train = take (split_at samples) samples in
      let oos = drop (split_at samples) samples in
      let refused : TrainingResult F = record {
        artifact = none;
        allowed = false;
        artifacts = artifacts;
      } in
      if insufficient samples
      then refused
      else register id (length train) (length oos) (fit train oos) artifacts

  -- `none` is a ValueError.
  unfoldable pub activate_candidate :
      CalibrationArtifact F
      → ℕ
      → List (CalibrationArtifact F)
      → Option (List (CalibrationArtifact F))
  activate_candidate a now artifacts =
      if not (is_candidate a.status)
      then none
      else if ltb a.oos_sample_size min_oos_samples || (a.brier_before ≤f a.brier_after)
      then none
      else some (set_active a.id now (map archive artifacts))
