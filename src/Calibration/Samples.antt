-- ===== src/Calibration/Samples.antt =====
-- Which samples suffice for training in services/scorer/calibration_store.py: their number, their
-- regimes, and the wins and losses of the training window.
use mathlib.Core.Path.{subst}
use iran_market_radar.Base.{
  ◌||◌, not, ℕ, zero, suc, ◌⊎◌, ◌+◌, ◌-◌, ◌≤◌, ◌≡◌, ◌≢◌, refl, sym, ap, ◌∙◌, inl, inr, Bool, true,
  false, none, some, List, [], ◌∷◌, ◌++◌, length, length-append, exists_in, ◌==◌, if◌then◌else◌,
  arith, by_if, Option-cases,
}
use iran_market_radar.Float.{Float}
use iran_market_radar.Calibration.{
  Sample, min_oos_samples, take, drop, distinct, regimes_of, split_at, insufficient,
}

abbrev has : ℕ → List ℕ → Bool
has n ns = exists_in (λ m. m == n) ns

has-distinct : (n : ℕ) (ns : List ℕ) → has n (distinct ns) ≡ has n ns
has-distinct n [] = refl
has-distinct n (m ∷ ms) =
    let rest = has-distinct n ms in
    by_if (λ xs. has n xs ≡ ((m == n) || has n ms)) (has m (distinct ms))
      (λ there.
        let through : (m ≡ n → has n (distinct ms) ≡ true) =
          λ e. subst (λ k. has k (distinct ms) ≡ true) e there in
        ground (arith, rest, through))
      (λ absent. ap (λ b. (m == n) || b) rest)

some_number : (ns : List ℕ) → 1 ≤ length ns → (n : ℕ) × (has n ns ≡ true)
some_number [] h = absurd (omega (arith, h))
some_number (n ∷ ns) h = (n, ground arith)

-- Two different numbers of a list.
abbrev Two : List ℕ → Type 0
Two ns = (r : ℕ) × (q : ℕ) × (r ≢ q) × (has r ns ≡ true) × (has q ns ≡ true)

Two-more : (n : ℕ) (ns : List ℕ) → Two ns → Two (n ∷ ns)
Two-more n ns (r, q, apart, hr, hq) = (r, q, apart, ground (arith, hr), ground (arith, hq))

distinct-Two : (ns : List ℕ) → 2 ≤ length (distinct ns) → Two ns
distinct-Two [] = λ h. absurd (omega (arith, h))
distinct-Two (n ∷ ns) =
    by_if (λ (xs : List ℕ). 2 ≤ length xs → Two (n ∷ ns)) (has n (distinct ns))
      (λ _ h. Two-more n ns (distinct-Two ns h))
      (λ absent h.
        let (m, hm) = some_number (distinct ns) (omega (arith, h)) in
        (
          m,
          n,
          λ e. let same = subst (λ k. has k (distinct ns) ≡ true) e hm in cc,
          (let inside = sym (has-distinct m ns) ∙ hm in ground (arith, inside)),
          ground arith,
        ))

short_list : (r q : ℕ) (ns : List ℕ) → length ns ≤ 1 → has r ns ≡ true → has q ns ≡ true → r ≡ q
short_list r q [] h hr hq = cc
short_list r q (n ∷ []) h hr hq = ground arith
short_list r q (n ∷ (m ∷ ns)) h hr hq = absurd (omega (arith, h))

few_or_two : (n : ℕ) → (n ≤ 1) ⊎ (2 ≤ n)
few_or_two zero = inl (omega arith)
few_or_two (suc zero) = inl (omega arith)
few_or_two (suc (suc n)) = inr (omega arith)

Two-distinct : (ns : List ℕ) → Two ns → 2 ≤ length (distinct ns)
Two-distinct ns (r, q, apart, hr, hq) = elim (few_or_two (length (distinct ns))) [
  | inl short ↦
      absurd (
        apart
          (short_list r q (distinct ns) short (has-distinct r ns ∙ hr) (has-distinct q ns ∙ hq)))
  | inr long ↦ long
]

take-append {ℓ} : {A : Type ℓ} (xs ys : List A) → take (length xs) (xs ++ ys) ≡ xs
take-append [] [] = refl
take-append [] (y ∷ ys) = ground arith
take-append (x ∷ xs) ys =
    let before : suc (length xs) - 1 ≡ length xs = omega arith in
    let rest = ap (λ n. take n (xs ++ ys)) before ∙ take-append xs ys in
    by_if (λ zs. zs ≡ x ∷ xs) (suc (length xs) == 0) (λ h. ground (arith, h))
      (λ _. ap (λ zs. x ∷ zs) rest)

split-cons {ℓ} :
    {A : Type ℓ} (b : Bool) (x : A) (xs ts ds : List A)
    → ts ++ ds ≡ xs
    → (if b then [] else x ∷ ts) ++ (if b then x ∷ xs else ds) ≡ x ∷ xs
split-cons true x xs ts ds h = refl
split-cons false x xs ts ds h = ap (λ zs. x ∷ zs) h

take-drop {ℓ} : {A : Type ℓ} (n : ℕ) (xs : List A) → take n xs ++ drop n xs ≡ xs
take-drop n [] = refl
take-drop n (x ∷ xs) =
    split-cons (n == 0) x xs (take (n - 1) xs) (drop (n - 1) xs) (take-drop (n - 1) xs)

module _ {F : Type 0} where
  -- A sample of the regime `r`.
  abbrev pub in_regime : ℕ → Sample F → Bool
  in_regime r s = elim s.regime [ none ↦ false | some q ↦ q == r ]

  has-regimes_of :
      (r : ℕ) (ss : List (Sample F)) → has r (regimes_of ss) ≡ exists_in (in_regime r) ss
  has-regimes_of r [] = refl
  has-regimes_of r (s ∷ ss) =
      let rest = has-regimes_of r ss in
      elim (Option-cases s.regime) [
        | inl e ↦ ground (arith, e, rest)
        | inr (q, e) ↦ ground (arith, e, rest)
      ]

  -- Samples that suffice: at least fifty to train on and the last twenty to test, two regimes, and a
  -- training window with a win and a loss.
  pub record Enough (samples : List (Sample F)) : Type 0 where
    pub train : List (Sample F)
    pub oos : List (Sample F)
    pub split : train ++ oos ≡ samples
    pub trained : 50 ≤ length train
    pub tested : length oos ≡ 20
    pub r : ℕ
    pub q : ℕ
    pub two_regimes : r ≢ q
    pub one_regime : exists_in (in_regime r) samples ≡ true
    pub other_regime : exists_in (in_regime q) samples ≡ true
    pub a_win : exists_in (λ s. s.won) train ≡ true
    pub a_loss : exists_in (λ s. not s.won) train ≡ true

length-take {ℓ} : {A : Type ℓ} (n : ℕ) (xs : List A) → n ≤ length xs → length (take n xs) ≡ n
length-take n [] h = omega (arith, h)
length-take n (x ∷ xs) h = ground (arith, length-take (n - 1) xs)

length-drop {ℓ} : {A : Type ℓ} (n : ℕ) (xs : List A) → length (drop n xs) ≡ length xs - n
length-drop n [] = omega arith
length-drop n (x ∷ xs) = ground (arith, length-drop (n - 1) xs)

-- At least seventy samples are split so that the last twenty are left out of the training.
pub oos-Enough :
    {F : Type 0} ⦃fl : Float F⦄ (samples : List (Sample F))
    → insufficient samples ≡ false
    → min_oos_samples ≤ length (drop (split_at samples) samples)
unfolding insufficient
oos-Enough samples h = ground (arith, length-drop (split_at samples) samples)

split-Sizes :
    {F : Type 0} ⦃fl : Float F⦄ (samples : List (Sample F))
    → insufficient samples ≡ false
    → let train = length (take (split_at samples) samples) in
      let oos = length (drop (split_at samples) samples) in
      (50 ≤ train) × (oos ≡ 20) × (train + oos ≡ length samples)
unfolding insufficient
split-Sizes samples h =
    let many : 70 ≤ length samples = ground arith in
    let size = length-take (split_at samples) samples (ground arith) in
    let rest = length-drop (split_at samples) samples in (ground arith, ground arith, ground arith)

module _ {F : Type 0} ⦃fl : Float F⦄ where
  -- Samples that the guard of the training lets pass suffice.
  pub Enough-passed :
      (samples : List (Sample F))
      → insufficient samples ≡ false
      → (e : Enough samples) × (e.train ≡ take (split_at samples) samples)
        × (e.oos ≡ drop (split_at samples) samples)
  unfolding insufficient
  Enough-passed samples h =
      let sizes = split-Sizes samples h in
      let (r, q, apart, one, other) = distinct-Two (regimes_of samples) (ground (arith, h)) in
      (
        record {
          train = take (split_at samples) samples;
          oos = drop (split_at samples) samples;
          split = take-drop (split_at samples) samples;
          trained = sizes.0;
          tested = sizes.1;
          r = r;
          q = q;
          two_regimes = apart;
          one_regime = sym (has-regimes_of r samples) ∙ one;
          other_regime = sym (has-regimes_of q samples) ∙ other;
          a_win = ground (arith, h);
          a_loss = ground (arith, h);
        },
        refl,
        refl,
      )

  -- The guard lets samples pass that suffice.
  pub passed-Enough : (samples : List (Sample F)) → Enough samples → insufficient samples ≡ false
  unfolding insufficient
  passed-Enough samples e =
      let counted : length e.train + length e.oos ≡ length samples =
        sym (length-append e.train e.oos) ∙ ap length e.split in
      let here : split_at samples ≡ length e.train = ground (arith, counted, e.trained, e.tested) in
      let window : take (split_at samples) samples ≡ e.train =
        ap (λ n. take n samples) here
        ∙ sym (ap (take (length e.train)) e.split)
        ∙ take-append e.train e.oos in
      let two = Two-distinct (regimes_of samples) (
        e.r,
        e.q,
        e.two_regimes,
        has-regimes_of e.r samples ∙ e.one_regime,
        has-regimes_of e.q samples ∙ e.other_regime,
      ) in
      let wins = ap (exists_in (λ (s : Sample F). s.won)) window ∙ e.a_win in
      let losses = ap (exists_in (λ (s : Sample F). not s.won)) window ∙ e.a_loss in
      ground (arith, counted, two, wins, losses, e.trained, e.tested)
