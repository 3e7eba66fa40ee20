-- ===== src/Base/Lists.antt =====
-- List functions over the native numbers and with Boolean tests, with the lemmas the components share.
use Prim.Native.Nat.{ℕ, suc, ◌+◌}
use mathlib.Core.Path.{◌≡◌, refl}
use mathlib.Core.Logic.{◌≢◌}
use mathlib.Core.Bool.{Bool, true, false, ◌||◌}
use mathlib.Core.Option.{Option, none, some}
use mathlib.Core.List.{List, [], ◌∷◌, ◌++◌}
use native.Mathlib.Omega.{arith}
use iran_market_radar.Base.Tests.{if◌then◌else◌, ◌==◌}

module _ {ℓ} {A : Type ℓ} where
  abbrev pub length : List A → ℕ
  length [] = 0
  length (x ∷ xs) = suc (length xs)

  -- `[x for x in xs if p(x)]`, also a query's filter.
  abbrev pub keep : (A → Bool) → List A → List A
  keep p [] = []
  keep p (x ∷ xs) = let rest = keep p xs in if p x then x ∷ rest else rest

  -- `next((x for x in xs if p(x)), None)`, also a query's `.filter(p).first()`.
  abbrev pub find : (A → Bool) → List A → Option A
  find p [] = none
  find p (x ∷ xs) = let rest = find p xs in if p x then some x else rest

  -- `any(p(x) for x in xs)`.
  abbrev pub exists_in : (A → Bool) → List A → Bool
  exists_in p [] = false
  exists_in p (x ∷ xs) = p x || exists_in p xs

  abbrev pub All {κ} : (A → Type κ) → List A → Type κ
  All P [] = Unit
  All P (x ∷ xs) = P x × All P xs

  pub length-append : (xs ys : List A) → length (xs ++ ys) ≡ length xs + length ys
  length-append [] ys = omega arith
  length-append (x ∷ xs) ys = omega (arith, length-append xs ys)

  pub All-append {κ} : (P : A → Type κ) (xs ys : List A) → All P xs → All P ys → All P (xs ++ ys)
  All-append P [] ys hx hy = hy
  All-append P (x ∷ xs) ys hx hy = (hx.0, All-append P xs ys hx.1 hy)

  -- What a search returns passes its test.
  pub find-passes : (p : A → Bool) (xs : List A) {x : A} → find p xs ≡ some x → p x ≡ true
  find-passes p [] h = cc
  find-passes p (y ∷ xs) {x} h = ground (arith, find-passes p xs {x = x})

  -- No two entries have the same key.
  abbrev pub DistinctOn : (A → ℕ) → List A → Type 0
  DistinctOn key [] = Unit
  DistinctOn key (x ∷ xs) = All (λ y. key x ≢ key y) xs × DistinctOn key xs

  absent-differ :
      (key : A → ℕ) (n : ℕ) (xs : List A)
      → exists_in (λ x. key x == n) xs ≡ false
      → All (λ x. key x ≢ n) xs
  absent-differ key n [] h = tt
  absent-differ key n (x ∷ xs) h =
      (λ e. ground (arith, h, e), absent-differ key n xs (ground arith))

  apart-DistinctOn :
      (key : A → ℕ) (xs : List A) (x : A)
      → All (λ y. key y ≢ key x) xs
      → DistinctOn key xs
      → DistinctOn key (xs ++ x ∷ [])
  apart-DistinctOn key [] x h d = (tt, tt)
  apart-DistinctOn key (y ∷ ys) x h d =
      (All-append (λ z. key y ≢ key z) ys (x ∷ []) d.0 (h.0, tt), apart-DistinctOn key ys x h.1 d.1)

  -- An entry with a key that is absent can be added at the end.
  pub absent-DistinctOn :
      (key : A → ℕ) (xs : List A) (x : A)
      → exists_in (λ y. key y == key x) xs ≡ false
      → DistinctOn key xs
      → DistinctOn key (xs ++ x ∷ [])
  absent-DistinctOn key xs x absent d =
      apart-DistinctOn key xs x (absent-differ key (key x) xs absent) d

  pub exists_in-append :
      (p : A → Bool) (xs ys : List A) → exists_in p xs ≡ true → exists_in p (xs ++ ys) ≡ true
  exists_in-append p [] ys h = cc
  exists_in-append p (x ∷ xs) ys h = ground (arith, exists_in-append p xs ys)

  pub exists_in-last :
      (p : A → Bool) (xs : List A) (x : A) → p x ≡ true → exists_in p (xs ++ x ∷ []) ≡ true
  exists_in-last p [] x h = ground arith
  exists_in-last p (y ∷ ys) x h = ground (arith, exists_in-last p ys x h)

  pub find-none : (p : A → Bool) (xs : List A) → find p xs ≡ none → exists_in p xs ≡ false
  find-none p [] h = refl
  find-none p (x ∷ xs) h = ground (arith, find-none p xs)

  pub find-exists_in :
      (p : A → Bool) (xs : List A) {x : A} → find p xs ≡ some x → exists_in p xs ≡ true
  find-exists_in p [] h = cc
  find-exists_in p (y ∷ ys) {x} h = ground (arith, find-exists_in p ys {x = x})

  -- What holds of nothing in particular holds of each.
  pub All-const {κ} : {P : Type κ} (xs : List A) → P → All (λ _. P) xs
  All-const [] h = tt
  All-const (x ∷ xs) h = (h, All-const xs h)

  pub All-map {κ κ'} :
      {P : A → Type κ} {Q : A → Type κ'} (xs : List A) → ((x : A) → P x → Q x) → All P xs → All Q xs
  All-map [] f h = tt
  All-map (x ∷ xs) f h = (f x h.0, All-map xs f h.1)
