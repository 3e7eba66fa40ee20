-- ===== src/Float.antt =====
-- Python's `float`: the type and its operations are a parameter, since the language of this library
-- has no floating-point numbers. `IsOrdered` states what the proofs use of the order, which holds of
-- the doubles other than NaN.
pub mod Fixed
use iran_market_radar.Base.{
  ℕ, ◌≤◌, ◌≡◌, Bool, true, false, not, ◌⊎◌, List, [], ◌∷◌, Option, none, some, if◌then◌else◌, inl,
  inr, arith, Bool-cases,
}
use iran_market_radar.Base.Int.{ℤ, pos}

pub record Float (F : Type 0) : Type 0 where
  pub of_int : ℤ → F
  -- The decimal literal m / 10^k.
  pub dec : ℕ → ℕ → F
  pub add : F → F → F
  pub sub : F → F → F
  pub mul : F → F → F
  pub div : F → F → F
  pub neg : F → F
  pub abs : F → F
  pub le : F → F → Bool
  -- Neither infinite nor NaN.
  pub is_finite : F → Bool
  -- `int(x)` of a finite x, towards zero.
  pub trunc : F → ℤ
  -- `round(x, k)`.
  pub round : ℕ → F → F
  -- `str(x)`, read as a decimal: its units at 10^-k, and k.
  pub repr : F → ℤ × ℕ

module _ {F : Type 0} ⦃fl : Float F⦄ where
  infixl 65 ◌⊕◌ ◌⊖◌
  infixl 70 ◌⊗◌ ◌⊘◌
  infix 50 ◌≤f◌ ◌<f◌
  abbrev pub ◌⊕◌ : F → F → F
  a ⊕ b = fl.add a b

  abbrev pub ◌⊖◌ : F → F → F
  a ⊖ b = fl.sub a b

  abbrev pub ◌⊗◌ : F → F → F
  a ⊗ b = fl.mul a b

  abbrev pub ◌⊘◌ : F → F → F
  a ⊘ b = fl.div a b

  -- `a <= b` and `a < b`, on values that are not NaN.
  abbrev pub ◌≤f◌ : F → F → Bool
  a ≤f b = fl.le a b

  abbrev pub ◌<f◌ : F → F → Bool
  a <f b = not (fl.le b a)

  abbrev pub feq : F → F → Bool
  feq a b = if fl.le a b then fl.le b a else false

  -- `a / b`: a ZeroDivisionError on zero.
  abbrev pub divided : F → F → Option F
  divided a b = if feq b (fl.of_int (pos 0)) then none else some (a ⊘ b)

  -- `int(x)`: an OverflowError or a ValueError on what is not finite.
  abbrev pub int_of : F → Option ℤ
  int_of x = if fl.is_finite x then some (fl.trunc x) else none

  abbrev pub of_nat : ℕ → F
  of_nat n = fl.of_int (pos n)

  -- `max(a, b)` and `min(a, b)` return the first argument unless the second is beyond it.
  abbrev pub fmax : F → F → F
  fmax a b = if a <f b then b else a

  abbrev pub fmin : F → F → F
  fmin a b = if b <f a then b else a

  -- `sum(...)`, from the left.
  abbrev pub fsum_from : F → List F → F
  fsum_from acc [] = acc
  fsum_from acc (x ∷ xs) = fsum_from (acc ⊕ x) xs

  abbrev pub fsum : List F → F
  fsum xs = fsum_from (of_nat 0) xs

-- The order of the doubles other than NaN, as a total preorder: 0.0 and -0.0 are below one another.
pub record IsOrdered (F : Type 0) ⦃fl : Float F⦄ : Type 0 where
  pub le_total : (x y : F) → (fl.le x y ≡ true) ⊎ (fl.le y x ≡ true)
  pub le_trans : (x y z : F) → fl.le x y ≡ true → fl.le y z ≡ true → fl.le x z ≡ true

module _ {F : Type 0} ⦃fl : Float F⦄ (laws : IsOrdered F) where
  pub fle_refl : (x : F) → fl.le x x ≡ true
  fle_refl x = elim (laws.le_total x x) [ inl h ↦ h | inr h ↦ h ]

  -- A minimum is below both arguments, and a maximum above both.
  pub fmin-le_left : (a b : F) → fl.le (fmin a b) a ≡ true
  fmin-le_left a b = ground (arith, laws.le_total a b, fle_refl a)

  pub fmin-le_right : (a b : F) → fl.le (fmin a b) b ≡ true
  fmin-le_right a b = ground (arith, laws.le_total a b, fle_refl b)

  pub le-fmax_left : (a b : F) → fl.le a (fmax a b) ≡ true
  le-fmax_left a b = ground (arith, laws.le_total a b, fle_refl a)

  pub le-fmax_right : (a b : F) → fl.le b (fmax a b) ≡ true
  le-fmax_right a b = ground (arith, laws.le_total a b, fle_refl b)

-- What the proofs use of the arithmetic on numbers that are not negative, and of `round(x, 2)`.
pub record IsArithmetic (F : Type 0) ⦃fl : Float F⦄ : Type 0 where
  pub nat_nonneg : (n : ℕ) → fl.le (fl.of_int (pos 0)) (fl.of_int (pos n)) ≡ true
  pub dec_nonneg : (m k : ℕ) → fl.le (fl.of_int (pos 0)) (fl.dec m k) ≡ true
  pub add_nonneg :
      (x y : F)
      → fl.le (fl.of_int (pos 0)) x ≡ true
      → fl.le (fl.of_int (pos 0)) y ≡ true
      → fl.le (fl.of_int (pos 0)) (fl.add x y) ≡ true
  pub mul_nonneg :
      (x y : F)
      → fl.le (fl.of_int (pos 0)) x ≡ true
      → fl.le (fl.of_int (pos 0)) y ≡ true
      → fl.le (fl.of_int (pos 0)) (fl.mul x y) ≡ true
  pub sub_nonneg : (x y : F) → fl.le y x ≡ true → fl.le (fl.of_int (pos 0)) (fl.sub x y) ≡ true
  pub hundredths : (m : ℕ) → m ≤ 100 → fl.le (fl.dec m 2) (fl.of_int (pos 1)) ≡ true
  pub round_unit :
      (x : F)
      → fl.le (fl.of_int (pos 0)) x ≡ true
      → fl.le x (fl.of_int (pos 1)) ≡ true
      → (fl.le (fl.of_int (pos 0)) (fl.round 2 x) ≡ true)
        × (fl.le (fl.round 2 x) (fl.of_int (pos 1)) ≡ true)
