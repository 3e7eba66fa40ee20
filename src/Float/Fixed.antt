-- ===== src/Float/Fixed.antt =====
-- A `Float` that runs: decimal fixed-point numbers with six places, kept as integers. The examples
-- of the other modules evaluate on it.
use iran_market_radar.Base.{
  ℕ, suc, ◌+◌, ◌*◌, ◌/◌, ◌%◌, ◌^◌, ◌≤◌, ◌≡◌, ◌≢◌, true, arith, ltb, leb, if◌then◌else◌,
}
use iran_market_radar.Base.Int.{ℤ, pos, negsuc, pos_part, neg_part, sub_ℕ, leb_ℤ}
use iran_market_radar.Float.{Float, IsOrdered, IsArithmetic}

-- A number of micro-units.
abbrev pub Fixed : Type 0
Fixed = ℤ

abbrev unit : ℕ
unit = 1_000_000

-- Half to even, of a number of micro-units, at a step of `unit / 10 ^ k`.
abbrev round_part : ℕ → ℕ → ℕ
round_part step n =
    let q = n / step in
    let r = (n % step) * 2 in
    if ltb r step then q * step else if ltb step r then (q + 1) * step else (q + q % 2) * step

-- A product over 10 ^ 6, and a quotient, towards zero.
abbrev fixed_mul : ℤ → ℤ → ℤ
fixed_mul a b =
    sub_ℕ ((pos_part a * pos_part b + neg_part a * neg_part b) / unit)
      ((pos_part a * neg_part b + neg_part a * pos_part b) / unit)

abbrev fixed_div : ℤ → ℤ → ℤ
fixed_div a b =
    let size = pos_part b + neg_part b in
    let x = pos_part a * unit / size in
    let y = neg_part a * unit / size in if leb (neg_part b) 0 then sub_ℕ x y else sub_ℕ y x

instance abbrev pub fixed_float : Float Fixed
fixed_float = record {
  of_int = λ n. sub_ℕ (pos_part n * unit) (neg_part n * unit);
  dec = λ m k. pos (m * unit / 10 ^ k);
  add = λ a b. sub_ℕ (pos_part a + pos_part b) (neg_part a + neg_part b);
  sub = λ a b. sub_ℕ (pos_part a + neg_part b) (neg_part a + pos_part b);
  mul = fixed_mul;
  div = fixed_div;
  neg = λ a. sub_ℕ (neg_part a) (pos_part a);
  abs = λ a. pos (pos_part a + neg_part a);
  le = leb_ℤ;
  is_finite = λ a. true;
  trunc = λ a. sub_ℕ (pos_part a / unit) (neg_part a / unit);
  round = λ k a.
      sub_ℕ (round_part (unit / 10 ^ k) (pos_part a)) (round_part (unit / 10 ^ k) (neg_part a));
  repr = λ a. (a, 6);
}

pub Fixed-IsOrdered : IsOrdered Fixed
Fixed-IsOrdered = record { le_total = λ x y. ground arith; le_trans = λ x y z h k. ground arith }

-- Rounding to two places keeps the order.
round_part_mono : (m n : ℕ) → m ≤ n → round_part 10_000 m ≤ round_part 10_000 n
round_part_mono m n h = ground arith

sub-le : (a b c d : ℕ) → a + d ≤ c + b → leb_ℤ (sub_ℕ a b) (sub_ℕ c d) ≡ true
sub-le a b c d h = ground arith

round_parts_mono :
    (x y : ℤ)
    → leb_ℤ x y ≡ true
    → round_part 10_000 (pos_part x) + round_part 10_000 (neg_part y)
      ≤ round_part 10_000 (pos_part y) + round_part 10_000 (neg_part x)
round_parts_mono (pos m) (pos n) h = omega (arith, round_part_mono m n (ground arith))
round_parts_mono (pos m) (negsuc n) h = ground arith
round_parts_mono (negsuc m) (pos n) h = omega arith
round_parts_mono (negsuc m) (negsuc n) h =
    omega (arith, round_part_mono (suc n) (suc m) (ground arith))

pub Fixed-round_mono :
    (x y : Fixed)
    → fixed_float.le x y ≡ true
    → fixed_float.le (fixed_float.round 2 x) (fixed_float.round 2 y) ≡ true
Fixed-round_mono x y h = sub-le _ _ _ _ (round_parts_mono x y h)

negative : (m : ℕ) → leb_ℤ (pos 0) (negsuc m) ≢ true
negative m h = ground arith

nonneg-mul :
    (x y : ℤ)
    → leb_ℤ (pos 0) x ≡ true
    → leb_ℤ (pos 0) y ≡ true
    → leb_ℤ (pos 0) (fixed_mul x y) ≡ true
nonneg-mul (pos m) (pos n) h k = ground arith
nonneg-mul (negsuc m) y h k = absurd (negative m h)
nonneg-mul (pos m) (negsuc n) h k = absurd (negative n k)

round_part-unit : (m : ℕ) → m ≤ unit → round_part 10_000 m ≤ unit
round_part-unit m h = ground arith

nonneg-round :
    (x : ℤ)
    → leb_ℤ (pos 0) x ≡ true
    → leb_ℤ x (pos unit) ≡ true
    → (leb_ℤ (pos 0) (fixed_float.round 2 x) ≡ true)
      × (leb_ℤ (fixed_float.round 2 x) (pos unit) ≡ true)
nonneg-round (pos m) h k = (ground arith, ground (arith, round_part-unit m))
nonneg-round (negsuc m) h k = absurd (negative m h)

pub Fixed-IsArithmetic : IsArithmetic Fixed
Fixed-IsArithmetic = record {
  nat_nonneg = λ n. ground arith;
  dec_nonneg = λ m k. ground arith;
  add_nonneg = λ x y h k. ground arith;
  mul_nonneg = nonneg-mul;
  sub_nonneg = λ x y h. ground arith;
  hundredths = λ m h. ground arith;
  round_unit = nonneg-round;
}
