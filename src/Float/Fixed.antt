-- ===== src/Float/Fixed.antt =====
-- Numbers with eight decimals, and `none` for NaN: a small model of the laws that `IsIeee` names.
-- It stands in for binary64 in the tests alone, where the engine's rounding is of no account.
use grid_bot.Common.{
  ℕ, zero, suc, ◌+◌, ◌-◌, ◌*◌, ◌/◌, ◌^◌, Bool, true, false, Option, none, some, arith, ◌==◌,
  if◌then◌else◌, ℤ, pos, negsuc, pos_part, neg_part, sub_ℕ, leb_ℤ,
}
use grid_bot.Float.{Float, IsIeee}

-- 1, in units of 10^-8
abbrev pub unit : ℕ
unit = 100_000_000

abbrev pub Fixed : Type 0
Fixed = Option ℤ

abbrev lift : (ℤ → ℤ → Fixed) → Fixed → Fixed → Fixed
lift g (some a) (some b) = g a b
lift g _ _ = none

abbrev test : (ℤ → ℤ → Bool) → Fixed → Fixed → Bool
test g (some a) (some b) = g a b
test g _ _ = false

abbrev is_some : Fixed → Bool
is_some (some _) = true
is_some none = false

-- A function of the size, with the sign kept.
abbrev by_size : (ℕ → ℕ) → ℤ → ℤ
by_size g (pos n) = pos (g n)
by_size g (negsuc n) = sub_ℕ 0 (g (suc n))

abbrev lift₁ : (ℤ → ℤ) → Fixed → Fixed
lift₁ g (some a) = some (g a)
lift₁ g none = none

abbrev size : ℤ → ℕ
size a = pos_part a + neg_part a

abbrev product : ℤ → ℤ → ℤ
product a b =
    sub_ℕ (pos_part a * pos_part b + neg_part a * neg_part b)
      (pos_part a * neg_part b + neg_part a * pos_part b)

abbrev sign : ℤ → ℤ
sign (pos n) = pos 1
sign (negsuc n) = negsuc 0

abbrev quotient : ℤ → ℤ → Fixed
quotient a b =
    if size b == 0
    then none
    else some (product (product (sign a) (sign b)) (pos (size a * unit / size b)))

abbrev power : ℕ → ℤ → ℤ
power zero a = pos unit
power (suc n) a = by_size (λ m. m / unit) (product a (power n a))

abbrev floor_ℤ : ℤ → ℤ
floor_ℤ (pos n) = pos (n / unit * unit)
floor_ℤ (negsuc n) = sub_ℕ 0 ((suc n + unit - 1) / unit * unit)

abbrev negate : ℤ → ℤ
negate a = sub_ℕ (neg_part a) (pos_part a)

abbrev sum : ℤ → ℤ → ℤ
sum a b = sub_ℕ (pos_part a + pos_part b) (neg_part a + neg_part b)

abbrev round_size : ℕ → ℕ → ℕ
round_size digits m = let u = 10 ^ (8 - digits) in (m + u / 2) / u * u

instance abbrev pub fixed_float : Float Fixed
fixed_float = record {
  decimal = λ m k. some (pos (m * unit / 10 ^ k));
  epsilon = some (pos 1);
  add = lift (λ a b. some (sum a b));
  sub = lift (λ a b. some (sum a (negate b)));
  mul = lift (λ a b. some (by_size (λ m. m / unit) (product a b)));
  div = lift quotient;
  pow = lift (λ a b. some (power (pos_part b / unit) a));
  le = test leb_ℤ;
  is_finite = is_some;
  abs = lift₁ (λ a. pos (size a));
  min = lift (λ a b. some (if leb_ℤ a b then a else b));
  max = lift (λ a b. some (if leb_ℤ a b then b else a));
  floor = lift₁ floor_ℤ;
  ceil = lift₁ (λ a. negate (floor_ℤ (negate a)));
  nearest = lift₁ (λ a. floor_ℤ (sum a (pos (unit / 2))));
  to_fixed = λ x digits. lift₁ (by_size (round_size digits)) x;
}

pub Fixed-IsIeee : IsIeee Fixed
Fixed-IsIeee = record {
  le_numbers = λ x y. ground arith;
  le_trans = λ x y z. ground arith;
  le_total = λ x y. ground arith;
  finite_number = λ x. ground arith;
  decimal_finite = λ m k. ground arith;
  decimal_nonneg = λ m k. ground arith;
  add_grows = λ x y. ground arith;
  sub_falls = λ x y. ground arith;
  add_mono = λ x y z. ground arith;
  sub_mono = λ x y z. ground arith;
  min_le = λ x y. ground arith;
  max_le = λ x y. ground arith;
  min_cases = λ x y. ground arith;
  max_cases = λ x y. ground arith;
}
