-- ===== src/Float.antt =====
-- A `number` of the program, a binary64. Its operations are the engine's, so they are a parameter:
-- the fields of `Float`, with `le` for `<=`, which is false at NaN. The other comparisons are
-- written by `le`, as in IEEE 754: `a < b` is `a <= b` and not `b <= a`.
pub mod Fixed
use grid_bot.Common.{ℕ, ◌^◌, ◌<◌, ◌≡◌, Bool, true, false, not, ◌&&◌, ◌⊎◌}

pub record Float (D : Type 0) : Type 0 where
  -- `decimal m k` is the literal m * 10^-k
  pub decimal : ℕ → ℕ → D
  pub epsilon : D
  pub add : D → D → D
  pub sub : D → D → D
  pub mul : D → D → D
  pub div : D → D → D
  pub pow : D → D → D
  pub le : D → D → Bool
  pub is_finite : D → Bool
  pub abs : D → D
  pub min : D → D → D
  pub max : D → D → D
  pub floor : D → D
  pub ceil : D → D
  -- `Math.round(x)`
  pub nearest : D → D
  -- `Number(x.toFixed(digits))`
  pub to_fixed : D → ℕ → D

module _ {D : Type 0} ⦃f : Float D⦄ where
  infixl 65 ◌⊕◌ ◌⊖◌
  infixl 70 ◌⊗◌ ◌⊘◌
  infix 50 ◌≼◌ ◌≺◌ ◌≈◌
  abbrev pub ◌⊕◌ : D → D → D
  x ⊕ y = f.add x y

  abbrev pub ◌⊖◌ : D → D → D
  x ⊖ y = f.sub x y

  abbrev pub ◌⊗◌ : D → D → D
  x ⊗ y = f.mul x y

  abbrev pub ◌⊘◌ : D → D → D
  x ⊘ y = f.div x y

  abbrev pub ◌≼◌ : D → D → Bool
  x ≼ y = f.le x y

  abbrev pub ◌≺◌ : D → D → Bool
  x ≺ y = f.le x y && not (f.le y x)

  abbrev pub ◌≈◌ : D → D → Bool
  x ≈ y = f.le x y && f.le y x

  abbrev pub num : ℕ → D
  num n = f.decimal n 0

  -- `x` is not NaN
  abbrev pub IsNumber : D → Type 0
  IsNumber x = f.le x x ≡ true

-- What IEEE 754 and ECMAScript say of these operations, as far as the theorems need it. Every law
-- holds of binary64 with rounding, infinities and NaN.
pub record IsIeee (D : Type 0) ⦃f : Float D⦄ : Type 0 where
  pub le_numbers : (x y : D) → f.le x y ≡ true → (f.le x x ≡ true) × (f.le y y ≡ true)
  pub le_trans : (x y z : D) → f.le x y ≡ true → f.le y z ≡ true → f.le x z ≡ true
  pub le_total :
      (x y : D) → f.le x x ≡ true → f.le y y ≡ true → (f.le x y ≡ true) ⊎ (f.le y x ≡ true)
  pub finite_number : (x : D) → f.is_finite x ≡ true → f.le x x ≡ true
  pub decimal_finite : (m k : ℕ) → m < 2 ^ 53 → f.is_finite (f.decimal m k) ≡ true
  pub decimal_nonneg : (m k : ℕ) → f.le (f.decimal 0 0) (f.decimal m k) ≡ true
  -- rounding is monotone
  pub add_grows :
      (x y : D) → f.is_finite x ≡ true → f.le (f.decimal 0 0) y ≡ true → f.le x (f.add x y) ≡ true
  pub sub_falls :
      (x y : D) → f.is_finite x ≡ true → f.le (f.decimal 0 0) y ≡ true → f.le (f.sub x y) x ≡ true
  pub add_mono :
      (x y z : D)
      → f.is_finite x ≡ true
      → f.is_finite y ≡ true
      → f.is_finite z ≡ true
      → f.le x y ≡ true
      → f.le (f.add x z) (f.add y z) ≡ true
  pub sub_mono :
      (x y z : D)
      → f.is_finite x ≡ true
      → f.is_finite y ≡ true
      → f.is_finite z ≡ true
      → f.le x y ≡ true
      → f.le (f.sub x z) (f.sub y z) ≡ true
  -- `Math.min` and `Math.max` are NaN if an argument is; else they are bounds, and one of the two
  pub min_le :
      (x y : D)
      → f.le (f.min x y) (f.min x y) ≡ true
      → (f.le (f.min x y) x ≡ true) × (f.le (f.min x y) y ≡ true)
  pub max_le :
      (x y : D)
      → f.le (f.max x y) (f.max x y) ≡ true
      → (f.le x (f.max x y) ≡ true) × (f.le y (f.max x y) ≡ true)
  pub min_cases : (x y : D) → f.le x x ≡ true → f.le y y ≡ true → (f.min x y ≡ x) ⊎ (f.min x y ≡ y)
  pub max_cases : (x y : D) → f.le x x ≡ true → f.le y y ≡ true → (f.max x y ≡ x) ⊎ (f.max x y ≡ y)
