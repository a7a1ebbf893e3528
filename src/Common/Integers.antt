-- ===== src/Common/Integers.antt =====
-- Signed integers over the native numbers, under the library's names. Sums and orders go through the
-- two parts of an integer, which are numbers that `omega` reads.
use Prim.Native.Nat.{ℕ, suc, ◌+◌, ◌-◌}
use mathlib.Core.Path.{◌≡◌, ap, sym, ◌∙◌}
use mathlib.Core.Bool.{Bool}
use native.Mathlib.Omega.{arith}
use grid_bot.Common.Tests.{if◌then◌else◌, leb}

-- `negsuc n` is -(n + 1).
pub data ℤ : Type 0 where
  pos : ℕ → ℤ
  negsuc : ℕ → ℤ

abbrev pub pos_part : ℤ → ℕ
pos_part (pos n) = n
pos_part (negsuc n) = 0

abbrev pub neg_part : ℤ → ℕ
neg_part (pos n) = 0
neg_part (negsuc n) = suc n

-- a - b, as an integer.
abbrev pub sub_ℕ : ℕ → ℕ → ℤ
sub_ℕ a b = if leb b a then pos (a - b) else negsuc (b - a - 1)

abbrev pub leb_ℤ : ℤ → ℤ → Bool
leb_ℤ a b = leb (pos_part a + neg_part b) (pos_part b + neg_part a)

infixl 65 ◌+ℤ◌ ◌-ℤ◌
unfoldable pub ◌+ℤ◌ : ℤ → ℤ → ℤ
a +ℤ b = sub_ℕ (pos_part a + pos_part b) (neg_part a + neg_part b)

unfoldable pub ◌-ℤ◌ : ℤ → ℤ → ℤ
a -ℤ b = sub_ℕ (pos_part a + neg_part b) (neg_part a + pos_part b)

pub +ℤ_parts :
    (a b : ℤ)
    → pos_part (a +ℤ b) + neg_part a + neg_part b ≡ neg_part (a +ℤ b) + pos_part a + pos_part b
unfolding ◌+ℤ◌
+ℤ_parts a b = ground arith

pub -ℤ_parts :
    (a b : ℤ)
    → pos_part (a -ℤ b) + neg_part a + pos_part b ≡ neg_part (a -ℤ b) + pos_part a + neg_part b
unfolding ◌-ℤ◌
-ℤ_parts a b = ground arith

pub eq_of_parts : (a b : ℤ) → pos_part a + neg_part b ≡ pos_part b + neg_part a → a ≡ b
eq_of_parts a b h = ground arith

pub ruleset int_laws = (arith, +ℤ_parts, -ℤ_parts, eq_of_parts)

pub add_comm : (a b : ℤ) → a +ℤ b ≡ b +ℤ a
add_comm a b = omega int_laws

pub add_zero : (a : ℤ) → a +ℤ pos 0 ≡ a
add_zero a = omega int_laws

pub sum_assoc : (a b c : ℤ) → a +ℤ b +ℤ c ≡ a +ℤ (b +ℤ c)
sum_assoc a b c = omega int_laws

pub swap_ends : (a b c : ℤ) → a +ℤ b +ℤ c ≡ c +ℤ b +ℤ a
swap_ends a b c = omega int_laws

-- equal sums of two terms, under a third
pub under_sum : (a b b' c c' : ℤ) → b +ℤ c ≡ b' +ℤ c' → a +ℤ b +ℤ c ≡ a +ℤ b' +ℤ c'
under_sum a b b' c c' h = sum_assoc a b c ∙ ap (λ x. a +ℤ x) h ∙ sym (sum_assoc a b' c')

add-sub : (a b : ℤ) → a +ℤ b -ℤ b ≡ a
add-sub a b = omega int_laws

pub sub_of_sum : (a b c : ℤ) → a +ℤ b ≡ c → c -ℤ b ≡ a
sub_of_sum a b c h = ap (λ x. x -ℤ b) (sym h) ∙ add-sub a b

pub add_cancel : (a b c : ℤ) → a +ℤ c ≡ b +ℤ c → a ≡ b
add_cancel a b c h = sym (sub_of_sum a c (b +ℤ c) h) ∙ add-sub b c
