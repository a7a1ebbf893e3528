-- ===== src/Indicators/Prefixes.antt =====
-- packages/core/src/services/indicator-service.ts: both kinds of loop give, for the first candles, the
-- first values.
use grid_bot.Common.{
  ℕ, zero, suc, ◌+◌, ◌-◌, ◌≤◌, ◌<◌, ◌≡◌, refl, sym, ap, ◌∙◌, Bool, true, false, Option, none, some,
  List, [], ◌∷◌, ◌++◌, arith, length, if◌then◌else◌, ltb, min, take, drop, fill, length-take,
  length-fill, take-take, drop-take, take-fill, take-append, map_index-take,
}
use mathlib.Core.List.{append-nil}
use grid_bot.Indicators.Series.{with_previous, scan, seeded, rolling}

module _ {A B : Type 0} where
  pub with_previous-take :
      (g : Option A → A → B) (prev : Option A) (k : ℕ) (xs : List A)
      → with_previous g prev (take k xs) ≡ take k (with_previous g prev xs)
  with_previous-take g prev zero xs = refl
  with_previous-take g prev (suc k) [] = refl
  with_previous-take g prev (suc k) (x ∷ xs) =
      ap (λ ys. g prev x ∷ ys) (with_previous-take g (some x) k xs)

  pub length-with_previous :
      (g : Option A → A → B) (prev : Option A) (xs : List A)
      → length (with_previous g prev xs) ≡ length xs
  length-with_previous g prev [] = refl
  length-with_previous g prev (x ∷ xs) = omega (arith, length-with_previous g (some x) xs)

  pub rolling-take :
      (start period : ℕ) (g : List A → A → Option B) (k : ℕ) (xs : List A)
      → period ≤ start + 1
      → rolling start period g (take k xs) ≡ take k (rolling start period g xs)
  unfolding rolling
  rolling-take start period g k xs h =
      map_index-take _ _ k 0 xs (λ j x l. same j x l (ltb j start) refl)
    where
      window :
          (j : ℕ)
          → j < 0 + k
          → ltb j start ≡ false
          → take period (drop (j + 1 - period) (take k xs)) ≡ take period (drop (j + 1 - period) xs)
      window j l e =
          ap (take period) (drop-take (j + 1 - period) k xs)
          ∙ take-take period (k - (j + 1 - period)) (drop (j + 1 - period) xs) (ground arith)

      same :
          (j : ℕ) (x : A)
          → j < 0 + k
          → (b : Bool) → ltb j start ≡ b
          → (if b then none else g (take period (drop (j + 1 - period) (take k xs))) x)
            ≡ (if b then none else g (take period (drop (j + 1 - period) xs)) x)
      same j x l true e = refl
      same j x l false e = ap (λ w. g w x) (window j l e)

module _ (B : Type 0) where
  size_of : (n : ℕ) → length {A = Option B} (fill n none) ≡ n
  size_of n = length-fill n none

  -- A series that starts after some candles.
  pub take-start :
      (k n : ℕ) (ys : List (Option B)) → k ≤ n → take k (fill n none ++ ys) ≡ fill k none
  take-start k n ys h =
      take-append k (fill n none) ys
      ∙ ap (λ xs. xs ++ take (k - length {A = Option B} (fill n none)) ys) (take-fill k n none)
      ∙ ap (λ m. fill (min k n) none ++ take m ys) none_left
      ∙ append-nil (fill (min k n) none)
      ∙ ap (λ m. fill m none) least
    where
      none_left : k - length {A = Option B} (fill n none) ≡ 0
      none_left = omega (arith, size_of n)

      least : min k n ≡ k
      least = omega arith

  pub take-later :
      (k n : ℕ) (ys : List (Option B))
      → n ≤ k
      → take k (fill n none ++ ys) ≡ fill n none ++ take (k - n) ys
  take-later k n ys h =
      take-append k (fill n none) ys
      ∙ ap (λ xs. xs ++ take (k - length {A = Option B} (fill n none)) ys)
          (take-fill k n none ∙ ap (λ m. fill m none) least)
      ∙ ap (λ m. fill n none ++ take m ys) (ap (λ m. k - m) (size_of n))
    where
      least : min k n ≡ n
      least = omega arith

module _ {S A B : Type 0} (step : S → A → S) where
  pub scan-take :
      (out : S → B) (s : S) (k : ℕ) (xs : List A)
      → scan step out s (take k xs) ≡ take (suc k) (scan step out s xs)
  scan-take out s zero [] = refl
  scan-take out s zero (x ∷ xs) = refl
  scan-take out s (suc k) [] = refl
  scan-take out s (suc k) (x ∷ xs) = ap (λ ys. out s ∷ ys) (scan-take out (step s x) k xs)

  pub length-scan :
      (out : S → B) (s : S) (xs : List A) → length (scan step out s xs) ≡ length xs + 1
  length-scan out s [] = omega arith
  length-scan out s (x ∷ xs) = omega (arith, length-scan out (step s x) xs)

module _ {S A B : Type 0} (step : S → A → S) where
  -- A value that is carried from the `period`th candle on.
  pub carried-take :
      (out : S → Option B) (period n k k' : ℕ) (s : List A → S) (xs : List A)
      → period ≤ k
      → n + 1 ≤ k'
      → k' - n ≡ suc (k - period)
      → fill n none ++ scan step out (s (take period (take k xs))) (drop period (take k xs))
        ≡ take k' (fill n none ++ scan step out (s (take period xs)) (drop period xs))
  carried-take out period n k k' s xs l m e =
      ap (λ ys. fill n none ++ scan step out (s ys) (drop period (take k xs)))
        (take-take period k xs l)
      ∙ ap (λ ys. fill n none ++ ys)
          (ap (scan step out (s (take period xs))) (drop-take period k xs)
            ∙ scan-take step out (s (take period xs)) (k - period) (drop period xs)
            ∙ ap (λ m. take m (scan step out (s (take period xs)) (drop period xs))) (sym e))
      ∙ sym (take-later _ k' n _ (omega arith))

module _ {S A B : Type 0} where
  pub seeded-take :
      (period : ℕ) (seed : List A → S) (step : S → A → S) (out : S → Option B) (k : ℕ) (xs : List A)
      → 1 ≤ period
      → seeded period seed step out (take k xs) ≡ take k (seeded period seed step out xs)
  unfolding seeded
  seeded-take period seed step out k xs p =
      by_length (ltb (length (take k xs)) period) (ltb (length xs) period) refl refl
    where
      by_length :
          (b c : Bool)
          → ltb (length (take k xs)) period ≡ b
          → ltb (length xs) period ≡ c
          → (if b
              then fill (length (take k xs)) none
              else fill (period - 1) none
                ++ scan step out (seed (take period (take k xs))) (drop period (take k xs)))
            ≡ take k (
                if c
                then fill (length xs) none
                else fill (period - 1) none
                  ++ scan step out (seed (take period xs)) (drop period xs))
      by_length true true d e =
          ap (λ m. fill m none) (length-take k xs) ∙ sym (take-fill k (length xs) none)
      by_length true false d e =
          ap (λ m. fill m none) (length-take k xs ∙ short) ∙ sym (take-start _ k (period - 1) _ few)
        where
          short : min k (length xs) ≡ k
          short = ground (arith, length-take k xs)

          few : k ≤ period - 1
          few = ground (arith, length-take k xs)
      by_length false true d e = elim (impossible d e) [ ]
        where
          impossible : ltb (length (take k xs)) period ≡ false → ltb (length xs) period ≡ true → ⊥
          impossible d e = ground (arith, length-take k xs)
      by_length false false d e =
          carried-take step out period (period - 1) k k seed xs (enough d)
            (ground (arith, length-take k xs)) (ground (arith, length-take k xs))
        where
          enough : ltb (length (take k xs)) period ≡ false → period ≤ k
          enough d = ground (arith, length-take k xs)
