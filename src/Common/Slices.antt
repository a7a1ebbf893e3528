-- ===== src/Common/Slices.antt =====
-- `slice`, arrays of one value, and `map` with its index.
use Prim.Native.Nat.{ℕ, zero, suc, ◌+◌, ◌-◌, ◌≤◌, ◌<◌, min}
use mathlib.Core.Path.{◌≡◌, refl, sym, ap, ◌∙◌}
use mathlib.Core.Option.{Option, none, some}
use mathlib.Core.List.{List, [], ◌∷◌, ◌++◌}
use native.Mathlib.Omega.{arith}
use grid_bot.Common.Tests.{if◌then◌else◌, ltb}
use grid_bot.Common.Lists.{length, get_elem?}

module _ {ℓ} {A : Type ℓ} where
  abbrev pub take : ℕ → List A → List A
  take zero xs = []
  take (suc n) [] = []
  take (suc n) (x ∷ xs) = x ∷ take n xs

  abbrev pub drop : ℕ → List A → List A
  drop zero xs = xs
  drop (suc n) [] = []
  drop (suc n) (x ∷ xs) = drop n xs

  -- `xs.slice(-n)`: all of it for 0, as -0 is 0
  abbrev pub take_last : ℕ → List A → List A
  take_last n xs = if ltb 0 n then drop (length xs - n) xs else xs

  -- `xs.at(-1)`
  abbrev pub last : List A → Option A
  last [] = none
  last (x ∷ []) = some x
  last (x ∷ y ∷ ys) = last (y ∷ ys)

  abbrev pub fill : ℕ → A → List A
  fill zero a = []
  fill (suc n) a = a ∷ fill n a

  take_at : (m n : ℕ) (xs : List A) → m ≡ n → take m xs ≡ take n xs
  take_at m n xs e = ap (λ m. take m xs) e

  fill_at : (m n : ℕ) (a : A) → m ≡ n → fill m a ≡ fill n a
  fill_at m n a e = ap (λ m. fill m a) e

  pub length-take : (n : ℕ) (xs : List A) → length (take n xs) ≡ min n (length xs)
  length-take zero xs = omega arith
  length-take (suc n) [] = omega arith
  length-take (suc n) (x ∷ xs) = omega (arith, length-take n xs)

  pub length-drop : (n : ℕ) (xs : List A) → length (drop n xs) ≡ length xs - n
  length-drop zero xs = omega arith
  length-drop (suc n) [] = omega arith
  length-drop (suc n) (x ∷ xs) = omega (arith, length-drop n xs)

  pub length-fill : (n : ℕ) (a : A) → length (fill n a) ≡ n
  length-fill zero a = refl
  length-fill (suc n) a = omega (arith, length-fill n a)

  pub take-all : (n : ℕ) (xs : List A) → length xs ≤ n → take n xs ≡ xs
  take-all zero [] h = refl
  take-all zero (x ∷ xs) h = elim (absurd (length xs) h) [ ]
    where
      absurd : (n : ℕ) → suc n ≤ 0 → ⊥
      absurd n h = omega arith
  take-all (suc n) [] h = refl
  take-all (suc n) (x ∷ xs) h = ap (λ ys. x ∷ ys) (take-all n xs (ground arith))

  pub take-take : (n k : ℕ) (xs : List A) → n ≤ k → take n (take k xs) ≡ take n xs
  take-take zero k xs h = refl
  take-take (suc n) zero xs h = elim (absurd n h) [ ]
    where
      absurd : (n : ℕ) → suc n ≤ 0 → ⊥
      absurd n h = omega arith
  take-take (suc n) (suc k) [] h = refl
  take-take (suc n) (suc k) (x ∷ xs) h = ap (λ ys. x ∷ ys) (take-take n k xs (omega arith))

  pub drop-take : (n k : ℕ) (xs : List A) → drop n (take k xs) ≡ take (k - n) (drop n xs)
  drop-take zero k xs = take_at (k) (k - 0) xs (omega arith)
  drop-take (suc n) zero xs = take_at (0) (0 - suc n) (drop (suc n) xs) (omega arith)
  drop-take (suc n) (suc k) [] = sym (take_nil (suc k - suc n))
    where
      take_nil : (m : ℕ) → take m [] ≡ []
      take_nil zero = refl
      take_nil (suc m) = refl
  drop-take (suc n) (suc k) (x ∷ xs) =
      drop-take n k xs ∙ take_at (k - n) (suc k - suc n) (drop n xs) (omega arith)

  pub take-fill : (k n : ℕ) (a : A) → take k (fill n a) ≡ fill (min k n) a
  take-fill zero n a = fill_at (0) (min 0 n) a (omega arith)
  take-fill (suc k) zero a = fill_at 0 (min (suc k) 0) a (omega arith)
  take-fill (suc k) (suc n) a =
      ap (λ ys. a ∷ ys) (take-fill k n a)
      ∙ fill_at (suc (min k n)) (min (suc k) (suc n)) a (omega arith)

  pub take-append :
      (k : ℕ) (xs ys : List A) → take k (xs ++ ys) ≡ take k xs ++ take (k - length xs) ys
  take-append zero [] ys = take_at 0 (0 - 0) ys (omega arith)
  take-append (suc k) [] ys = take_at (suc k) (suc k - 0) ys (omega arith)
  take-append zero (x ∷ xs) ys = take_at (0) (0 - suc (length xs)) ys (omega arith)
  take-append (suc k) (x ∷ xs) ys =
      ap (λ zs. x ∷ zs)
        (take-append k xs ys
          ∙ ap (λ zs. take k xs ++ zs)
              (take_at (k - length xs) (suc k - suc (length xs)) ys (omega arith)))

  pub get_elem?-take : (i k : ℕ) (xs : List A) → i < k → get_elem? (take k xs) i ≡ get_elem? xs i
  get_elem?-take i zero xs h = elim (absurd i h) [ ]
    where
      absurd : (n : ℕ) → n < 0 → ⊥
      absurd n h = omega arith
  get_elem?-take i (suc k) [] h = refl
  get_elem?-take zero (suc k) (x ∷ xs) h = refl
  get_elem?-take (suc i) (suc k) (x ∷ xs) h = get_elem?-take i k xs (omega arith)

module _ {ℓ κ} {A : Type ℓ} {B : Type κ} where
  -- `xs.map((x, i) => g(i, x))`, from an index on
  abbrev pub map_index : (ℕ → A → B) → ℕ → List A → List B
  map_index g i [] = []
  map_index g i (x ∷ xs) = g i x ∷ map_index g (suc i) xs

  pub length-map_index :
      (g : ℕ → A → B) (i : ℕ) (xs : List A) → length (map_index g i xs) ≡ length xs
  length-map_index g i [] = refl
  length-map_index g i (x ∷ xs) = omega (arith, length-map_index g (suc i) xs)

  -- A map of a first part is the first part of a map, if the functions agree there.
  pub map_index-take :
      (g g' : ℕ → A → B) (k i : ℕ) (xs : List A)
      → ((j : ℕ) (x : A) → j < i + k → g j x ≡ g' j x)
      → map_index g i (take k xs) ≡ take k (map_index g' i xs)
  map_index-take g g' zero i xs h = refl
  map_index-take g g' (suc k) i [] h = refl
  map_index-take g g' (suc k) i (x ∷ xs) h =
      pair (h i x (omega arith)) (map_index-take g g' k (suc i) xs (λ j y l. h j y (omega arith)))
    where
      pair : {b b' : B} {bs bs' : List B} → b ≡ b' → bs ≡ bs' → b ∷ bs ≡ b' ∷ bs'
      pair p q = rw (p, q) refl
