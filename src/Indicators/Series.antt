-- ===== src/Indicators/Series.antt =====
-- packages/core/src/services/indicator-service.ts: its arithmetic on arrays, and its two kinds of loop:
-- a value that is carried from candle to candle, and a window that moves along them.
use grid_bot.Common.{
  ℕ, ◌+◌, ◌-◌, Option, none, some, List, [], ◌∷◌, ◌++◌, map, foldl, length, if◌then◌else◌, ltb,
  ◌==◌, take, drop, fill, map_index,
}
use grid_bot.Float.{Float, num, ◌⊕◌, ◌⊖◌, ◌⊘◌}

-- `Math.sqrt` and `Math.log`
pub record MathFunctions (D : Type 0) : Type 0 where
  pub sqrt : D → D
  pub log : D → D

pub record HistoricalCandle (D : Type 0) : Type 0 where
  pub timestamp : ℕ
  pub open_price : D
  pub high : D
  pub low : D
  pub close : D
  pub volume : Option D

module _ {D : Type 0} ⦃f : Float D⦄ where
  abbrev pub sum : List D → D
  sum values = foldl (λ total value. total ⊕ value) (num 0) values

  abbrev pub average : List D → D
  average values = if ltb 0 (length values) then sum values ⊘ num (length values) else num 0

  abbrev pub stddev : MathFunctions D → List D → D → D
  stddev m values known =
      if length values == 0
      then num 0
      else m.sqrt (average (map (λ v. f.pow (v ⊖ known) (num 2)) values))

  -- `Math.max(...values)` and `Math.min(...values)`, infinite for no values
  abbrev pub maximum : List D → D
  maximum [] = (num 0 ⊖ num 1) ⊘ num 0
  maximum (x ∷ xs) = foldl f.max x xs

  abbrev pub minimum : List D → D
  minimum [] = num 1 ⊘ num 0
  minimum (x ∷ xs) = foldl f.min x xs

module _ {A B : Type 0} where
  -- `xs.map((x, i) => g(xs[i - 1], x))`
  abbrev pub with_previous : (Option A → A → B) → Option A → List A → List B
  with_previous g prev [] = []
  with_previous g prev (x ∷ xs) = g prev x ∷ with_previous g (some x) xs

module _ {S A B : Type 0} (step : S → A → S) (out : S → B) where
  -- the values of a carried state, the first one included
  abbrev pub scan : S → List A → List B
  scan s [] = out s ∷ []
  scan s (x ∷ xs) = out s ∷ scan (step s x) xs

module _ {S A B : Type 0} where
  -- A series that starts at the last of `period` values, with a seed made of them, and is carried on
  -- from there.
  unfoldable pub seeded : ℕ → (List A → S) → (S → A → S) → (S → Option B) → List A → List (Option B)
  seeded period seed step out xs =
      if ltb (length xs) period
      then fill (length xs) none
      else fill (period - 1) none ++ scan step out (seed (take period xs)) (drop period xs)

module _ {A B : Type 0} where
  -- A series of a window of `period` values, from an index on.
  unfoldable pub rolling : ℕ → ℕ → (List A → A → Option B) → List A → List (Option B)
  rolling start period g xs =
      map_index (λ i x. if ltb i start then none else g (take period (drop (i + 1 - period) xs)) x)
        0 xs
