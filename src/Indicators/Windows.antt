-- ===== src/Indicators/Windows.antt =====
-- packages/core/src/services/indicator-service.ts: the bands, channels, volatility and volume of a moving
-- window.
use grid_bot.Common.{
  ℕ, ◌-◌, Bool, false, ◌&&◌, Option, none, some, List, [], ◌∷◌, keep, map, length, if◌then◌else◌,
  ltb,
}
use grid_bot.Float.{Float, num, ◌⊗◌, ◌⊖◌, ◌⊘◌, ◌≺◌}
use grid_bot.PriceTrigger.{round}
use grid_bot.Indicators.Series.{
  HistoricalCandle, MathFunctions, average, stddev, maximum, minimum, with_previous, rolling,
}

-- the values of those that have one
abbrev pub present : {A : Type 0} → List (Option A) → List A
present [] = []
present (none ∷ xs) = present xs
present (some x ∷ xs) = x ∷ present xs

module _ {D : Type 0} ⦃f : Float D⦄ where
  abbrev pub band_width :
      MathFunctions D → List (HistoricalCandle D) → HistoricalCandle D → Option D
  band_width m window c =
      let closes = map (λ x. x.close) window in
      let middle = average closes in
      if num 0 ≺ middle
      then some (round (stddev m closes middle ⊗ num 4 ⊘ middle ⊗ num 100) 8)
      else none

  unfoldable pub compute_bollinger_width :
      MathFunctions D → ℕ → List (HistoricalCandle D) → List (Option D)
  compute_bollinger_width m period candles = rolling (period - 1) period (band_width m) candles

  unfoldable pub donchian_high : ℕ → List (HistoricalCandle D) → List (Option D)
  donchian_high period candles =
      rolling (period - 1) period (λ w c. some (round (maximum (map (λ x. x.high) w)) 8)) candles

  unfoldable pub donchian_low : ℕ → List (HistoricalCandle D) → List (Option D)
  donchian_low period candles =
      rolling (period - 1) period (λ w c. some (round (minimum (map (λ x. x.low) w)) 8)) candles

  abbrev pub channel_width : List (HistoricalCandle D) → HistoricalCandle D → Option D
  channel_width window c =
      let highest = maximum (map (λ x. x.high) window) in
      let lowest = minimum (map (λ x. x.low) window) in
      if num 0 ≺ lowest then some (round ((highest ⊖ lowest) ⊘ lowest ⊗ num 100) 8) else none

  unfoldable pub donchian_width : ℕ → List (HistoricalCandle D) → List (Option D)
  donchian_width period candles = rolling (period - 1) period channel_width candles

  abbrev pub return_of :
      MathFunctions D → Option (HistoricalCandle D) → HistoricalCandle D → Option D
  return_of m none c = none
  return_of m (some p) c =
      if num 0 ≺ p.close && num 0 ≺ c.close then some (m.log (c.close ⊘ p.close)) else none

  abbrev pub volatility : MathFunctions D → ℕ → List (Option D) → Option D → Option D
  volatility m period window r =
      let values = present window in
      if ltb (length values) period
      then none
      else some (round (stddev m values (average values) ⊗ num 100) 8)

  unfoldable pub compute_realized_vol :
      MathFunctions D → ℕ → List (HistoricalCandle D) → List (Option D)
  compute_realized_vol m period candles =
      rolling period period (volatility m period) (with_previous (return_of m) none candles)

  abbrev pub is_volume : Option D → Bool
  is_volume none = false
  is_volume (some v) = f.is_finite v

  abbrev pub volumes_of : List (HistoricalCandle D) → List D
  volumes_of window = present (keep is_volume (map (λ c. c.volume) window))

  abbrev pub volume_average : ℕ → List (HistoricalCandle D) → HistoricalCandle D → Option D
  volume_average period window c =
      if ltb (length (volumes_of window)) period
      then none
      else some (round (average (volumes_of window)) 8)

  abbrev pub ratio_to : Option D → D → Option D
  ratio_to none mean = none
  ratio_to (some v) mean = if num 0 ≺ mean then some (round (v ⊘ mean) 8) else none

  abbrev pub volume_ratio_of : ℕ → List (HistoricalCandle D) → HistoricalCandle D → Option D
  volume_ratio_of period window c =
      if ltb (length (volumes_of window)) period
      then none
      else ratio_to c.volume (average (volumes_of window))

  unfoldable pub volume_sma : ℕ → List (HistoricalCandle D) → List (Option D)
  volume_sma period candles = rolling (period - 1) period (volume_average period) candles

  unfoldable pub volume_ratio : ℕ → List (HistoricalCandle D) → List (Option D)
  volume_ratio period candles = rolling (period - 1) period (volume_ratio_of period) candles
