-- ===== src/Indicators/Trend.antt =====
-- packages/core/src/services/indicator-service.ts: the moving averages, the true range and the
-- directional movement.
use grid_bot.Common.{
  ℕ, ◌+◌, ◌-◌, ◌*◌, ◌&&◌, Option, none, some, List, ◌++◌, map, length, if◌then◌else◌, ltb, take,
  drop, fill,
}
use grid_bot.Float.{Float, num, ◌⊕◌, ◌⊗◌, ◌⊖◌, ◌⊘◌, ◌≺◌}
use grid_bot.PriceTrigger.{round}
use grid_bot.Indicators.Series.{HistoricalCandle, sum, average, with_previous, scan, seeded}

-- what one candle adds to the directional movement
pub record Movement (D : Type 0) : Type 0 where
  pub true_range : D
  pub plus_dm : D
  pub minus_dm : D

module _ {D : Type 0} ⦃f : Float D⦄ where
  abbrev pub rounded : D → Option D
  rounded x = some (round x 8)

  unfoldable pub compute_ema : ℕ → List (HistoricalCandle D) → List (Option D)
  compute_ema period candles =
      seeded period (λ cs. average (map (λ c. c.close) cs))
        (λ previous c. (c.close ⊖ previous) ⊗ (num 2 ⊘ num (period + 1)) ⊕ previous) rounded candles

  abbrev pub true_range_of : Option (HistoricalCandle D) → HistoricalCandle D → D
  true_range_of none c = c.high ⊖ c.low
  true_range_of (some p) c =
      f.max (f.max (c.high ⊖ c.low) (f.abs (c.high ⊖ p.close))) (f.abs (c.low ⊖ p.close))

  abbrev pub compute_true_ranges : List (HistoricalCandle D) → List D
  compute_true_ranges candles = with_previous true_range_of none candles

  -- the carried average of Wilder
  abbrev pub smooth : ℕ → D → D → D
  smooth period previous x = (previous ⊗ num (period - 1) ⊕ x) ⊘ num period

  unfoldable pub compute_atr : ℕ → List (HistoricalCandle D) → List (Option D)
  compute_atr period candles =
      seeded period average (smooth period) rounded (compute_true_ranges candles)

  abbrev pub movement_of : Option (HistoricalCandle D) → HistoricalCandle D → Movement D
  movement_of none c = record {
    true_range = true_range_of none c;
    plus_dm = num 0;
    minus_dm = num 0;
  }
  movement_of (some p) c =
      let up = c.high ⊖ p.high in
      let down = p.low ⊖ c.low in
      record {
        true_range = true_range_of (some p) c;
        plus_dm = if down ≺ up && num 0 ≺ up then up else num 0;
        minus_dm = if up ≺ down && num 0 ≺ down then down else num 0;
      }

  abbrev pub compute_movements : List (HistoricalCandle D) → List (Movement D)
  compute_movements candles = with_previous movement_of none candles

  abbrev pub sum_movements : List (Movement D) → Movement D
  sum_movements ms = record {
    true_range = sum (map (λ m. m.true_range) ms);
    plus_dm = sum (map (λ m. m.plus_dm) ms);
    minus_dm = sum (map (λ m. m.minus_dm) ms);
  }

  abbrev pub smooth_movement : ℕ → Movement D → Movement D → Movement D
  smooth_movement period s m = record {
    true_range = s.true_range ⊖ s.true_range ⊘ num period ⊕ m.true_range;
    plus_dm = s.plus_dm ⊖ s.plus_dm ⊘ num period ⊕ m.plus_dm;
    minus_dm = s.minus_dm ⊖ s.minus_dm ⊘ num period ⊕ m.minus_dm;
  }

  abbrev pub directional_index : Movement D → D
  directional_index s =
      let plus_di = if num 0 ≺ s.true_range then s.plus_dm ⊘ s.true_range ⊗ num 100 else num 0 in
      let minus_di = if num 0 ≺ s.true_range then s.minus_dm ⊘ s.true_range ⊗ num 100 else num 0 in
      let denominator = plus_di ⊕ minus_di in
      if num 0 ≺ denominator then f.abs ((plus_di ⊖ minus_di) ⊘ denominator) ⊗ num 100 else num 0

  -- `dx`, from the index `period` on
  unfoldable pub dx_values : ℕ → List (Movement D) → List D
  dx_values period ms =
      scan (smooth_movement period) directional_index (sum_movements (take period (drop 1 ms)))
        (drop (period + 1) ms)

  abbrev pub adx_of : ℕ → List (Movement D) → List (Option D)
  adx_of period ms =
      if ltb (length ms) (period * 2)
      then fill (length ms) none
      else fill (period * 2 - 1) none
        ++ scan (smooth period) rounded (average (take period (dx_values period ms)))
            (drop period (dx_values period ms))

  unfoldable pub compute_adx : ℕ → List (HistoricalCandle D) → List (Option D)
  compute_adx period candles = adx_of period (compute_movements candles)
