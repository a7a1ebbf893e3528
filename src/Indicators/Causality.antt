-- ===== src/Indicators/Causality.antt =====
-- packages/core/src/services/indicator-service.ts: no indicator looks ahead.
use grid_bot.Common.{
  ℕ, suc, ◌+◌, ◌-◌, ◌*◌, ◌≤◌, ◌<◌, ◌≡◌, refl, sym, ap, ◌∙◌, Bool, true, false, Option, none, List,
  ◌++◌, arith, length, if◌then◌else◌, ltb, or_else, min, take, drop, fill, length-take, take-take,
  drop-take, take-fill, get_elem?-take, map_index-take,
}
use grid_bot.Float.{Float}
use grid_bot.Indicators.Series.{HistoricalCandle, MathFunctions, with_previous, scan, average}
use grid_bot.Indicators.Trend.{
  Movement, compute_ema, compute_atr, compute_adx, adx_of, dx_values, compute_true_ranges,
  compute_movements, smooth, smooth_movement, directional_index, sum_movements, rounded,
  true_range_of, movement_of,
}
use grid_bot.Indicators.Windows.{
  compute_bollinger_width, donchian_high, donchian_low, donchian_width, compute_realized_vol,
  volume_sma, volume_ratio, return_of,
}
use grid_bot.Indicators.Service.{series_of, snapshot_of, at_index}
use grid_bot.Indicators.Prefixes.{
  with_previous-take, rolling-take, seeded-take, carried-take, take-start, scan-take,
}

module _ {D : Type 0} ⦃f : Float D⦄ where
  -- a series of the first candles is the first part of the series
  abbrev IsCausal : {A : Type 0} → (List (HistoricalCandle D) → List A) → Type 0
  IsCausal series =
      (k : ℕ) (xs : List (HistoricalCandle D)) → series (take k xs) ≡ take k (series xs)

  ema-IsCausal : (p : ℕ) → 1 ≤ p → IsCausal (compute_ema p)
  unfolding compute_ema
  ema-IsCausal p h k xs = seeded-take p _ _ _ k xs h

  atr-IsCausal : (p : ℕ) → 1 ≤ p → IsCausal (compute_atr p)
  unfolding compute_atr
  atr-IsCausal p h k xs =
      rw (with_previous-take true_range_of none k xs)
        (seeded-take p _ _ _ k (compute_true_ranges xs) h)

  dx_values-take :
      (p k : ℕ) (ms : List (Movement D))
      → p + 1 ≤ k
      → dx_values p (take k ms) ≡ take (k - p) (dx_values p ms)
  unfolding dx_values
  dx_values-take p k ms h =
      ap
        (λ s.
          scan (smooth_movement p) directional_index (sum_movements s) (drop (p + 1) (take k ms)))
        seed
      ∙ ap (scan (smooth_movement p) directional_index (sum_movements (take p (drop 1 ms))))
          (drop-take (p + 1) k ms)
      ∙ scan-take (smooth_movement p) directional_index (sum_movements (take p (drop 1 ms)))
          (k - (p + 1)) (drop (p + 1) ms)
      ∙ ap
          (λ m. take m (
            scan (smooth_movement p) directional_index (sum_movements (take p (drop 1 ms)))
              (drop (p + 1) ms)))
          size
    where
      seed : take p (drop 1 (take k ms)) ≡ take p (drop 1 ms)
      seed = ap (take p) (drop-take 1 k ms) ∙ take-take p (k - 1) (drop 1 ms) (omega arith)

      size : suc (k - (p + 1)) ≡ k - p
      size = omega arith

  adx_of-take :
      (p k : ℕ) (ms : List (Movement D)) → 1 ≤ p → adx_of p (take k ms) ≡ take k (adx_of p ms)
  adx_of-take p k ms h =
      by_length (ltb (length (take k ms)) (p * 2)) (ltb (length ms) (p * 2)) refl refl
    where
      late : List (Movement D) → List (Option D)
      late ns =
          fill (p * 2 - 1) none
          ++ scan (smooth p) rounded (average (take p (dx_values p ns))) (drop p (dx_values p ns))

      by_length :
          (b c : Bool)
          → ltb (length (take k ms)) (p * 2) ≡ b
          → ltb (length ms) (p * 2) ≡ c
          → (if b then fill (length (take k ms)) none else late (take k ms))
            ≡ take k (if c then fill (length ms) none else late ms)
      by_length true true d e =
          ap (λ m. fill m none) (length-take k ms) ∙ sym (take-fill k (length ms) none)
      by_length true false d e =
          ap (λ m. fill m none) (length-take k ms ∙ short) ∙ sym (take-start _ k (p * 2 - 1) _ few)
        where
          short : min k (length ms) ≡ k
          short = ground (arith, length-take k ms)

          few : k ≤ p * 2 - 1
          few = ground (arith, length-take k ms)
      by_length false true d e = elim (impossible d e) [ ]
        where
          impossible : ltb (length (take k ms)) (p * 2) ≡ false → ltb (length ms) (p * 2) ≡ true → ⊥
          impossible d e = ground (arith, length-take k ms)
      by_length false false d e =
          ap
            (λ ds.
              fill (p * 2 - 1) none ++ scan (smooth p) rounded (average (take p ds)) (drop p ds))
            (dx_values-take p k ms (enough d))
          ∙ carried-take (smooth p) rounded p (p * 2 - 1) (k - p) k average (dx_values p ms)
              (more d) (most d) (same d)
        where
          long : ltb (length (take k ms)) (p * 2) ≡ false → p * 2 ≤ k
          long d = ground (arith, length-take k ms)

          enough : ltb (length (take k ms)) (p * 2) ≡ false → p + 1 ≤ k
          enough d = omega (arith, long d)

          more : ltb (length (take k ms)) (p * 2) ≡ false → p ≤ k - p
          more d = omega (arith, long d)

          most : ltb (length (take k ms)) (p * 2) ≡ false → p * 2 - 1 + 1 ≤ k
          most d = omega (arith, long d)

          same : ltb (length (take k ms)) (p * 2) ≡ false → k - (p * 2 - 1) ≡ suc (k - p - p)
          same d = omega (arith, long d)

  adx-IsCausal : (p : ℕ) → 1 ≤ p → IsCausal (compute_adx p)
  unfolding compute_adx
  adx-IsCausal p h k xs =
      ap (adx_of p) (with_previous-take movement_of none k xs)
      ∙ adx_of-take p k (compute_movements xs) h

  bands-IsCausal : (m : MathFunctions D) (p : ℕ) → IsCausal (compute_bollinger_width m p)
  unfolding compute_bollinger_width
  bands-IsCausal m p k xs = rolling-take (p - 1) p _ k xs (omega arith)

  high-IsCausal : (p : ℕ) → IsCausal (donchian_high p)
  unfolding donchian_high
  high-IsCausal p k xs = rolling-take (p - 1) p _ k xs (omega arith)

  low-IsCausal : (p : ℕ) → IsCausal (donchian_low p)
  unfolding donchian_low
  low-IsCausal p k xs = rolling-take (p - 1) p _ k xs (omega arith)

  width-IsCausal : (p : ℕ) → IsCausal (donchian_width p)
  unfolding donchian_width
  width-IsCausal p k xs = rolling-take (p - 1) p _ k xs (omega arith)

  volatility-IsCausal : (m : MathFunctions D) (p : ℕ) → IsCausal (compute_realized_vol m p)
  unfolding compute_realized_vol
  volatility-IsCausal m p k xs =
      rw (with_previous-take (return_of m) none k xs)
        (rolling-take p p _ k (with_previous (return_of m) none xs) (omega arith))

  mean-IsCausal : (p : ℕ) → IsCausal (volume_sma p)
  unfolding volume_sma
  mean-IsCausal p k xs = rolling-take (p - 1) p _ k xs (omega arith)

  ratio-IsCausal : (p : ℕ) → IsCausal (volume_ratio p)
  unfolding volume_ratio
  ratio-IsCausal p k xs = rolling-take (p - 1) p _ k xs (omega arith)

  at_causal :
      {A : Type 0} (series : List (HistoricalCandle D) → List (Option A))
      → IsCausal series
      → (k : ℕ) (xs : List (HistoricalCandle D)) (i : ℕ) → i < k
      → at_index (series (take k xs)) i ≡ at_index (series xs) i
  at_causal series c k xs i h =
      ap (λ ys. at_index ys i) (c k xs)
      ∙ ap (λ o. or_else o none) (get_elem?-take i k (series xs) h)

  -- No snapshot depends on a later candle: the snapshots of the first candles are the first of the
  -- snapshots of all.
  pub series_of-causal :
      (m : MathFunctions D) (k : ℕ) (ordered : List (HistoricalCandle D))
      → series_of m (take k ordered) ≡ take k (series_of m ordered)
  unfolding series_of
  series_of-causal m k xs =
      map_index-take (snapshot_of m (take k xs)) (snapshot_of m xs) k 0 xs
        (λ i c h. same i c (bound i h))
    where
      bound : (i : ℕ) → i < 0 + k → i < k
      bound i h = omega arith

      same :
          (i : ℕ) (c : HistoricalCandle D)
          → i < k
          → snapshot_of m (take k xs) i c ≡ snapshot_of m xs i c
      same i c h =
          rw
            (
              at_causal (compute_ema 20) (ema-IsCausal 20 (omega arith)) k xs i h,
              at_causal (compute_ema 50) (ema-IsCausal 50 (omega arith)) k xs i h,
              at_causal (compute_ema 200) (ema-IsCausal 200 (omega arith)) k xs i h,
              at_causal (compute_atr 14) (atr-IsCausal 14 (omega arith)) k xs i h,
              at_causal (compute_adx 14) (adx-IsCausal 14 (omega arith)) k xs i h,
              at_causal (compute_bollinger_width m 20) (bands-IsCausal m 20) k xs i h,
              at_causal (donchian_high 20) (high-IsCausal 20) k xs i h,
              at_causal (donchian_low 20) (low-IsCausal 20) k xs i h,
              at_causal (donchian_width 20) (width-IsCausal 20) k xs i h,
              at_causal (compute_realized_vol m 20) (volatility-IsCausal m 20) k xs i h,
              at_causal (volume_sma 20) (mean-IsCausal 20) k xs i h,
              at_causal (volume_ratio 20) (ratio-IsCausal 20) k xs i h,
            )
            refl
