-- ===== src/Indicators/Service.antt =====
-- packages/core/src/services/indicator-service.ts, compute: the snapshot of every candle.
use grid_bot.Common.{
  ℕ, Bool, ◌&&◌, Option, none, some, List, keep, any, sort_by, get_elem?, if◌then◌else◌, ltb,
  or_else, last, map_index,
}
use grid_bot.Float.{Float, num, ◌⊗◌, ◌⊘◌, ◌≼◌, ◌≺◌}
use grid_bot.PriceTrigger.{round}
use grid_bot.Indicators.Series.{HistoricalCandle, MathFunctions}
use grid_bot.Indicators.Trend.{compute_ema, compute_atr, compute_adx}
use grid_bot.Indicators.Windows.{
  compute_bollinger_width, donchian_high, donchian_low, donchian_width, compute_realized_vol,
  volume_sma, volume_ratio, is_volume,
}

pub record IndicatorSnapshot (D : Type 0) : Type 0 where
  pub timestamp : ℕ
  pub close : D
  pub ema20 : Option D
  pub ema50 : Option D
  pub ema200 : Option D
  pub atr14 : Option D
  pub atr_pct14 : Option D
  pub adx14 : Option D
  pub bollinger_width20 : Option D
  pub donchian_high20 : Option D
  pub donchian_low20 : Option D
  pub donchian_width_pct20 : Option D
  pub realized_vol20 : Option D
  pub volume_sma20 : Option D
  pub volume_ratio20 : Option D

pub record IndicatorSummary (D : Type 0) : Type 0 where
  pub latest : Option (IndicatorSnapshot D)
  pub series : List (IndicatorSnapshot D)
  pub has_volume : Bool

-- `values[index] ?? null`
abbrev pub at_index : {A : Type 0} → List (Option A) → ℕ → Option A
at_index values i = or_else (get_elem? values i) none

module _ {D : Type 0} ⦃f : Float D⦄ where
  abbrev pub is_valid_candle : HistoricalCandle D → Bool
  is_valid_candle c =
      f.is_finite c.open_price
      && (f.is_finite c.high
          && (f.is_finite c.low && (f.is_finite c.close && (c.low ≼ c.high && num 0 ≺ c.close))))

  abbrev pub percent_of : Option D → D → Option D
  percent_of none close = none
  percent_of (some atr) close =
      if num 0 ≺ close then some (round (atr ⊘ close ⊗ num 100) 8) else none

  abbrev pub snapshot_of :
      MathFunctions D → List (HistoricalCandle D) → ℕ → HistoricalCandle D → IndicatorSnapshot D
  snapshot_of m ordered i c = record {
    timestamp = c.timestamp;
    close = round c.close 8;
    ema20 = at_index (compute_ema 20 ordered) i;
    ema50 = at_index (compute_ema 50 ordered) i;
    ema200 = at_index (compute_ema 200 ordered) i;
    atr14 = at_index (compute_atr 14 ordered) i;
    atr_pct14 = percent_of (at_index (compute_atr 14 ordered) i) c.close;
    adx14 = at_index (compute_adx 14 ordered) i;
    bollinger_width20 = at_index (compute_bollinger_width m 20 ordered) i;
    donchian_high20 = at_index (donchian_high 20 ordered) i;
    donchian_low20 = at_index (donchian_low 20 ordered) i;
    donchian_width_pct20 = at_index (donchian_width 20 ordered) i;
    realized_vol20 = at_index (compute_realized_vol m 20 ordered) i;
    volume_sma20 = at_index (volume_sma 20 ordered) i;
    volume_ratio20 = at_index (volume_ratio 20 ordered) i;
  }

  unfoldable pub series_of :
      MathFunctions D → List (HistoricalCandle D) → List (IndicatorSnapshot D)
  series_of m ordered = map_index (snapshot_of m ordered) 0 ordered

  abbrev pub ordered_candles : List (HistoricalCandle D) → List (HistoricalCandle D)
  ordered_candles candles =
      sort_by (λ a b. ltb a.timestamp b.timestamp) (keep is_valid_candle candles)

  unfoldable pub compute : MathFunctions D → List (HistoricalCandle D) → IndicatorSummary D
  compute m candles = record {
    latest = last (series_of m (ordered_candles candles));
    series = series_of m (ordered_candles candles);
    has_volume = any (λ c. is_volume c.volume) (ordered_candles candles);
  }
