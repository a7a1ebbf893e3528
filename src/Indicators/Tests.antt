-- ===== src/Indicators/Tests.antt =====
-- packages/core/src/services/indicator-service.ts: three candles. The square root and the logarithm
-- stand in: no value of these candles hangs on them.
use grid_bot.Common.{ℕ, ◌+◌, ◌-◌, ◌≡◌, refl, none, some, List, [], ◌∷◌, take}
use grid_bot.Float.Fixed.{Fixed, fixed_float}
use grid_bot.Samples.{usd}
use grid_bot.Indicators.Series.{HistoricalCandle, MathFunctions}
use grid_bot.Indicators.Trend.{compute_ema}
use grid_bot.Indicators.Windows.{donchian_high}
use grid_bot.Indicators.Service.{series_of}
use grid_bot.Indicators.Causality.{series_of-causal}
use grid_bot.Indicators.Series.{seeded, rolling}

abbrev functions : MathFunctions Fixed
functions = record { sqrt = λ x. x; log = λ x. x }

abbrev candle : ℕ → ℕ → HistoricalCandle Fixed
candle time close = record {
  timestamp = time;
  open_price = usd close;
  high = usd (close + 2);
  low = usd (close - 2);
  close = usd close;
  volume = none;
}

abbrev candles : List (HistoricalCandle Fixed)
candles = candle 1 100 ∷ candle 2 104 ∷ candle 3 110 ∷ []

-- the mean of the first two, then two thirds of the way to the third
averages :
    compute_ema 2 candles ≡ none ∷ some (usd 102) ∷ some (fixed_float.decimal 10_733_333_328 8) ∷ []
unfolding compute_ema seeded
averages = refl

highs : donchian_high 2 candles ≡ none ∷ some (usd 106) ∷ some (usd 112) ∷ []
unfolding donchian_high rolling
highs = refl

series_of-causal_example :
    series_of functions (candle 1 100 ∷ candle 2 104 ∷ []) ≡ take 2 (series_of functions candles)
series_of-causal_example = series_of-causal functions 2 candles
