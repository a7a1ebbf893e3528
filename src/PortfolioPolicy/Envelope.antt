-- ===== src/PortfolioPolicy/Envelope.antt =====
-- packages/core/src/services/portfolio-policy-service.ts, envelope, and utils/grid-cost-floor.ts: the band
-- that the closed candles suggest.
use grid_bot.Common.{
  Bool, not, ◌&&◌, ◌||◌, Option, none, some, List, [], ◌∷◌, map, length, if◌then◌else◌, or_else,
  is_some, take_last,
}
use grid_bot.Float.{Float, num, ◌⊕◌, ◌⊗◌, ◌⊖◌, ◌⊘◌, ◌≼◌, ◌≺◌}
use grid_bot.Indicators.Series.{MathFunctions, HistoricalCandle, sum, maximum}
use grid_bot.Indicators.Service.{IndicatorSnapshot, compute}
use grid_bot.PortfolioPolicy.Inputs.{PolicyCandle, PortfolioPolicyParameters}

pub record Envelope (D : Type 0) : Type 0 where
  pub low : D
  pub high : D
  pub center : D
  pub level_count : D
  pub spacing : D

module _ {D : Type 0} ⦃f : Float D⦄ where
  abbrev pub is_ratio : D → Bool
  is_ratio v = f.is_finite v && (num 0 ≼ v && v ≺ num 1)

  unfoldable pub grid_cost_floor_pct : D → D → D
  grid_cost_floor_pct slippage_bps execution_fee_bps =
      let slip = slippage_bps ⊘ num 10_000 in
      let fee = execution_fee_bps ⊘ num 10_000 in
      if not (is_ratio slip && is_ratio fee)
      then num 1 ⊘ num 0
      else ((num 1 ⊕ slip) ⊗ (num 1 ⊕ fee) ⊘ ((num 1 ⊖ slip) ⊗ (num 1 ⊖ fee)) ⊖ num 1) ⊗ num 100

  -- the policy's own `average`
  abbrev pub policy_average : List D → D
  policy_average values = sum values ⊘ f.max (num 1) (num (length values))

  abbrev pub historical : PolicyCandle D → HistoricalCandle D
  historical c = record {
    timestamp = c.opened_at;
    open_price = c.open_price;
    high = c.high;
    low = c.low;
    close = c.close;
    volume = none;
  }

  abbrev pub atr_pct_of : Option (IndicatorSnapshot D) → D
  atr_pct_of none = num 0
  atr_pct_of (some s) = or_else s.atr_pct14 (num 0)

  abbrev pub vol_pct_of : Option (IndicatorSnapshot D) → D
  vol_pct_of none = num 0
  vol_pct_of (some s) = or_else s.realized_vol20 (num 0)

  abbrev pub width_pct_of : PortfolioPolicyParameters D → D → D → D → D
  width_pct_of p atr_pct vol_pct amplitude_pct = f.min p.max_width_pct (
      maximum (
        p.min_width_pct
        ∷ atr_pct ⊗ p.atr_multiplier
        ∷ vol_pct ⊗ p.realized_vol_multiplier
        ∷ amplitude_pct ⊗ p.amplitude_multiplier
        ∷ []))

  abbrev pub cost_spacing_pct : PortfolioPolicyParameters D → D
  cost_spacing_pct p =
      if is_some p.estimated_execution_fee_bps || is_some p.estimated_slippage_bps
      then grid_cost_floor_pct (or_else p.estimated_slippage_bps (num 0))
          (or_else p.estimated_execution_fee_bps (num 0))
        ⊕ f.decimal 25 2
      else num 0

  abbrev pub level_count_of : PortfolioPolicyParameters D → D → D → D → D
  level_count_of p low high minimum_spacing =
      f.max (num 2) (f.min (num p.max_levels) (f.floor ((high ⊖ low) ⊘ minimum_spacing) ⊕ num 1))

  abbrev pub band_around : PortfolioPolicyParameters D → D → D → D → Envelope D
  band_around p center width_pct atr_pct =
      let low = center ⊗ (num 1 ⊖ width_pct ⊘ num 200) in
      let high = center ⊗ (num 1 ⊕ width_pct ⊘ num 200) in
      let minimum_spacing =
        high
        ⊗ maximum (p.minimum_spacing_pct ∷ atr_pct ⊗ f.decimal 5 1 ∷ cost_spacing_pct p ∷ [])
        ⊘ num 100 in
      let count = level_count_of p low high minimum_spacing in
      record {
        low = low;
        high = high;
        center = center;
        level_count = count;
        spacing = (high ⊖ low) ⊘ (count ⊖ num 1);
      }

  unfoldable pub envelope :
      MathFunctions D → List (PolicyCandle D) → PortfolioPolicyParameters D → Envelope D
  envelope m candles p =
      let sample = take_last 20 candles in
      let center =
        policy_average (map (λ c. c.close) (take_last p.persistence_closed_bars sample)) in
      let indicators = (compute m (map historical candles)).latest in
      let amplitude_pct = policy_average (map (λ c. (c.high ⊖ c.low) ⊘ c.close ⊗ num 100) sample) in
      band_around p center
        (width_pct_of p (atr_pct_of indicators) (vol_pct_of indicators) amplitude_pct)
        (atr_pct_of indicators)
