-- ===== src/PortfolioPolicy/Validation.antt =====
-- packages/core/src/services/portfolio-policy-service.ts, validateInput: the checks of the input, in
-- their order.
use grid_bot.Common.{
  ℕ, ◌+◌, ◌-◌, Bool, false, not, ◌&&◌, ◌||◌, Option, none, some, List, [], ◌∷◌, ◌++◌, String, all,
  length, if◌then◌else◌, ltb, ◌==◌, last,
}
use grid_bot.Float.{Float, num, ◌≼◌, ◌≺◌}
use grid_bot.PortfolioPolicy.Inputs.{
  PolicyCandle, PolicyLot, PortfolioPolicyParameters, PortfolioPolicyInput, closed_candles,
}

-- `if (test) return reason`
unfoldable pub reject_if : Bool → String → Option String → Option String
reject_if test reason rest = if test then some reason else rest

abbrev pub after : Option ℕ → ℕ → Bool
after none now = false
after (some t) now = ltb now t

module _ {D : Type 0} ⦃f : Float D⦄ where
  abbrev pub is_amount : D → Bool
  is_amount v = f.is_finite v && num 0 ≼ v

  abbrev pub if_present : Option D → List D
  if_present none = []
  if_present (some v) = v ∷ []

  abbrev pub numeric : PortfolioPolicyInput D → List D
  numeric i =
      let p = i.parameters in
      i.band.low_price
      ∷ i.band.high_price
      ∷ i.band.spacing
      ∷ i.band.allocated_capital_usd
      ∷ i.band.idle_quote_usd
      ∷ i.asset_attributed_capital_usd
      ∷ i.available_cash_usd
      ∷ i.total_portfolio_capital_usd
      ∷ p.atr_multiplier
      ∷ p.realized_vol_multiplier
      ∷ p.amplitude_multiplier
      ∷ p.min_width_pct
      ∷ p.max_width_pct
      ∷ p.min_useful_order_usd
      ∷ p.max_exposure_pct
      ∷ p.lower_band_offset_pct
      ∷ p.lower_band_width_pct
      ∷ p.minimum_spacing_pct
      ∷ (if_present p.minimum_movement_pct
          ++ (if_present p.estimated_execution_fee_bps ++ if_present p.estimated_slippage_bps))

  abbrev pub is_invalid_band : PortfolioPolicyInput D → Bool
  is_invalid_band i =
      i.band.low_price ≼ num 0
      || (i.band.high_price ≼ i.band.low_price
          || (i.band.spacing ≼ num 0
              || (ltb i.band.level_count 2
                  || (i.total_portfolio_capital_usd ≼ num 0
                      || (i.candle_interval_ms == 0
                          || (ltb i.max_candle_age_ms i.candle_interval_ms
                              || ltb i.band_count 1))))))

  abbrev pub is_invalid_policy : PortfolioPolicyParameters D → Bool
  is_invalid_policy p =
      ltb p.persistence_closed_bars 1
      || (ltb 20 p.persistence_closed_bars
          || (ltb p.max_levels 2
              || (ltb p.max_bands 1
                  || (num 100 ≺ p.max_exposure_pct
                      || (p.min_useful_order_usd ≼ num 0
                          || (p.minimum_spacing_pct ≼ num 0
                              || (p.min_width_pct ≼ num 0
                                  || (p.max_width_pct ≺ p.min_width_pct
                                      || num 100 ≼ p.max_width_pct))))))))

  abbrev pub is_lot_exposure : PolicyLot D → Bool
  is_lot_exposure l =
      is_amount l.entry_price && (is_amount l.remaining_base_amount && is_amount l.cost_quote)

  abbrev pub is_price : D → Bool
  is_price v = f.is_finite v && num 0 ≺ v

  abbrev pub is_ohlc : ℕ → PolicyCandle D → Bool
  is_ohlc interval c =
      c.opened_at + interval == c.closed_at
      && ((is_price c.open_price && (is_price c.high && (is_price c.low && is_price c.close)))
          && (c.low ≼ f.min c.open_price c.close && f.max c.open_price c.close ≼ c.high))

  abbrev pub has_gap : ℕ → List (PolicyCandle D) → Bool
  has_gap interval [] = false
  has_gap interval (c ∷ []) = false
  has_gap interval (c ∷ d ∷ rest) =
      not (c.closed_at + interval == d.closed_at) || has_gap interval (d ∷ rest)

  -- `now - candles.at(-1).closedAt > maxCandleAgeMs`
  abbrev pub is_stale : ℕ → ℕ → Option (PolicyCandle D) → Bool
  is_stale now age none = false
  is_stale now age (some c) = ltb (c.closed_at + age) now

  abbrev pub validate_candles : PortfolioPolicyInput D → List (PolicyCandle D) → Option String
  validate_candles i candles =
      reject_if (ltb (length candles) (20 + i.parameters.persistence_closed_bars - 1))
        "Incomplete closed-candle history."
        (reject_if (not (all (is_ohlc i.candle_interval_ms) candles)) "Invalid OHLC history." (
          reject_if (is_stale i.now i.max_candle_age_ms (last candles))
            "Closed-candle history is stale."
            (reject_if (has_gap i.candle_interval_ms candles)
              "Closed-candle history is not contiguous." none)))

  unfoldable pub validate_input : PortfolioPolicyInput D → Option String
  validate_input i =
      reject_if (not (f.is_finite i.price) || i.price ≼ num 0) "Invalid timestamp or price." (
        reject_if
          (not (all is_amount (numeric i)) || (is_invalid_band i || is_invalid_policy i.parameters))
          "Invalid policy or capital parameters."
          (reject_if (after i.band.last_revision_at i.now) "Invalid revision timestamp." (
            reject_if (not (all is_lot_exposure i.band.open_trading_lots)) "Invalid lot exposure."
              (validate_candles i (closed_candles i.now i.candles)))))
