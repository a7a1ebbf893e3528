-- ===== src/PortfolioPolicy/Tests.antt =====
-- packages/core/src/services/portfolio-policy-service.ts: a parked band at 90 to 110 whose price has been
-- at 100 for one bar.
use grid_bot.Common.{ℕ, zero, suc, ◌+◌, ◌*◌, ◌≡◌, refl, true, none, some, List, [], ◌∷◌}
use grid_bot.Float.Fixed.{Fixed, fixed_float, Fixed-IsIeee}
use grid_bot.Samples.{usd, cents}
use grid_bot.PortfolioPolicy.Inputs.{
  PolicyCandle, PortfolioPolicyParameters, PortfolioPolicyInput, PortfolioPolicyDecision,
  PolicyEngine, parked, reactivate, result,
}
use grid_bot.PortfolioPolicy.Envelope.{envelope}
use grid_bot.Indicators.Series.{seeded, rolling}
use grid_bot.Indicators.Trend.{compute_atr}
use grid_bot.Indicators.Windows.{compute_realized_vol}
use grid_bot.Indicators.Service.{compute, series_of}
use grid_bot.PortfolioPolicy.Envelope.{grid_cost_floor_pct}
use grid_bot.PortfolioPolicy.Validation.{validate_input, reject_if}
use grid_bot.PortfolioPolicy.Decision.{evaluate_portfolio_policy, evaluate_valid}
use grid_bot.PortfolioPolicy.Justified.{IsJustified, evaluate_portfolio_policy-IsJustified}
use grid_bot.PortfolioPolicy.History.{evaluate_portfolio_policy-closed, envelope-levels}

abbrev engine : PolicyEngine Fixed
engine = record { functions = record { sqrt = λ x. x; log = λ x. x }; to_length = λ x. 1 }

abbrev parameters : PortfolioPolicyParameters Fixed
parameters = record {
  persistence_closed_bars = 1;
  cooldown_ms = 50;
  max_daily_revisions = 3;
  atr_multiplier = usd 6;
  realized_vol_multiplier = usd 6;
  amplitude_multiplier = usd 3;
  min_width_pct = usd 6;
  max_width_pct = usd 24;
  min_useful_order_usd = usd 25;
  max_bands = 3;
  max_levels = 24;
  max_exposure_pct = usd 70;
  lower_band_offset_pct = usd 3;
  lower_band_width_pct = usd 6;
  minimum_spacing_pct = cents 40;
  minimum_movement_pct = some (cents 75);
  estimated_execution_fee_bps = some (usd 10);
  estimated_slippage_bps = some (usd 50);
}

abbrev candle : ℕ → PolicyCandle Fixed
candle n = record {
  opened_at = n * 10;
  closed_at = n * 10 + 10;
  open_price = usd 100;
  high = usd 102;
  low = usd 98;
  close = usd 100;
}

abbrev candles_to : ℕ → List (PolicyCandle Fixed)
candles_to zero = []
candles_to (suc n) = candle n ∷ candles_to n

abbrev input : PortfolioPolicyInput Fixed
input = record {
  now = 200;
  price = usd 100;
  asset_symbol = "SOL";
  band = record {
    id = "band";
    low_price = usd 90;
    high_price = usd 110;
    level_count = 5;
    spacing = usd 5;
    status = parked;
    allocated_capital_usd = usd 100;
    idle_quote_usd = usd 50;
    open_trading_lots = [];
    commitments = none;
    last_revision_at = none;
    revisions_today = none;
  };
  band_count = 1;
  asset_attributed_capital_usd = usd 100;
  candles = candles_to 20;
  candle_interval_ms = 10;
  max_candle_age_ms = 20;
  available_cash_usd = usd 0;
  total_portfolio_capital_usd = usd 200;
  parameters = parameters;
}

valid : validate_input input ≡ none
unfolding validate_input reject_if
valid = refl

reactivates :
    evaluate_portfolio_policy engine input
    ≡ some (result reactivate "Confirmed return inside the existing band.")
unfolding evaluate_portfolio_policy evaluate_valid validate_input reject_if
reactivates = refl

evaluate_portfolio_policy-IsJustified_example :
    (d : PortfolioPolicyDecision Fixed) × (evaluate_portfolio_policy engine input ≡ some d)
    × IsJustified engine input d
evaluate_portfolio_policy-IsJustified_example = evaluate_portfolio_policy-IsJustified engine input

-- the twenty-first candle has not closed
evaluate_portfolio_policy-closed_example :
    evaluate_portfolio_policy engine (record input { candles = candles_to 21 })
    ≡ evaluate_portfolio_policy engine input
evaluate_portfolio_policy-closed_example =
    evaluate_portfolio_policy-closed engine input (candles_to 21) refl

envelope-levels_example :
    (fixed_float.le (usd 2) (envelope engine.functions (candles_to 2) parameters).level_count
      ≡ true)
    × (fixed_float.le (envelope engine.functions (candles_to 2) parameters).level_count (usd 24)
        ≡ true)
unfolding envelope grid_cost_floor_pct compute series_of compute_atr compute_realized_vol seeded
    rolling
envelope-levels_example =
    envelope-levels Fixed-IsIeee engine.functions (candles_to 2) parameters refl refl
