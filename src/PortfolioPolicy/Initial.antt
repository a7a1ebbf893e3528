-- ===== src/PortfolioPolicy/Initial.antt =====
-- packages/core/src/services/portfolio-policy-service.ts: the default parameters, the first envelope of a
-- band, and the order in which assets get capital.
use grid_bot.Common.{
  ℕ, ◌*◌, Bool, not, ◌&&◌, ◌||◌, Option, none, some, List, [], String, ◌⊎◌, inl, inr, sort_by, last,
}
use grid_bot.Float.{Float, num, ◌⊗◌, ◌⊖◌, ◌⊘◌, ◌≺◌}
use grid_bot.Host.{Host, precedes}
use grid_bot.PortfolioPolicy.Inputs.{
  PolicyCandle, PortfolioPolicyParameters, PortfolioPolicyInput, PolicyEngine, active,
  closed_candles,
}
use grid_bot.PortfolioPolicy.Envelope.{Envelope, envelope}
use grid_bot.PortfolioPolicy.Validation.{validate_input}

pub record InitialEnvelope (D : Type 0) : Type 0 where
  pub low_price : D
  pub high_price : D
  pub level_count : D

pub record AssetAllocationState (D : Type 0) : Type 0 where
  pub asset_symbol : String
  pub historical_allocated_capital_usd : D
  pub idle_assigned_capital_usd : D
  pub initial_target_usd : D

module _ {D : Type 0} ⦃f : Float D⦄ where
  abbrev pub default_portfolio_policy : PortfolioPolicyParameters D
  default_portfolio_policy = record {
    persistence_closed_bars = 3;
    cooldown_ms = 6 * 3_600_000;
    max_daily_revisions = 3;
    atr_multiplier = num 6;
    realized_vol_multiplier = num 6;
    amplitude_multiplier = num 3;
    min_width_pct = num 6;
    max_width_pct = num 24;
    min_useful_order_usd = num 25;
    max_bands = 3;
    max_levels = 24;
    max_exposure_pct = num 70;
    lower_band_offset_pct = num 3;
    lower_band_width_pct = num 6;
    minimum_spacing_pct = f.decimal 4 1;
    minimum_movement_pct = some (f.decimal 75 2);
    estimated_execution_fee_bps = some (num 10);
    estimated_slippage_bps = some (num 50);
  }

  -- `closed.at(-1)?.close ?? Number.NaN`
  abbrev pub last_close : Option (PolicyCandle D) → D
  last_close none = num 0 ⊘ num 0
  last_close (some c) = c.close

  abbrev pub initial_input :
      List (PolicyCandle D) → ℕ → PortfolioPolicyParameters D → D → PortfolioPolicyInput D
  initial_input candles now parameters price = record {
    now = now;
    price = price;
    asset_symbol = "INITIAL";
    band = record {
      id = "initial";
      low_price = price ⊗ f.decimal 9 1;
      high_price = price ⊗ f.decimal 11 1;
      level_count = 2;
      spacing = price ⊗ f.decimal 2 1;
      status = active;
      allocated_capital_usd = num 1000;
      idle_quote_usd = num 1000;
      open_trading_lots = [];
      commitments = none;
      last_revision_at = none;
      revisions_today = none;
    };
    band_count = 1;
    asset_attributed_capital_usd = num 1000;
    candles = candles;
    candle_interval_ms = 3_600_000;
    max_candle_age_ms = 2 * 3_600_000;
    available_cash_usd = num 0;
    total_portfolio_capital_usd = num 2000;
    parameters = parameters;
  }

  abbrev pub initial_of : Envelope D → InitialEnvelope D
  initial_of e = record { low_price = e.low; high_price = e.high; level_count = e.level_count }

  abbrev pub unless_invalid : Option String → InitialEnvelope D → String ⊎ InitialEnvelope D
  unless_invalid (some invalid) e = inl invalid
  unless_invalid none e = inr e

  -- on the left, the error that it throws
  unfoldable pub initial_portfolio_envelope :
      PolicyEngine D
      → List (PolicyCandle D)
      → ℕ
      → PortfolioPolicyParameters D
      → String ⊎ InitialEnvelope D
  initial_portfolio_envelope e candles now parameters =
      let closed = closed_candles now candles in
      unless_invalid
        (validate_input (initial_input candles now parameters (last_close (last closed))))
        (initial_of (envelope e.functions closed parameters))

  -- whether the comparison of the sort is negative; its difference counts unless it is 0 or NaN
  abbrev pub has_priority : ⦃h : Host⦄ → AssetAllocationState D → AssetAllocationState D → Bool
  has_priority a b =
      let difference =
        (b.initial_target_usd ⊖ b.historical_allocated_capital_usd ⊖ b.idle_assigned_capital_usd)
        ⊖ (a.initial_target_usd ⊖ a.historical_allocated_capital_usd
            ⊖ a.idle_assigned_capital_usd) in
      difference ≺ num 0
      || (not (difference ≺ num 0 || num 0 ≺ difference) && precedes a.asset_symbol b.asset_symbol)

  unfoldable pub prioritize_asset_allocation :
      ⦃h : Host⦄ → List (AssetAllocationState D) → List (AssetAllocationState D)
  prioritize_asset_allocation assets = sort_by has_priority assets
