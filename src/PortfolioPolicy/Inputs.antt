-- ===== src/PortfolioPolicy/Inputs.antt =====
-- packages/core/src/services/portfolio-policy-service.ts: its types. Counts and durations are whole
-- numbers, dates are valid.
use grid_bot.Common.{
  ℕ, Bool, true, false, Option, none, some, List, String, keep, sort_by, ltb, leb,
}
use grid_bot.Domain.{LotKind, retained}
use grid_bot.Indicators.Series.{MathFunctions}

pub data PortfolioPolicyAction : Type 0 where
  wait revise park reactivate create_band : PortfolioPolicyAction

pub data PolicyStatus : Type 0 where
  active parked : PolicyStatus

pub record PolicyCandle (D : Type 0) : Type 0 where
  pub opened_at : ℕ
  pub closed_at : ℕ
  pub open_price : D
  pub high : D
  pub low : D
  pub close : D

pub record PolicyLot (D : Type 0) : Type 0 where
  pub entry_price : D
  pub remaining_base_amount : D
  pub cost_quote : D
  pub kind : Option LotKind

pub record PolicyCommitment (D : Type 0) : Type 0 where
  pub low_price : D
  pub high_price : D

pub record PolicyBandState (D : Type 0) : Type 0 where
  pub id : String
  pub low_price : D
  pub high_price : D
  pub level_count : ℕ
  pub spacing : D
  pub status : PolicyStatus
  pub allocated_capital_usd : D
  pub idle_quote_usd : D
  pub open_trading_lots : List (PolicyLot D)
  pub commitments : Option (List (PolicyCommitment D))
  pub last_revision_at : Option ℕ
  pub revisions_today : Option ℕ

pub record PortfolioPolicyParameters (D : Type 0) : Type 0 where
  pub persistence_closed_bars : ℕ
  pub cooldown_ms : ℕ
  pub max_daily_revisions : ℕ
  pub atr_multiplier : D
  pub realized_vol_multiplier : D
  pub amplitude_multiplier : D
  pub min_width_pct : D
  pub max_width_pct : D
  pub min_useful_order_usd : D
  pub max_bands : ℕ
  pub max_levels : ℕ
  pub max_exposure_pct : D
  pub lower_band_offset_pct : D
  pub lower_band_width_pct : D
  pub minimum_spacing_pct : D
  pub minimum_movement_pct : Option D
  pub estimated_execution_fee_bps : Option D
  pub estimated_slippage_bps : Option D

pub record PortfolioPolicyInput (D : Type 0) : Type 0 where
  pub now : ℕ
  pub price : D
  pub asset_symbol : String
  pub band : PolicyBandState D
  pub band_count : ℕ
  pub asset_attributed_capital_usd : D
  pub candles : List (PolicyCandle D)
  pub candle_interval_ms : ℕ
  pub max_candle_age_ms : ℕ
  pub available_cash_usd : D
  pub total_portfolio_capital_usd : D
  pub parameters : PortfolioPolicyParameters D

pub record BandCandidate (D : Type 0) : Type 0 where
  pub low_price : D
  pub high_price : D
  pub level_count : D
  pub spacing : D
  pub requested_capital_usd : D

pub record PortfolioPolicyDecision (D : Type 0) : Type 0 where
  pub action : PortfolioPolicyAction
  pub reason : String
  pub next_low_price : Option D
  pub next_high_price : Option D
  pub next_level_count : Option D
  pub next_spacing : Option D
  pub protected_low_price : Option D
  pub protected_high_price : Option D
  pub candidate : Option (BandCandidate D)

-- What the policy takes from the engine: `Math.sqrt`, `Math.log`, and the length that `Array.from` makes
-- of a number.
pub record PolicyEngine (D : Type 0) : Type 0 where
  pub functions : MathFunctions D
  pub to_length : D → ℕ

abbrev pub is_parked : PolicyStatus → Bool
is_parked parked = true
is_parked active = false

abbrev pub is_retained_kind : Option LotKind → Bool
is_retained_kind (some retained) = true
is_retained_kind _ = false

-- `candles.filter(c => c.closedAt <= now).sort(...)`
abbrev pub closed_candles : {D : Type 0} → ℕ → List (PolicyCandle D) → List (PolicyCandle D)
closed_candles now candles =
    sort_by (λ a b. ltb a.closed_at b.closed_at) (keep (λ c. leb c.closed_at now) candles)

abbrev pub result : {D : Type 0} → PortfolioPolicyAction → String → PortfolioPolicyDecision D
result action reason = record {
  action = action;
  reason = reason;
  next_low_price = none;
  next_high_price = none;
  next_level_count = none;
  next_spacing = none;
  protected_low_price = none;
  protected_high_price = none;
  candidate = none;
}
