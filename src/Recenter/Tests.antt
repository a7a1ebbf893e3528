-- ===== src/Recenter/Tests.antt =====
-- packages/core/src/services/flat-recenter-service.ts and recenter-policy-service.ts: a price above
-- the range.
use grid_bot.Common.{◌≡◌, refl, true, false, none, some, []}
use grid_bot.Float.Fixed.{Fixed, fixed_float}
use grid_bot.Host.Binary.{binary, read, write, binary-IsRuntime}
use grid_bot.Samples.{usd, cents}
use grid_bot.Domain.{OutsideSide, above}
use grid_bot.Recenter.Policy.{
  RecenterPolicyInput, breakout_side, is_valid_range, evaluate_recenter, trend_up,
}
use grid_bot.Recenter.Flat.{FlatRecenterInput, evaluate_flat_recenter}
use grid_bot.Recenter.Safety.{IsSafeMove, evaluate_flat_recenter-IsSafeMove}
use grid_bot.Recenter.Defence.{IsDefensive, evaluate_recenter-IsDefensive}

abbrev flat_bot : FlatRecenterInput Fixed
flat_bot = record {
  low_price = usd 100;
  high_price = usd 140;
  current_price = usd 150;
  now = 100_000;
  confirmation_ms = 10;
  outside_since = some (binary.iso 60_000);
  outside_side = some above;
  outside_source_observed_at = some "a";
  current_observation_id = some "b";
  require_source_advance = true;
  last_recenter_at = none;
  recenter_history = [];
  min_interval_ms = 1000;
  max_per_day = 2;
  open_trading_lot_count = 0;
  unresolved_execution = false;
}

moves_up : (evaluate_flat_recenter binary flat_bot).suggested_low_price ≡ some (usd 124)
unfolding evaluate_flat_recenter read write
moves_up = refl

evaluate_flat_recenter-IsSafeMove_example : (side : OutsideSide) × IsSafeMove binary flat_bot side
unfolding evaluate_flat_recenter read write
evaluate_flat_recenter-IsSafeMove_example =
    evaluate_flat_recenter-IsSafeMove binary flat_bot binary-IsRuntime refl

abbrev breakout : RecenterPolicyInput Fixed
breakout = record {
  current_price = usd 150;
  low_price = usd 100;
  high_price = usd 140;
  open_cycle_count = 0;
  max_occupancy_pct = usd 20;
  consecutive_outside_bars = 3;
  market_regime = some (record { regime = trend_up; confidence = cents 80 });
}

evaluate_recenter-IsDefensive_example :
    IsDefensive binary (λ x. "80") breakout above (evaluate_recenter binary (λ x. "80") breakout)
unfolding breakout_side is_valid_range
evaluate_recenter-IsDefensive_example =
    evaluate_recenter-IsDefensive binary (λ x. "80") breakout above refl refl
