-- ===== src/GridDecision/Tests.antt =====
-- packages/core/src/services/grid-decision-service.ts: runs, and the theorems there.
use grid_bot.Common.{
  ◌+◌, ◌≤◌, ◌≡◌, refl, true, Option, none, some, [], ◌∷◌, String, ◌↔◌, ◌==◌, none≢some,
}
use grid_bot.Float.Fixed.{Fixed, fixed_float}
use grid_bot.Host.Binary.{binary, binary-IsRuntime, read, write}
use grid_bot.Domain.{buy, running, PendingSignal, TriggerSignal, GridLevel}
use grid_bot.PriceTrigger.{price_confirms_trigger}
use grid_bot.Samples.{usd, signal, grid}
use grid_bot.GridDecision.{
  DecisionInput, get_confirmed_signal, resolve_pending_signal, get_out_of_range_boundary_buy_signal,
  confirmation_elapsed,
}
use grid_bot.GridDecision.Confirmation.{get_confirmed_signal-IsConfirmed, IsConfirmed}
use grid_bot.GridDecision.Pending.{
  resolve_pending_signal-IsResolved, IsResolved, resolve_pending_signal-waits,
  get_out_of_range_boundary_buy_signal-IsBoundaryEntry, IsBoundaryEntry,
}

-- A bot that watches the rail at 110 at time 9, and waits 4.
abbrev watching : Option (PendingSignal Fixed) → DecisionInput Fixed
watching pending = record {
  bot_id = "b";
  bot_status = running;
  latest_status = none;
  pending_signal = pending;
  current_price = usd 109;
  now = 9;
  levels = grid;
  crossed_signals = signal buy 1 110 109 ∷ [];
  price_confirmation_window_ms = 4;
  can_build_order = λ s. s.level_index == 1;
  allow_boundary_catch_up = none;
}

abbrev seen : String → PendingSignal Fixed
seen time = record {
  level_index = 1;
  side = buy;
  first_observed_at = time;
  last_observed_price = usd 109;
}

-- "101" is 5 in the digits of the runtime, the lowest first.
abbrev entry : TriggerSignal Fixed
entry = record {
  exit_lot_id = none;
  grid_revision_id = none;
  max_adverse_drift_bps = none;
  level_index = 1;
  side = buy;
  level_price = usd 110;
  observed_price = usd 109;
  idempotency_key = "b:buy:1:101";
  triggered_at = 9;
}

get_confirmed_signal-IsConfirmed_example : IsConfirmed binary (watching (some (seen "101"))) entry
unfolding get_confirmed_signal read write price_confirms_trigger
get_confirmed_signal-IsConfirmed_example =
    get_confirmed_signal-IsConfirmed binary (watching (some (seen "101"))) entry refl

resolve_pending_signal-IsResolved_example : IsResolved binary (watching none) (seen "1001")
unfolding resolve_pending_signal read write price_confirms_trigger
resolve_pending_signal-IsResolved_example =
    resolve_pending_signal-IsResolved binary (watching none) (seen "1001") refl

resolve_pending_signal-waits_example :
    (confirmation_elapsed binary (seen "1001") 13 4 ≡ true) ↔ (9 + 4 ≤ 13)
unfolding resolve_pending_signal read write price_confirms_trigger
resolve_pending_signal-waits_example =
    resolve_pending_signal-waits binary (watching none) binary-IsRuntime (seen "1001") refl
      (λ was. none≢some was.1) 13 4

-- The price has fallen below the lowest rail.
abbrev fallen : DecisionInput Fixed
fallen = record (watching none) {
  current_price = usd 95;
  price_confirmation_window_ms = 0;
  can_build_order = λ s. true;
}

abbrev boundary_entry : TriggerSignal Fixed
boundary_entry = record {
  exit_lot_id = none;
  grid_revision_id = none;
  max_adverse_drift_bps = none;
  level_index = 0;
  side = buy;
  level_price = usd 100;
  observed_price = usd 95;
  idempotency_key = "b:boundary:buy::1001";
  triggered_at = 9;
}

get_out_of_range_boundary_buy_signal-IsBoundaryEntry_example :
    (l : GridLevel Fixed) × IsBoundaryEntry binary fallen l boundary_entry
unfolding get_out_of_range_boundary_buy_signal read write price_confirms_trigger
get_out_of_range_boundary_buy_signal-IsBoundaryEntry_example =
    get_out_of_range_boundary_buy_signal-IsBoundaryEntry binary fallen boundary_entry refl
