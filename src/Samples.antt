-- ===== src/Samples.antt =====
-- Test data: a paper bot on five rails from 100 to 140, with one open lot bought at 110.
use grid_bot.Common.{ℕ, false, none, some, List, [], ◌∷◌}
use grid_bot.Float.Fixed.{Fixed, fixed_float}
use grid_bot.Domain.{
  BotConfig, Bot, BotStateSnapshot, BotRuntimeMetadata, BotAggregate, PositionLot, TriggerSignal,
  OrderIntent, MarketPrice, GridLevel, running, paper, paper_provider, balanced, arithmetic,
  manual_recenter, trading, buy, created, TradeSide,
}
use grid_bot.GridStrategy.{Decimals}

-- m * 10^-2
abbrev pub cents : ℕ → Fixed
cents m = fixed_float.decimal m 2

abbrev pub usd : ℕ → Fixed
usd m = fixed_float.decimal m 0

abbrev pub cut : Decimals Fixed
cut = record { truncate = λ x digits. x }

abbrev pub config : BotConfig Fixed
config = record {
  execution_fee_bps = none;
  id = "c";
  bot_id = "b";
  total_budget_usd = usd 500;
  max_deployable_usd = usd 400;
  reserve_quote_amount = usd 50;
  low_price = usd 100;
  high_price = usd 140;
  level_count = 5;
  grid_type = arithmetic;
  min_order_quote_amount = usd 50;
  max_slippage_bps = usd 50;
  cooldown_ms = 300;
  max_orders_per_hour = 12;
  max_drawdown_pct = usd 25;
  max_consecutive_failures = 3;
  level_lock_ms = 60;
  price_confirmation_window_ms = 10;
  recenter_mode = manual_recenter;
  entry_mode = none;
  auto_recenter_min_interval_ms = 1000;
  auto_recenter_max_per_day = 2;
  out_of_range_pause = false;
}

abbrev pub bot_record : Bot Fixed
bot_record = record {
  id = "b";
  key = "sol-usdc-paper";
  name = "SOL";
  base_mint = "sol";
  quote_mint = "usdc";
  base_symbol = "SOL";
  quote_symbol = "USDC";
  base_decimals = 9;
  quote_decimals = 6;
  strategy_mode = balanced;
  mode = paper;
  status = running;
  execution_provider = paper_provider;
  current_price = none;
}

abbrev pub lot : PositionLot Fixed
lot = record {
  kind = some trading;
  id = "lot-1";
  bot_id = "b";
  original_base_amount = usd 1;
  remaining_base_amount = usd 1;
  entry_price = usd 110;
  cost_quote = usd 110;
  opened_by_execution_id = "x1";
  closed_by_execution_id = none;
  opened_at = 5;
  closed_at = none;
}

abbrev pub metadata : BotRuntimeMetadata Fixed
metadata = record {
  grid_revision_id = none;
  revision_baseline_pending = none;
  external_native_fees_quote = none;
  equity_high_watermark_usd = none;
  risk_buy_pause = none;
  outside_since = none;
  outside_source_observed_at = none;
  outside_side = none;
  level_locks = [];
  pending_signal = none;
  grid_cycles = none;
  recenter_history = [];
  recent_executions = [];
}

abbrev pub snapshot : BotStateSnapshot Fixed
snapshot = record {
  id = "s";
  bot_id = "b";
  status = running;
  current_price = none;
  available_quote_amount = usd 390;
  available_base_amount = usd 1;
  deployed_quote_amount = usd 110;
  average_entry_price = some (usd 110);
  realized_pnl_usd = usd 0;
  unrealized_pnl_usd = usd 0;
  total_equity_usd = usd 500;
  consecutive_failures = 0;
  last_execution_at = none;
  last_processed_at = 5;
  last_recenter_at = none;
  metadata = metadata;
}

abbrev pub bot : BotAggregate Fixed
bot = record {
  portfolio = none;
  bot = bot_record;
  config = config;
  latest_state = some snapshot;
  position = none;
  open_lots = lot ∷ [];
}

abbrev pub signal : TradeSide → ℕ → ℕ → ℕ → TriggerSignal Fixed
signal side index level observed = record {
  exit_lot_id = none;
  grid_revision_id = none;
  max_adverse_drift_bps = none;
  level_index = index;
  side = side;
  level_price = usd level;
  observed_price = usd observed;
  idempotency_key = "k";
  triggered_at = 7;
}

abbrev pub market : ℕ → MarketPrice Fixed
market price = record {
  received_at = none;
  source_block_id = none;
  quote_source_block_id = none;
  source_observed_at = none;
  freshness_basis = none;
  symbol = "SOL";
  pair = "SOL/USDC";
  price = usd price;
  confidence = usd 0;
  source = "jupiter";
  timestamp = 7;
  feed_id = "f";
}

abbrev pub level : ℕ → ℕ → GridLevel Fixed
level i price = record { index = i; price = usd price }

abbrev pub grid : List (GridLevel Fixed)
grid = level 0 100 ∷ level 1 110 ∷ level 2 120 ∷ level 3 130 ∷ level 4 140 ∷ []

abbrev pub buy_order : OrderIntent Fixed
buy_order = record {
  bot_id = "b";
  order_key = "k";
  side = buy;
  level_index = 0;
  target_price = usd 100;
  requested_base_amount = usd 1;
  requested_quote_amount = usd 100;
  status = created;
  reason = "balanced: buy level 1";
  matched_lot_ids = none;
}
