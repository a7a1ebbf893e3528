-- ===== src/Domain/Config.antt =====
-- packages/core/src/domain/types.ts: `BotConfig`, `Bot`, `GridLevel` and `MarketPrice`.
use grid_bot.Common.{ℕ, Bool, Option, String}
use grid_bot.Domain.Enums.{
  BotStatus, BotMode, StrategyMode, GridType, RecenterMode, EntryMode, ExecutionProvider,
}

pub record BotConfig (D : Type 0) : Type 0 where
  pub execution_fee_bps : Option D
  pub id : String
  pub bot_id : String
  pub total_budget_usd : D
  pub max_deployable_usd : D
  pub reserve_quote_amount : D
  pub low_price : D
  pub high_price : D
  pub level_count : ℕ
  pub grid_type : GridType
  pub min_order_quote_amount : D
  pub max_slippage_bps : D
  pub cooldown_ms : ℕ
  pub max_orders_per_hour : ℕ
  pub max_drawdown_pct : D
  pub max_consecutive_failures : ℕ
  pub level_lock_ms : ℕ
  pub price_confirmation_window_ms : ℕ
  pub recenter_mode : RecenterMode
  pub entry_mode : Option EntryMode
  pub auto_recenter_min_interval_ms : ℕ
  pub auto_recenter_max_per_day : ℕ
  pub out_of_range_pause : Bool

pub record Bot (D : Type 0) : Type 0 where
  pub id : String
  pub key : String
  pub name : String
  pub base_mint : String
  pub quote_mint : String
  pub base_symbol : String
  pub quote_symbol : String
  pub base_decimals : ℕ
  pub quote_decimals : ℕ
  pub strategy_mode : StrategyMode
  pub mode : BotMode
  pub status : BotStatus
  pub execution_provider : ExecutionProvider
  pub current_price : Option D

pub record GridLevel (D : Type 0) : Type 0 where
  pub index : ℕ
  pub price : D

pub record MarketPrice (D : Type 0) : Type 0 where
  pub received_at : Option ℕ
  pub source_block_id : Option ℕ
  pub quote_source_block_id : Option ℕ
  pub source_observed_at : Option ℕ
  pub freshness_basis : Option String
  pub symbol : String
  pub pair : String
  pub price : D
  pub confidence : D
  pub source : String
  pub timestamp : ℕ
  pub feed_id : String
