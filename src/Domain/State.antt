-- ===== src/Domain/State.antt =====
-- packages/core/src/domain/types.ts: the persisted state of a bot. A `Record<string, T>` is the
-- list of its entries in the order of `Object.entries`.
use grid_bot.Common.{ℕ, Bool, Option, List, String}
use grid_bot.Domain.Enums.{BotStatus, TradeSide, LotKind, OutsideSide}

pub record PendingSignal (D : Type 0) : Type 0 where
  pub level_index : ℕ
  pub side : TradeSide
  pub first_observed_at : String
  pub last_observed_price : D

pub record GridCycle (D : Type 0) : Type 0 where
  pub grid_revision_id : Option String
  pub buy_target_price : Option D
  pub sell_target_price : Option D
  pub buy_level_index : ℕ
  pub sell_level_index : Option ℕ
  pub lot_id : String
  pub opened_at : String

pub record BotRuntimeMetadata (D : Type 0) : Type 0 where
  pub grid_revision_id : Option String
  pub revision_baseline_pending : Option Bool
  pub external_native_fees_quote : Option D
  pub equity_high_watermark_usd : Option D
  pub risk_buy_pause : Option String
  pub outside_since : Option String
  pub outside_source_observed_at : Option String
  pub outside_side : Option OutsideSide
  pub level_locks : List (String × String)
  pub pending_signal : Option (PendingSignal D)
  pub grid_cycles : Option (List (String × GridCycle D))
  pub recenter_history : List String
  pub recent_executions : List String

pub record BotStateSnapshot (D : Type 0) : Type 0 where
  pub id : String
  pub bot_id : String
  pub status : BotStatus
  pub current_price : Option D
  pub available_quote_amount : D
  pub available_base_amount : D
  pub deployed_quote_amount : D
  pub average_entry_price : Option D
  pub realized_pnl_usd : D
  pub unrealized_pnl_usd : D
  pub total_equity_usd : D
  pub consecutive_failures : ℕ
  pub last_execution_at : Option ℕ
  pub last_processed_at : ℕ
  pub last_recenter_at : Option ℕ
  pub metadata : BotRuntimeMetadata D

pub record Position (D : Type 0) : Type 0 where
  pub id : String
  pub bot_id : String
  pub base_amount : D
  pub quote_spent : D
  pub average_entry_price : D
  pub realized_pnl_usd : D
  pub unrealized_pnl_usd : D
  pub total_fees_quote : D

pub record PositionLot (D : Type 0) : Type 0 where
  pub kind : Option LotKind
  pub id : String
  pub bot_id : String
  pub original_base_amount : D
  pub remaining_base_amount : D
  pub entry_price : D
  pub cost_quote : D
  pub opened_by_execution_id : String
  pub closed_by_execution_id : Option String
  pub opened_at : ℕ
  pub closed_at : Option ℕ
