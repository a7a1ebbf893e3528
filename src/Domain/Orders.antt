-- ===== src/Domain/Orders.antt =====
-- packages/core/src/domain/types.ts: signals and order intents.
use grid_bot.Common.{ℕ, Option, List, String}
use grid_bot.Domain.Enums.{TradeSide, OrderStatus}

pub record TriggerSignal (D : Type 0) : Type 0 where
  pub exit_lot_id : Option String
  pub grid_revision_id : Option String
  pub max_adverse_drift_bps : Option D
  pub level_index : ℕ
  pub side : TradeSide
  pub level_price : D
  pub observed_price : D
  pub idempotency_key : String
  pub triggered_at : ℕ

pub record OrderIntent (D : Type 0) : Type 0 where
  pub bot_id : String
  pub order_key : String
  pub side : TradeSide
  pub level_index : ℕ
  pub target_price : D
  pub requested_base_amount : D
  pub requested_quote_amount : D
  pub status : OrderStatus
  pub reason : String
  pub matched_lot_ids : Option (List String)
