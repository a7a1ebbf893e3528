-- ===== src/Domain/Portfolio.antt =====
-- packages/core/src/domain/portfolio-types.ts: a portfolio, its bands and the exits they promise.
use grid_bot.Common.{ℕ, Bool, Option, List, String}
use grid_bot.Domain.Enums.{BotMode, GridType, StrategyMode, GridBandStatus, ExitTargetStatus}
use grid_bot.Domain.Config.{Bot, BotConfig}
use grid_bot.Domain.State.{BotStateSnapshot, Position, PositionLot}

pub record PortfolioRecord (D : Type 0) : Type 0 where
  pub id : String
  pub mode : BotMode
  pub wallet_identity : String
  pub quote_mint : String
  pub free_quote_amount : D
  pub version : ℕ
  pub auto_live : Bool
  pub shadow_jev_enabled : Bool
  pub created_at : ℕ
  pub updated_at : ℕ

-- `objective` is one of the two accumulating strategies; `allocationPolicy` has one value.
pub record AssetStrategyRecord (D : Type 0) : Type 0 where
  pub id : String
  pub portfolio_id : String
  pub base_mint : String
  pub base_symbol : String
  pub objective : StrategyMode
  pub allocated_quote_amount : D
  pub retained_base_amount : D

pub record GridRevisionRecord (D : Type 0) : Type 0 where
  pub id : String
  pub band_id : String
  pub sequence : ℕ
  pub low_price : D
  pub high_price : D
  pub level_count : ℕ
  pub grid_type : GridType
  pub reason : String
  pub observed_at : ℕ
  pub snapshot_id : Option String
  pub created_at : ℕ

pub record LotExitCommitmentRecord (D : Type 0) : Type 0 where
  pub id : String
  pub band_id : String
  pub lot_id : String
  pub target_status : ExitTargetStatus
  pub buy_level_index : Option ℕ
  pub sell_level_index : Option ℕ
  pub buy_target_price : Option D
  pub sell_target_price : Option D
  pub economic_rule : StrategyMode
  pub origin_revision_id : String
  pub max_adverse_drift_bps : D
  pub fulfilled_at : Option ℕ
  pub created_at : ℕ

pub record GridBandExecutionContext (D : Type 0) : Type 0 where
  pub last_policy_observed_at : Option ℕ
  pub id : String
  pub bot_id : String
  pub status : GridBandStatus
  pub allocated_quote_amount : D
  pub available_quote_amount : D
  pub reserved_quote_amount : D
  pub deployed_cost_quote : D
  pub realized_loss_quote : D
  pub active_revision : GridRevisionRecord D

pub record BandExecutionContext (D : Type 0) : Type 0 where
  pub portfolio : PortfolioRecord D
  pub strategy : AssetStrategyRecord D
  pub band : GridBandExecutionContext D
  pub exit_commitments : List (LotExitCommitmentRecord D)
  pub capital_blocked_reason : Option String

pub record BotAggregate (D : Type 0) : Type 0 where
  pub portfolio : Option (BandExecutionContext D)
  pub bot : Bot D
  pub config : BotConfig D
  pub latest_state : Option (BotStateSnapshot D)
  pub position : Option (Position D)
  pub open_lots : List (PositionLot D)
