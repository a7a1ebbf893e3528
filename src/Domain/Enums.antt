-- ===== src/Domain/Enums.antt =====
-- packages/core/src/domain/enums.ts, and the string unions of types.ts and portfolio-types.ts.
use grid_bot.Common.{Bool, true, false}

pub data BotStatus : Type 0 where
  running paused stopped out_of_range cooldown error : BotStatus

pub data BotMode : Type 0 where
  paper live : BotMode

pub data StrategyMode : Type 0 where
  accumulate_base accumulate_usdc balanced : StrategyMode

pub data GridType : Type 0 where
  arithmetic geometric : GridType

pub data RecenterMode : Type 0 where
  manual_recenter auto_recenter : RecenterMode

pub data EntryMode : Type 0 where
  normal sell_only : EntryMode

pub data MinOrderMode : Type 0 where
  auto manual : MinOrderMode

pub data ExecutionProvider : Type 0 where
  jupiter paper_provider dflow : ExecutionProvider

pub data ExecutionStatus : Type 0 where
  pending submitted unknown filled failed simulated : ExecutionStatus

pub data AlertType : Type 0 where
  bot_paused bot_out_of_range execution_failed consecutive_failures : AlertType
  recenter_performed budget_max_reached drawdown_threshold infrastructure_degraded : AlertType

pub data TradeSide : Type 0 where
  buy sell : TradeSide

pub data OrderStatus : Type 0 where
  created blocked order_submitted order_filled order_failed cancelled order_simulated : OrderStatus

pub data LogLevel : Type 0 where
  debug info warn log_error : LogLevel

pub data LotKind : Type 0 where
  trading retained : LotKind

pub data OutsideSide : Type 0 where
  above below : OutsideSide

pub data GridBandStatus : Type 0 where
  active parked_below closed : GridBandStatus

pub data ExitTargetStatus : Type 0 where
  known unknown_target : ExitTargetStatus

abbrev pub is_buy : TradeSide → Bool
is_buy buy = true
is_buy sell = false

abbrev pub is_sell : TradeSide → Bool
is_sell buy = false
is_sell sell = true

abbrev pub same_side : TradeSide → TradeSide → Bool
same_side buy buy = true
same_side sell sell = true
same_side buy sell = false
same_side sell buy = false

abbrev pub is_out_of_range : BotStatus → Bool
is_out_of_range out_of_range = true
is_out_of_range _ = false

abbrev pub is_halted : BotStatus → Bool
is_halted paused = true
is_halted stopped = true
is_halted _ = false

abbrev pub is_manual : RecenterMode → Bool
is_manual manual_recenter = true
is_manual auto_recenter = false

abbrev pub is_sell_only : EntryMode → Bool
is_sell_only sell_only = true
is_sell_only normal = false

abbrev pub is_live : BotMode → Bool
is_live live = true
is_live paper = false

abbrev pub same_strategy : StrategyMode → StrategyMode → Bool
same_strategy accumulate_base accumulate_base = true
same_strategy accumulate_usdc accumulate_usdc = true
same_strategy balanced balanced = true
same_strategy _ _ = false

abbrev pub is_active : GridBandStatus → Bool
is_active active = true
is_active _ = false

abbrev pub is_known : ExitTargetStatus → Bool
is_known known = true
is_known unknown_target = false
