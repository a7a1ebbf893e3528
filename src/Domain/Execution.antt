-- ===== src/Domain/Execution.antt =====
-- packages/core/src/domain/types.ts: quotes, orders to an exchange and their reports. What a provider
-- adds as raw data is opaque, but for that of the paper adapter.
use grid_bot.Common.{ℕ, Option, String}
use grid_bot.Domain.Enums.{TradeSide, ExecutionProvider, ExecutionStatus}

pub data Raw (D : Type 0) : Type 0 where
  paper_quote : Raw D
  paper_estimate : Option D → Raw D
  paper_report : String → Option D → Raw D
  provider_data : String → Raw D

pub record ExecutionQuote (D : Type 0) : Type 0 where
  pub minimum_output_amount : Option D
  pub provider : ExecutionProvider
  pub input_mint : String
  pub output_mint : String
  pub input_amount : D
  pub expected_output_amount : D
  pub estimated_fee_amount : D
  pub native_fee_amount : Option D
  pub native_fee_symbol : Option String
  pub price_impact_pct : D
  pub request_id : Option String
  pub expires_at : Option String
  pub route : Option String
  pub raw_quote : Option (Raw D)

pub record ExecutionEstimate (D : Type 0) : Type 0 where
  pub quote : ExecutionQuote D
  pub expected_price : D

pub data ExecutionPolicy (D : Type 0) : Type 0 where
  provider_auto : ExecutionPolicy D
  bounded_manual : D → ExecutionPolicy D

pub record NativeFeePolicy (D : Type 0) : Type 0 where
  pub max_fee_amount : D
  pub minimum_post_execution_balance : Option D

pub record ExecuteSwapParams (D : Type 0) : Type 0 where
  pub bot_id : String
  pub input_mint : String
  pub output_mint : String
  pub amount : D
  pub trade_side : Option TradeSide
  pub input_decimals : ℕ
  pub output_decimals : ℕ
  pub slippage_bps : D
  pub execution_policy : Option (ExecutionPolicy D)
  pub native_fee_policy : Option (NativeFeePolicy D)
  pub client_order_id : String
  pub wallet_public_key : Option String
  pub reference_price : Option D

pub record ExecutionReport (D : Type 0) : Type 0 where
  pub provider : ExecutionProvider
  pub status : ExecutionStatus
  pub execution_id : String
  pub tx_id : Option String
  pub input_amount : D
  pub output_amount : D
  pub effective_price : D
  pub fee_amount : D
  pub native_fee_amount : Option D
  pub native_fee_symbol : Option String
  pub raw_report : Option (Raw D)
