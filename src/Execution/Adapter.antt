-- ===== src/Execution/Adapter.antt =====
-- packages/core/src/adapters/execution-adapter.ts: the operations of an adapter. `W` is all that they
-- may change, inside the program and outside; a promise that is rejected is an error.
use grid_bot.Common.{Option, String}
use grid_bot.Domain.{ExecutionQuote, ExecutionEstimate, ExecutionReport, ExecuteSwapParams}

pub data ExecutionError : Type 0 where
  reference_price_required live_disabled : ExecutionError
  provider_error : String → ExecutionError

pub data Answer (W A : Type 0) : Type 0 where
  resolved : A → W → Answer W A
  rejected : ExecutionError → W → Answer W A

pub record ExecutionAdapter (D W : Type 0) : Type 0 where
  pub get_quote : String → String → D → D → W → Answer W (ExecutionQuote D)
  pub estimate_execution : ExecuteSwapParams D → W → Answer W (ExecutionEstimate D)
  pub prepare_execution : Option (ExecuteSwapParams D → W → Answer W (ExecutionEstimate D))
  pub execute_swap : ExecuteSwapParams D → W → Answer W (ExecutionReport D)
  pub execute_prepared_swap : Option (
      ExecuteSwapParams D
      → ExecutionEstimate D
      → Option (ExecutionReport D)
      → W
      → Answer W (ExecutionReport D))
  pub get_execution_report :
      String → Option (ExecutionEstimate D) → W → Answer W (Option (ExecutionReport D))
