-- ===== src/Execution/Service.antt =====
-- packages/core/src/services/execution-service.ts: which adapter executes for a bot.
use grid_bot.Common.{Bool, not, Option, none, some, String, if◌then◌else◌}
use grid_bot.Domain.{
  Bot, ExecutionProvider, ExecutionQuote, ExecutionEstimate, ExecutionReport, ExecuteSwapParams,
  paper_provider, is_live,
}
use grid_bot.Execution.Adapter.{ExecutionAdapter, Answer, rejected, live_disabled}

pub record ExecutionService (D W : Type 0) : Type 0 where
  pub adapters : ExecutionProvider → ExecutionAdapter D W
  pub live_trading_enabled : Bool

module _ {D W : Type 0} (s : ExecutionService D W) (bot : Bot D) where
  -- `none` is the error that live trading is disabled
  unfoldable pub get_adapter : Option (ExecutionAdapter D W)
  get_adapter =
      if not (is_live bot.mode)
      then some (s.adapters paper_provider)
      else if not s.live_trading_enabled
      then none
      else some (s.adapters bot.execution_provider)

  abbrev pub with_adapter :
      {A : Type 0}
      → Option (ExecutionAdapter D W)
      → (ExecutionAdapter D W → Answer W A)
      → W
      → Answer W A
  with_adapter none use_it w = rejected live_disabled w
  with_adapter (some a) use_it w = use_it a

  unfoldable pub service_quote : String → String → D → D → W → Answer W (ExecutionQuote D)
  service_quote input output amount slippage w =
      with_adapter get_adapter (λ a. a.get_quote input output amount slippage w) w

  unfoldable pub service_estimate : ExecuteSwapParams D → W → Answer W (ExecutionEstimate D)
  service_estimate p w = with_adapter get_adapter (λ a. a.estimate_execution p w) w

  abbrev pub or_estimate :
      Option (ExecuteSwapParams D → W → Answer W (ExecutionEstimate D))
      → ExecutionAdapter D W
      → ExecuteSwapParams D
      → W
      → Answer W (ExecutionEstimate D)
  or_estimate none a p w = a.estimate_execution p w
  or_estimate (some prepare) a p w = prepare p w

  unfoldable pub service_prepare : ExecuteSwapParams D → W → Answer W (ExecutionEstimate D)
  service_prepare p w = with_adapter get_adapter (λ a. or_estimate a.prepare_execution a p w) w

  unfoldable pub service_swap : ExecuteSwapParams D → W → Answer W (ExecutionReport D)
  service_swap p w = with_adapter get_adapter (λ a. a.execute_swap p w) w

  abbrev pub or_swap :
      Option (ExecutionEstimate D)
      → Option (
          ExecuteSwapParams D
          → ExecutionEstimate D
          → Option (ExecutionReport D)
          → W
          → Answer W (ExecutionReport D))
      → Option (ExecutionReport D)
      → ExecutionAdapter D W
      → ExecuteSwapParams D
      → W
      → Answer W (ExecutionReport D)
  or_swap (some prepared) (some execute) previous a p w = execute p prepared previous w
  or_swap _ _ previous a p w = a.execute_swap p w

  unfoldable pub service_prepared_swap :
      ExecuteSwapParams D
      → Option (ExecutionEstimate D)
      → Option (ExecutionReport D)
      → W
      → Answer W (ExecutionReport D)
  service_prepared_swap p prepared previous w =
      with_adapter get_adapter (λ a. or_swap prepared a.execute_prepared_swap previous a p w) w
