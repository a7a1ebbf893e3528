-- ===== src/Execution/Tests.antt =====
-- packages/core/src/adapters/paper-execution-adapter.ts and services/execution-service.ts: a paper buy.
use grid_bot.Common.{◌≡◌, refl, true, false, Option, none, some, [], String, ◌⊎◌}
use grid_bot.Host.{◌===◌}
use grid_bot.Float.Fixed.{Fixed, fixed_float}
use grid_bot.Samples.{bot_record, usd, cents}
use grid_bot.Domain.{
  Bot, ExecutionEstimate, ExecutionReport, ExecuteSwapParams, buy, live, jupiter, dflow,
  paper_provider,
}
use grid_bot.Execution.Adapter.{
  ExecutionAdapter, ExecutionError, resolved, rejected, live_disabled, reference_price_required,
  provider_error,
}
use grid_bot.Execution.Paper.{
  Reports, PaperFill, paper_adapter, execute_swap, estimate_execution, get_execution_report,
  lookup_report, calculate_execution,
}
use grid_bot.Execution.Service.{
  ExecutionService, service_quote, service_estimate, service_prepare, service_swap,
  service_prepared_swap,
}
use grid_bot.Execution.CostModel.{CostModelInput, CostModelReport, simulate, assert_positive}
use grid_bot.Execution.Records.{execute_swap-recorded, estimate_execution-agrees}
use grid_bot.Execution.Isolation.{AreSame, paper-isolated, live-refused}

abbrev order : ExecuteSwapParams Fixed
order = record {
  bot_id = "b";
  input_mint = "usdc";
  output_mint = "sol";
  amount = usd 50;
  trade_side = some buy;
  input_decimals = 6;
  output_decimals = 9;
  slippage_bps = usd 50;
  execution_policy = none;
  native_fee_policy = none;
  client_order_id = "o1";
  wallet_public_key = none;
  reference_price = some (usd 100);
}

-- half a unit at 100, less half a percent
abbrev filled : Option Fixed
filled = some (fixed_float.decimal 4975 4)

output_of : Option (PaperFill Fixed) → Option Fixed
output_of none = none
output_of (some x) = some x.output_amount

fills_half : output_of (calculate_execution order order.reference_price) ≡ filled
unfolding output_of calculate_execution
fills_half = refl

abbrev unpriced : ExecuteSwapParams Fixed
unpriced = record order { reference_price = none }

needs_price : execute_swap "now" unpriced [] ≡ rejected reference_price_required []
unfolding execute_swap calculate_execution
needs_price = refl

abbrev broken : ExecutionAdapter Fixed (Reports Fixed)
broken = record (paper_adapter "now") { execute_swap = λ p w. rejected (provider_error "down") w }

abbrev paper_only : ExecutionService Fixed (Reports Fixed)
paper_only = record { adapters = λ p. paper_adapter "now"; live_trading_enabled = false }

abbrev mixed : ExecutionService Fixed (Reports Fixed)
mixed = record {
  adapters =
      λ p. elim p [ paper_provider ↦ paper_adapter "now" | jupiter ↦ broken | dflow ↦ broken ];
  live_trading_enabled = true;
}

paper-isolated_example : AreSame paper_only mixed bot_record
paper-isolated_example = paper-isolated paper_only mixed bot_record refl refl

abbrev live_bot : Bot Fixed
live_bot = record bot_record { mode = live; execution_provider = jupiter }

live-refused_example :
    ((input output : String) (amount slippage : Fixed) (w : Reports Fixed)
      → service_quote paper_only live_bot input output amount slippage w ≡ rejected live_disabled w)
    × ((p : ExecuteSwapParams Fixed) (w : Reports Fixed)
        → service_estimate paper_only live_bot p w ≡ rejected live_disabled w)
    × ((p : ExecuteSwapParams Fixed) (w : Reports Fixed)
        → service_prepare paper_only live_bot p w ≡ rejected live_disabled w)
    × ((p : ExecuteSwapParams Fixed) (w : Reports Fixed)
        → service_swap paper_only live_bot p w ≡ rejected live_disabled w)
    × ((p : ExecuteSwapParams Fixed) (e : Option (ExecutionEstimate Fixed))
          (r : Option (ExecutionReport Fixed)) (w : Reports Fixed)
        → service_prepared_swap paper_only live_bot p e r w ≡ rejected live_disabled w)
live-refused_example = live-refused paper_only live_bot refl refl

execute_swap-recorded_example :
    ((r : ExecutionReport Fixed) × (w' : Reports Fixed) × (execute_swap "now" order []
        ≡ resolved r w')
      × (get_execution_report r.execution_id w' ≡ resolved (some r) w')
      × ((id : String)
          → (r.execution_id === id) ≡ false
          → lookup_report id w' ≡ lookup_report id []))
    ⊎ ((e : ExecutionError) × (execute_swap "now" order [] ≡ rejected e []))
execute_swap-recorded_example = execute_swap-recorded "now" order []

estimate_execution-agrees_example :
    ((e : ExecutionEstimate Fixed) × (r : ExecutionReport Fixed) × (w' : Reports Fixed)
      × (estimate_execution order [] ≡ resolved e [])
      × (execute_swap "now" order [] ≡ resolved r w')
      × (e.quote.expected_output_amount ≡ r.output_amount)
      × (e.quote.estimated_fee_amount ≡ r.fee_amount)
      × (e.expected_price ≡ r.effective_price))
    ⊎ ((x : ExecutionError) × (estimate_execution order [] ≡ rejected x [])
        × (execute_swap "now" order [] ≡ rejected x []))
estimate_execution-agrees_example = estimate_execution-agrees "now" order []

-- A buy at the rail 100 with half a percent of slippage fills at 100.5.
abbrev rail : CostModelInput Fixed
rail = record {
  side = buy;
  level_price = usd 100;
  requested_quote_amount = some (usd 50);
  requested_base_amount = none;
  max_slippage_bps = usd 50;
  execution_fee_bps = none;
}

price_of : Option (CostModelReport Fixed) → Option Fixed
price_of none = none
price_of (some r) = some r.fill_price

simulates : price_of (simulate rail) ≡ some (cents 10_050)
unfolding price_of simulate assert_positive
simulates = refl
