-- ===== src/Execution/Paper.antt =====
-- packages/core/src/adapters/paper-execution-adapter.ts: fills at the reference price, less slippage.
use grid_bot.Common.{
  ℕ, Bool, true, false, not, ◌&&◌, Option, none, some, List, [], ◌∷◌, String, if◌then◌else◌,
}
use grid_bot.Float.{Float, num, ◌⊗◌, ◌⊖◌, ◌⊘◌, ◌≼◌}
use grid_bot.Host.{◌===◌, ◌<>◌}
use grid_bot.Domain.{
  ExecutionQuote, ExecutionEstimate, ExecutionReport, ExecuteSwapParams, TradeSide, buy,
  paper_provider, simulated, paper_quote, paper_estimate, paper_report,
}
use grid_bot.Execution.Adapter.{
  ExecutionAdapter, Answer, resolved, rejected, reference_price_required,
}

-- `reports`: the map by execution id, the latest entry first
abbrev pub Reports : Type 0 → Type 0
Reports D = List (String × ExecutionReport D)

pub record PaperFill (D : Type 0) : Type 0 where
  pub output_amount : D
  pub effective_price : D
  pub fee_amount : D

abbrev pub is_buy_side : Option TradeSide → Bool
is_buy_side (some buy) = true
is_buy_side _ = false

abbrev pub lookup_report : {D : Type 0} → String → Reports D → Option (ExecutionReport D)
lookup_report id [] = none
lookup_report id ((k, r) ∷ rest) = if k === id then some r else lookup_report id rest

module _ {D : Type 0} ⦃f : Float D⦄ where
  abbrev pub paper_execution_fee_rate : D
  paper_execution_fee_rate = f.decimal 1 3

  abbrev pub round_half_up : D → ℕ → D
  round_half_up value digits =
      let factor = f.pow (num 10) (num digits) in f.nearest (value ⊗ factor) ⊘ factor

  abbrev pub slippage_ratio : ExecuteSwapParams D → D
  slippage_ratio p = num 1 ⊖ p.slippage_bps ⊘ num 10_000

  abbrev pub buy_fill : ExecuteSwapParams D → D → PaperFill D
  buy_fill p price =
      let output = round_half_up (p.amount ⊘ price ⊗ slippage_ratio p) 8 in
      record {
        output_amount = output;
        effective_price = round_half_up (p.amount ⊘ f.max output f.epsilon) 8;
        fee_amount = round_half_up (p.amount ⊗ paper_execution_fee_rate) 8;
      }

  abbrev pub sell_fill : ExecuteSwapParams D → D → PaperFill D
  sell_fill p price =
      let output = round_half_up (p.amount ⊗ price ⊗ slippage_ratio p) 8 in
      record {
        output_amount = output;
        effective_price = round_half_up (output ⊘ f.max p.amount f.epsilon) 8;
        fee_amount = round_half_up (p.amount ⊗ price ⊗ paper_execution_fee_rate) 8;
      }

  -- `!price || price <= 0`: zero and NaN are falsy
  abbrev pub is_priced : D → Bool
  is_priced price = price ≼ price && not (price ≼ num 0)

  -- `none` is the error that it throws
  unfoldable pub calculate_execution : ExecuteSwapParams D → Option D → Option (PaperFill D)
  calculate_execution p none = none
  calculate_execution p (some price) =
      if is_priced price
      then some (if is_buy_side p.trade_side then buy_fill p price else sell_fill p price)
      else none

  unfoldable pub get_quote : String → String → D → D → ExecutionQuote D
  get_quote input output amount slippage = record {
    minimum_output_amount = none;
    provider = paper_provider;
    input_mint = input;
    output_mint = output;
    input_amount = amount;
    expected_output_amount = amount ⊗ (num 1 ⊖ slippage ⊘ num 10_000);
    estimated_fee_amount = amount ⊗ paper_execution_fee_rate;
    native_fee_amount = none;
    native_fee_symbol = none;
    price_impact_pct = slippage ⊘ num 10_000;
    request_id = none;
    expires_at = none;
    route = none;
    raw_quote = some paper_quote;
  }

  abbrev pub estimate_of : ExecuteSwapParams D → PaperFill D → ExecutionEstimate D
  estimate_of p x = record {
    quote = record {
      minimum_output_amount = none;
      provider = paper_provider;
      input_mint = p.input_mint;
      output_mint = p.output_mint;
      input_amount = p.amount;
      expected_output_amount = x.output_amount;
      estimated_fee_amount = x.fee_amount;
      native_fee_amount = none;
      native_fee_symbol = none;
      price_impact_pct = p.slippage_bps ⊘ num 10_000;
      request_id = none;
      expires_at = none;
      route = none;
      raw_quote = some (paper_estimate p.reference_price);
    };
    expected_price = x.effective_price;
  }

  abbrev pub execution_id_of : ExecuteSwapParams D → String
  execution_id_of p = "paper-" <> p.client_order_id

  -- `at`: `new Date().toISOString()`
  abbrev pub report_of : String → ExecuteSwapParams D → PaperFill D → ExecutionReport D
  report_of at p x = record {
    provider = paper_provider;
    status = simulated;
    execution_id = execution_id_of p;
    tx_id = some (execution_id_of p);
    input_amount = p.amount;
    output_amount = x.output_amount;
    effective_price = x.effective_price;
    fee_amount = x.fee_amount;
    native_fee_amount = none;
    native_fee_symbol = none;
    raw_report = some (paper_report at p.reference_price);
  }

  abbrev pub answer_estimate :
      ExecuteSwapParams D
      → Option (PaperFill D)
      → Reports D
      → Answer (Reports D) (ExecutionEstimate D)
  answer_estimate p none w = rejected reference_price_required w
  answer_estimate p (some x) w = resolved (estimate_of p x) w

  abbrev pub answer_swap :
      String
      → ExecuteSwapParams D
      → Option (PaperFill D)
      → Reports D
      → Answer (Reports D) (ExecutionReport D)
  answer_swap at p none w = rejected reference_price_required w
  answer_swap at p (some x) w =
      resolved (report_of at p x) ((execution_id_of p, report_of at p x) ∷ w)

  unfoldable pub estimate_execution :
      ExecuteSwapParams D → Reports D → Answer (Reports D) (ExecutionEstimate D)
  estimate_execution p w = answer_estimate p (calculate_execution p p.reference_price) w

  unfoldable pub execute_swap :
      String → ExecuteSwapParams D → Reports D → Answer (Reports D) (ExecutionReport D)
  execute_swap at p w = answer_swap at p (calculate_execution p p.reference_price) w

  unfoldable pub get_execution_report :
      String → Reports D → Answer (Reports D) (Option (ExecutionReport D))
  get_execution_report id w = resolved (lookup_report id w) w

  abbrev pub paper_adapter : String → ExecutionAdapter D (Reports D)
  paper_adapter at = record {
    get_quote =
        λ input output amount slippage w. resolved (get_quote input output amount slippage) w;
    estimate_execution = estimate_execution;
    prepare_execution = none;
    execute_swap = execute_swap at;
    execute_prepared_swap = none;
    get_execution_report = λ id prepared w. get_execution_report id w;
  }
