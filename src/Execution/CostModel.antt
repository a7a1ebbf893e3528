-- ===== src/Execution/CostModel.antt =====
-- packages/core/src/services/execution-cost-model-service.ts: the fill that a replay assumes at a rail.
use grid_bot.Common.{not, ◌&&◌, Option, none, some, if◌then◌else◌, or_else}
use grid_bot.Float.{Float, num, ◌⊕◌, ◌⊗◌, ◌⊖◌, ◌⊘◌, ◌≼◌}
use grid_bot.Domain.{TradeSide, is_buy}
use grid_bot.PriceTrigger.{round}

pub record CostModelInput (D : Type 0) : Type 0 where
  pub side : TradeSide
  pub level_price : D
  pub requested_quote_amount : Option D
  pub requested_base_amount : Option D
  pub max_slippage_bps : D
  pub execution_fee_bps : Option D

pub record CostModelReport (D : Type 0) : Type 0 where
  pub side : TradeSide
  pub fill_price : D
  pub input_amount : D
  pub output_amount : D
  pub fee_amount : D
  pub max_slippage_bps : D
  pub execution_fee_bps : D

module _ {D : Type 0} ⦃f : Float D⦄ where
  abbrev pub default_execution_fee_bps : D
  default_execution_fee_bps = num 10

  -- `none` is the error that it throws
  unfoldable pub assert_positive : Option D → Option D
  assert_positive none = none
  assert_positive (some v) = if f.is_finite v && not (v ≼ num 0) then some v else none

  abbrev pub slippage_of : CostModelInput D → D
  slippage_of i = f.max (num 0) i.max_slippage_bps

  abbrev pub fee_bps_of : CostModelInput D → D
  fee_bps_of i = f.max (num 0) (or_else i.execution_fee_bps default_execution_fee_bps)

  abbrev pub fill_price_of : CostModelInput D → D → D
  fill_price_of i level =
      if is_buy i.side
      then round (level ⊗ (num 1 ⊕ slippage_of i ⊘ num 10_000)) 8
      else round (level ⊗ (num 1 ⊖ slippage_of i ⊘ num 10_000)) 8

  abbrev pub bought_report : CostModelInput D → D → D → CostModelReport D
  bought_report i price input = record {
    side = i.side;
    fill_price = price;
    input_amount = input;
    output_amount = round (input ⊘ price) 8;
    fee_amount = round (input ⊗ fee_bps_of i ⊘ num 10_000) 8;
    max_slippage_bps = slippage_of i;
    execution_fee_bps = fee_bps_of i;
  }

  abbrev pub sold_report : CostModelInput D → D → D → CostModelReport D
  sold_report i price input =
      let output = round (input ⊗ price) 8 in
      record {
        side = i.side;
        fill_price = price;
        input_amount = input;
        output_amount = output;
        fee_amount = round (output ⊗ fee_bps_of i ⊘ num 10_000) 8;
        max_slippage_bps = slippage_of i;
        execution_fee_bps = fee_bps_of i;
      }

  abbrev pub with_amount : (D → CostModelReport D) → Option D → Option (CostModelReport D)
  with_amount report none = none
  with_amount report (some amount) = some (report amount)

  abbrev pub simulate_at : CostModelInput D → Option D → Option (CostModelReport D)
  simulate_at i none = none
  simulate_at i (some level) =
      if is_buy i.side
      then with_amount (bought_report i (fill_price_of i level))
          (assert_positive i.requested_quote_amount)
      else with_amount (sold_report i (fill_price_of i level))
          (assert_positive i.requested_base_amount)

  unfoldable pub simulate : CostModelInput D → Option (CostModelReport D)
  simulate i = simulate_at i (assert_positive (some i.level_price))
