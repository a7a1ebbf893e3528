-- ===== src/GridStrategy/Sizing.antt =====
-- packages/core/src/services/grid-strategy-service.ts: how much of a lot a sell asks for.
use grid_bot.Common.{
  ℕ, not, ◌&&◌, ◌||◌, Option, none, some, List, [], ◌∷◌, String, if◌then◌else◌, or_else,
}
use grid_bot.Float.{Float, num, ◌⊕◌, ◌⊖◌, ◌⊗◌, ◌⊘◌, ◌≼◌}
use grid_bot.Execution.Paper.{paper_execution_fee_rate}
use grid_bot.Domain.{
  StrategyMode, accumulate_base, accumulate_usdc, balanced, PositionLot, BotAggregate, is_live,
  same_strategy,
}
use grid_bot.PriceTrigger.{round}
use grid_bot.GridStrategy.Lots.{is_open_lot_sellable}

-- The decimal.js package: `truncate x d` is the decimal expansion of `x` cut after `d` decimals.
pub record Decimals (D : Type 0) : Type 0 where
  pub truncate : D → ℕ → D

pub record SellPlan (D : Type 0) : Type 0 where
  pub requested_base_amount : D
  pub requested_quote_amount : D
  pub matched_lot_ids : List String

module _ {D : Type 0} ⦃f : Float D⦄ where
  unfoldable pub get_target_quote_amount : StrategyMode → D → D → D
  get_target_quote_amount accumulate_base cost notional = round cost 8
  get_target_quote_amount accumulate_usdc cost notional = round notional 8
  get_target_quote_amount balanced cost notional = round (cost ⊕ (notional ⊖ cost) ⊘ num 2) 8

  -- `Math.min(0.99, Math.max(0, bps) / 10_000)`
  abbrev pub capped_ratio : D → D
  capped_ratio bps = f.min (f.decimal 99 2) (f.max (num 0) bps ⊘ num 10000)

  unfoldable pub net_ratio : BotAggregate D → D
  net_ratio bot =
      let slippage = capped_ratio bot.config.max_slippage_bps in
      if is_live bot.bot.mode
      then (num 1 ⊖ slippage)
        ⊗ (num 1 ⊖ capped_ratio (or_else bot.config.execution_fee_bps (num 0)))
      else num 1 ⊖ slippage ⊖ paper_execution_fee_rate

  unfoldable pub recovery_price : BotAggregate D → D → D
  recovery_price bot execution_price =
      if same_strategy bot.bot.strategy_mode accumulate_usdc
      then execution_price
      else execution_price ⊗ net_ratio bot

  -- The sell of a live bot that accumulates the base: the whole lot, in atoms.
  abbrev pub whole_lot_plan : Decimals D → BotAggregate D → PositionLot D → D → Option (SellPlan D)
  whole_lot_plan dec bot lot execution_price =
      let requested = dec.truncate lot.remaining_base_amount bot.bot.base_decimals in
      let notional = round (requested ⊗ execution_price) 8 in
      if requested ≼ num 0 || notional ≼ lot.cost_quote
      then none
      else some (record {
        requested_base_amount = requested;
        requested_quote_amount = round (requested ⊗ execution_price) 2;
        matched_lot_ids = lot.id ∷ [];
      })

  abbrev pub recovering_plan : BotAggregate D → PositionLot D → D → Option (SellPlan D)
  recovering_plan bot lot execution_price =
      let price = recovery_price bot execution_price in
      let notional = round (lot.remaining_base_amount ⊗ price) 8 in
      let target = get_target_quote_amount bot.bot.strategy_mode lot.cost_quote notional in
      let requested =
        f.min lot.remaining_base_amount
          (f.ceil (target ⊘ price ⊗ num 100_000_000) ⊘ num 100_000_000) in
      let quote = round (requested ⊗ execution_price) 2 in
      if notional ≼ lot.cost_quote
      then none
      else if requested ≼ num 0 || quote ≼ num 0
      then none
      else some (record {
        requested_base_amount = requested;
        requested_quote_amount = quote;
        matched_lot_ids = lot.id ∷ [];
      })

  unfoldable pub build_sell_plan_from_lot :
      Decimals D → BotAggregate D → PositionLot D → D → Option (SellPlan D)
  unfolding is_open_lot_sellable recovery_price net_ratio get_target_quote_amount
  build_sell_plan_from_lot dec bot lot execution_price =
      if not (is_open_lot_sellable lot)
      then none
      else if is_live bot.bot.mode && same_strategy bot.bot.strategy_mode accumulate_base
      then whole_lot_plan dec bot lot execution_price
      else recovering_plan bot lot execution_price
