-- ===== src/PriceTrigger.antt =====
-- packages/core/src/utils/price-trigger.ts and math.ts: when a price touches a rail.
pub mod Bounds
mod Tests
use grid_bot.Common.{ℕ, Bool, ◌&&◌, if◌then◌else◌}
use grid_bot.Float.{Float, ◌⊕◌, ◌⊖◌, ◌≼◌}
use grid_bot.Domain.{TradeSide, is_buy}

module _ {D : Type 0} ⦃f : Float D⦄ where
  abbrev pub round : D → ℕ → D
  round value precision = f.to_fixed value precision

  unfoldable pub clamp : D → D → D → D
  clamp value lo hi = f.min (f.max value lo) hi

abbrev pub display_price_trigger_epsilon : {D : Type 0} ⦃f : Float D⦄ → D
display_price_trigger_epsilon ⦃f⦄ = f.decimal 5 3

module _ {D : Type 0} ⦃f : Float D⦄ where
  unfoldable pub price_confirms_trigger : TradeSide → D → D → Bool
  price_confirms_trigger side level_price current_price =
      if is_buy side
      then current_price ≼ level_price ⊕ display_price_trigger_epsilon
      else level_price ⊖ display_price_trigger_epsilon ≼ current_price

  unfoldable pub price_move_touches_level : D → D → D → Bool
  price_move_touches_level level_price previous_price current_price =
      let lower = f.min previous_price current_price ⊖ display_price_trigger_epsilon in
      let upper = f.max previous_price current_price ⊕ display_price_trigger_epsilon in
      lower ≼ level_price && level_price ≼ upper
