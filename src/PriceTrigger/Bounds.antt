-- ===== src/PriceTrigger/Bounds.antt =====
-- packages/core/src/utils/price-trigger.ts: what the tolerance of the trigger admits.
use grid_bot.Common.{◌≡◌, Bool, true}
use grid_bot.Float.{Float, IsIeee}
use grid_bot.PriceTrigger.{price_confirms_trigger}
use grid_bot.Domain.{TradeSide, buy, sell}

module _ {D : Type 0} ⦃f : Float D⦄ where
  -- A buy waits for the price to fall to its rail, a sell for it to rise.
  abbrev pub has_reached : TradeSide → D → D → Bool
  has_reached buy level price = f.le price level
  has_reached sell level price = f.le level price

  module _ (laws : IsIeee D) where
    open laws use {decimal_nonneg, add_grows, sub_falls, le_trans}

    -- A finite rail that the price has reached or passed always confirms its signal: the price is at
    -- or below it for a buy, at or above it for a sell.
    pub price_confirms_trigger-reached :
        (side : TradeSide) (level price : D)
        → f.is_finite level ≡ true
        → has_reached side level price ≡ true
        → price_confirms_trigger side level price ≡ true
    unfolding price_confirms_trigger
    price_confirms_trigger-reached buy level price fin h =
        le_trans price level _ h (add_grows level _ fin (decimal_nonneg 5 3))
    price_confirms_trigger-reached sell level price fin h =
        le_trans _ level price (sub_falls level _ fin (decimal_nonneg 5 3)) h
