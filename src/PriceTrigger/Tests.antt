-- ===== src/PriceTrigger/Tests.antt =====
-- packages/core/src/utils/price-trigger.ts: a price just below a rail.
use grid_bot.Common.{◌≡◌, refl, true}
use grid_bot.Float.Fixed.{fixed_float, Fixed-IsIeee}
use grid_bot.Domain.{buy}
use grid_bot.Samples.{usd}
use grid_bot.PriceTrigger.{price_confirms_trigger}
use grid_bot.PriceTrigger.Bounds.{price_confirms_trigger-reached}

price_confirms_trigger-reached_example : price_confirms_trigger buy (usd 110) (usd 109) ≡ true
price_confirms_trigger-reached_example =
    price_confirms_trigger-reached Fixed-IsIeee buy (usd 110) (usd 109) refl refl
