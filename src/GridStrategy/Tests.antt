-- ===== src/GridStrategy/Tests.antt =====
-- packages/core/src/services/grid-strategy-service.ts: runs on a small grid, and the theorems there.
use grid_bot.Common.{pos, ◌≡◌, refl, some, [], ◌∷◌, Memᴰ, length, All}
use grid_bot.Float.Fixed.{Fixed, fixed_float, Fixed-IsIeee}
use grid_bot.Host.Binary.{binary, read, write}
use grid_bot.Domain.{buy, sell, arithmetic, PositionLot, OrderIntent, created}
use grid_bot.Samples.{usd, cents, cut, bot, signal, grid, buy_order}
use grid_bot.PriceTrigger.{price_move_touches_level}
use grid_bot.GridStrategy.Levels.{calculate_levels, detect_crossed_levels}
use grid_bot.GridStrategy.Intent.{build_order_intent}
use grid_bot.GridStrategy.Rails.{detect_crossed_levels-IsCrossing, IsCrossing}
use grid_bot.GridStrategy.Profit.{build_order_intent-IsProfitableOrder, IsProfitableOrder}
use grid_bot.GridStrategy.Entry.{build_order_intent-IsGuardedEntry, IsGuardedEntry}

five_rails : calculate_levels (usd 100) (usd 140) 5 arithmetic ≡ some grid
unfolding calculate_levels
five_rails = refl

abbrev sell_order : OrderIntent Fixed
sell_order = record {
  bot_id = "b";
  order_key = "k";
  side = sell;
  level_index = 2;
  target_price = usd 120;
  requested_base_amount = some (pos 95_728_918);
  requested_quote_amount = cents 11583;
  status = created;
  reason = "balanced: sell level 11";
  matched_lot_ids = some ("lot-1" ∷ []);
}

detect_crossed_levels-IsCrossing_example :
    All (IsCrossing grid (usd 105) (usd 125) 7) (detect_crossed_levels grid (usd 105) (usd 125) 7)
    × (length (detect_crossed_levels grid (usd 105) (usd 125) 7) ≡ 2)
unfolding detect_crossed_levels price_move_touches_level
detect_crossed_levels-IsCrossing_example =
    detect_crossed_levels-IsCrossing grid (usd 105) (usd 125) 7

build_order_intent-IsProfitableOrder_example :
    (l : PositionLot Fixed) × Memᴰ l bot.open_lots × IsProfitableOrder bot l (usd 121) sell_order
unfolding build_order_intent read write
build_order_intent-IsProfitableOrder_example =
    build_order_intent-IsProfitableOrder binary cut bot (signal sell 2 120 121) sell_order refl refl

build_order_intent-IsGuardedEntry_example :
    IsGuardedEntry binary bot (signal buy 0 100 99) buy_order
unfolding build_order_intent read write
build_order_intent-IsGuardedEntry_example =
    build_order_intent-IsGuardedEntry binary cut Fixed-IsIeee bot (signal buy 0 100 99) buy_order
      refl refl
