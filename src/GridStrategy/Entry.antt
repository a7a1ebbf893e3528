-- ===== src/GridStrategy/Entry.antt =====
-- packages/core/src/services/grid-strategy-service.ts: what a buy intent has passed.
use grid_bot.Common.{
  ◌+◌, ◌-◌, ◌<◌, ◌≡◌, ◌≢◌, ap, true, false, Option, none, some, arith, All, any-false, if-true, max,
}
use grid_bot.Float.{Float, IsIeee, num, ◌⊖◌, ◌⊘◌, ◌≺◌}
use grid_bot.Host.{Host}
use grid_bot.Domain.{
  is_buy, buy, active, sell_only, TriggerSignal, OrderIntent, BotAggregate, BandExecutionContext,
}
use grid_bot.PriceTrigger.{round}
use grid_bot.PortfolioPolicy.{blocks_duplicate_entry}
use grid_bot.GridStrategy.Levels.{is_executable_level}
use grid_bot.GridStrategy.Lots.{is_open_lot_sellable, get_active_grid_cycles, is_buy_level_occupied}
use grid_bot.GridStrategy.Sizing.{Decimals}
use grid_bot.GridStrategy.Intent.{
  available_quote, blocks_capital, room_in, buy_intent, grid_intent, intent_in, build_order_intent,
}

module _ {D : Type 0} ⦃f : Float D⦄ where
  abbrev pub spendable : BotAggregate D → D
  spendable bot = available_quote bot ⊖ bot.config.reserve_quote_amount

  -- A band takes new entries only while it is active, is not blocked, and no open lot stands within half
  -- a spacing of the rail; without a band, the rail must not belong to a cycle that is open.
  abbrev pub HasRoom :
      Host → BotAggregate D → TriggerSignal D → Option (BandExecutionContext D) → Type 0
  HasRoom h bot signal none =
      is_buy_level_occupied h (get_active_grid_cycles bot) signal.level_index ≡ false
  HasRoom h bot signal (some context) =
      (context.band.status ≡ active)
      × (blocks_capital context.capital_blocked_reason ≡ false)
      × All
          (λ l.
            blocks_duplicate_entry (record {
              old_entry_price = l.entry_price;
              current_price = signal.level_price;
              wider_spacing =
                  (bot.config.high_price ⊖ bot.config.low_price) ⊘ num (bot.config.level_count - 1);
              open_trading_lot = is_open_lot_sellable l;
            })
            ≡ false)
          bot.open_lots

  pub record IsGuardedEntry (h : Host) (bot : BotAggregate D) (signal : TriggerSignal D)
      (o : OrderIntent D) : Type 0 where
    pub buys : o.side ≡ buy
    pub may_enter : bot.config.entry_mode ≢ some sell_only
    pub in_grid : signal.level_index + 1 < bot.config.level_count
    pub has_room : HasRoom h bot signal bot.portfolio
    pub funded : (spendable bot ≺ bot.config.min_order_quote_amount) ≡ false
    pub capped :
        f.le o.requested_quote_amount o.requested_quote_amount ≡ true
        → f.le o.requested_quote_amount (round (spendable bot) 2) ≡ true

module _ {D : Type 0} ⦃f : Float D⦄ (h : Host) (dec : Decimals D) where
  room_in-HasRoom :
      (bot : BotAggregate D) (signal : TriggerSignal D) (context : Option (BandExecutionContext D))
      → room_in h dec bot signal context ≡ true
      → HasRoom h bot signal context
  unfolding room_in
  room_in-HasRoom bot signal none e = ground arith
  room_in-HasRoom bot signal (some context) e =
      (ground arith, ground arith, any-false _ _ (ground arith))

  buy_intent-IsGuardedEntry :
      (laws : IsIeee D) (bot : BotAggregate D) (signal : TriggerSignal D) (o : OrderIntent D)
      → signal.level_index + 1 < bot.config.level_count
      → buy_intent h dec bot signal ≡ some o
      → IsGuardedEntry h bot signal o
  unfolding buy_intent
  buy_intent-IsGuardedEntry laws bot signal o i e =
      let c = bot.config in
      let target = round (c.max_deployable_usd ⊘ num (max 1 (c.level_count - 1))) 2 in
      let requested = f.max target c.min_order_quote_amount in
      record {
        buys = ground arith;
        may_enter = λ n. ground arith;
        in_grid = i;
        has_room = room_in-HasRoom bot signal bot.portfolio (ground arith);
        funded = ground arith;
        capped = λ q. ground (arith, laws.min_le requested (round (spendable bot) 2));
      }

  grid_intent-IsGuardedEntry :
      (laws : IsIeee D) (bot : BotAggregate D) (signal : TriggerSignal D) (o : OrderIntent D)
      → signal.side ≡ buy
      → grid_intent h dec bot signal ≡ some o
      → IsGuardedEntry h bot signal o
  unfolding grid_intent is_executable_level
  grid_intent-IsGuardedEntry laws bot signal o s e =
      buy_intent-IsGuardedEntry laws bot signal o (ground arith) (ground arith)

  intent_in-IsGuardedEntry :
      (laws : IsIeee D) (bot : BotAggregate D) (signal : TriggerSignal D)
      (context : Option (BandExecutionContext D)) (o : OrderIntent D)
      → signal.side ≡ buy
      → intent_in h dec bot signal context ≡ some o
      → IsGuardedEntry h bot signal o
  unfolding intent_in
  intent_in-IsGuardedEntry laws bot signal none o s e =
      grid_intent-IsGuardedEntry laws bot signal o s e
  intent_in-IsGuardedEntry laws bot signal (some context) o s e =
      grid_intent-IsGuardedEntry laws bot signal o s
        (if-true (is_buy signal.side) _ _ (ap is_buy s) e)

  -- A buy intent has passed every guard: the bot may enter, the rail is executable and has room, the
  -- quote above the reserve reaches the minimal order, and if the requested amount is a number, it is
  -- at most that quote, rounded to cents.
  pub build_order_intent-IsGuardedEntry :
      (laws : IsIeee D) (bot : BotAggregate D) (signal : TriggerSignal D) (o : OrderIntent D)
      → signal.side ≡ buy
      → build_order_intent h dec bot signal ≡ some o
      → IsGuardedEntry h bot signal o
  unfolding build_order_intent
  build_order_intent-IsGuardedEntry laws bot signal o s e =
      intent_in-IsGuardedEntry laws bot signal bot.portfolio o s e
