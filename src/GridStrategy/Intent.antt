-- ===== src/GridStrategy/Intent.antt =====
-- packages/core/src/services/grid-strategy-service.ts: `buildOrderIntent` and the choice of its lot.
use grid_bot.Common.{
  ℕ, ◌+◌, ◌-◌, Bool, false, not, ◌&&◌, Option, none, some, List, [], String, keep, find, any, first,
  sort_by, map, if◌then◌else◌, ltb, ◌==◌, or_else, or_option, max, is_none,
}
use grid_bot.Float.{Float, num, ◌⊖◌, ◌⊘◌, ◌≺◌, ◌≈◌}
use grid_bot.Host.{Host, ◌===◌, ◌<>◌, same_text}
use grid_bot.Domain.{
  EntryMode, BotStateSnapshot, StrategyMode, accumulate_base, accumulate_usdc, balanced, buy, sell,
  created, TriggerSignal, OrderIntent, GridLevel, GridCycle, PositionLot, BotAggregate,
  BandExecutionContext, LotExitCommitmentRecord, is_buy, is_sell_only, is_known, is_active,
  same_strategy,
}
use grid_bot.PriceTrigger.{round}
use grid_bot.PortfolioPolicy.{blocks_duplicate_entry}
use grid_bot.GridStrategy.Levels.{calculate_levels, is_executable_level}
use grid_bot.GridStrategy.Lots.{
  is_open_lot_sellable, get_active_grid_cycles, infer_grid_cycle_for_lot, is_buy_level_occupied,
  contains,
}
use grid_bot.GridStrategy.Sizing.{Decimals, SellPlan, build_sell_plan_from_lot}

abbrev pub strategy_text : StrategyMode → String
strategy_text accumulate_base = "accumulate_base"
strategy_text accumulate_usdc = "accumulate_usdc"
strategy_text balanced = "balanced"

abbrev pub same_index : Option ℕ → ℕ → Bool
same_index none i = false
same_index (some j) i = j == i

-- The order of `new Date(a).getTime() - new Date(b).getTime()`; a difference that is NaN keeps the order.
abbrev pub earlier : Option ℕ → Option ℕ → Bool
earlier (some a) (some b) = ltb a b
earlier _ _ = false

abbrev pub enters_no_more : Option EntryMode → Bool
enters_no_more none = false
enters_no_more (some m) = is_sell_only m

-- the truth of `capitalBlockedReason`; an empty text is false
abbrev pub blocks_capital : Option String → Bool
blocks_capital none = false
blocks_capital (some reason) = not (reason === "")

module _ {D : Type 0} where
  abbrev pub quote_in : D → Option (BotStateSnapshot D) → D
  quote_in budget none = budget
  quote_in budget (some s) = s.available_quote_amount

  abbrev pub available_quote : BotAggregate D → D
  available_quote bot = quote_in bot.config.total_budget_usd bot.latest_state

  abbrev pub order_prefix : Option (BandExecutionContext D) → String → String
  order_prefix none key = key
  order_prefix (some context) key = context.band.active_revision.id <> (":" <> key)

module _ {D : Type 0} ⦃f : Float D⦄ (h : Host) (dec : Decimals D) where
  abbrev pub lot_of_cycle : BotAggregate D → Option (GridCycle D) → Option (PositionLot D)
  lot_of_cycle bot none = none
  lot_of_cycle bot (some cycle) =
      find (λ lot. lot.id === cycle.lot_id && is_open_lot_sellable lot) bot.open_lots

  -- The cycle that is due at a rail, the earliest first, and its lot.
  unfoldable pub find_cycle_matched_sell_lot : BotAggregate D → ℕ → Option (PositionLot D)
  unfolding get_active_grid_cycles
  find_cycle_matched_sell_lot bot index =
      let due =
        sort_by (λ a b. earlier (h.parse_date a.opened_at) (h.parse_date b.opened_at))
          (keep (λ c. same_index c.sell_level_index index)
            (map (λ entry. entry.1) (get_active_grid_cycles bot))) in
      lot_of_cycle bot (first due)

  abbrev pub inferred_at : List (GridLevel D) → ℕ → PositionLot D → Bool
  inferred_at levels index lot = elim (infer_grid_cycle_for_lot h levels lot) [
    | none ↦ false
    | some c ↦ same_index c.sell_level_index index
  ]

  -- The grid has two levels or more here: `buildOrderIntent` has tested the rail before.
  unfoldable pub find_inferred_sell_lot : BotAggregate D → ℕ → Option (PositionLot D)
  unfolding get_active_grid_cycles calculate_levels infer_grid_cycle_for_lot
  find_inferred_sell_lot bot index =
      let c = bot.config in
      let levels =
        or_else (calculate_levels c.low_price c.high_price c.level_count c.grid_type) [] in
      let tracked = map (λ entry. entry.1.lot_id) (get_active_grid_cycles bot) in
      first (
        sort_by (λ l r. ltb l.opened_at r.opened_at)
          (keep (inferred_at levels index) (
            keep (λ lot. not (contains tracked lot.id)) (keep is_open_lot_sellable bot.open_lots))))

  abbrev pub plan_of : BotAggregate D → D → Option (PositionLot D) → Option (SellPlan D)
  plan_of bot execution_price none = none
  plan_of bot execution_price (some lot) = build_sell_plan_from_lot dec bot lot execution_price

  unfoldable pub build_sell_plan : BotAggregate D → ℕ → D → Option (SellPlan D)
  unfolding find_cycle_matched_sell_lot find_inferred_sell_lot build_sell_plan_from_lot
  build_sell_plan bot index execution_price =
      plan_of bot execution_price
        (or_option (find_cycle_matched_sell_lot bot index) (find_inferred_sell_lot bot index))

  abbrev pub sell_intent :
      BotAggregate D → TriggerSignal D → D → String → Option (SellPlan D) → Option (OrderIntent D)
  sell_intent bot signal target reason none = none
  sell_intent bot signal target reason (some plan) = some (record {
    bot_id = bot.bot.id;
    order_key = signal.idempotency_key;
    side = sell;
    level_index = signal.level_index;
    target_price = target;
    requested_base_amount = plan.requested_base_amount;
    requested_quote_amount = plan.requested_quote_amount;
    status = created;
    reason = reason;
    matched_lot_ids = some plan.matched_lot_ids;
  })

  -- the guards of a sell that keeps the exit promised to a lot
  abbrev pub exit_matches : BotAggregate D → TriggerSignal D → LotExitCommitmentRecord D → D → Bool
  exit_matches bot signal exit target =
      is_known exit.target_status
      && (target ≈ signal.level_price
          && (same_strategy exit.economic_rule bot.bot.strategy_mode
              && not (signal.observed_price ≺ signal.level_price)))

  abbrev pub exit_of : BandExecutionContext D → TriggerSignal D → Option (LotExitCommitmentRecord D)
  exit_of context signal =
      find (λ e. same_text signal.exit_lot_id e.lot_id && is_none e.fulfilled_at)
        context.exit_commitments

  abbrev pub exit_lot : BotAggregate D → TriggerSignal D → Option (PositionLot D)
  exit_lot bot signal =
      find (λ l. same_text signal.exit_lot_id l.id && is_open_lot_sellable l) bot.open_lots

  abbrev pub exit_order :
      BotAggregate D
      → TriggerSignal D
      → LotExitCommitmentRecord D
      → PositionLot D
      → Option D
      → Option (OrderIntent D)
  exit_order bot signal exit lot none = none
  exit_order bot signal exit lot (some target) =
      if exit_matches bot signal exit target
      then sell_intent bot signal target
          ("Preserved lot exit from revision " <> exit.origin_revision_id)
          (build_sell_plan_from_lot dec bot lot signal.observed_price)
      else none

  unfoldable pub exit_intent :
      BotAggregate D
      → TriggerSignal D
      → Option (LotExitCommitmentRecord D)
      → Option (PositionLot D)
      → Option (OrderIntent D)
  unfolding build_sell_plan_from_lot
  exit_intent bot signal (some exit) (some lot) =
      exit_order bot signal exit lot exit.sell_target_price
  exit_intent bot signal _ _ = none

  -- may the bot open another position at this rail?
  unfoldable pub room_in : BotAggregate D → TriggerSignal D → Option (BandExecutionContext D) → Bool
  unfolding is_buy_level_occupied get_active_grid_cycles blocks_duplicate_entry is_open_lot_sellable
  room_in bot signal none =
      not (is_buy_level_occupied h (get_active_grid_cycles bot) signal.level_index)
  room_in bot signal (some context) =
      let spacing =
        (bot.config.high_price ⊖ bot.config.low_price) ⊘ num (bot.config.level_count - 1) in
      is_active context.band.status
      && (not (blocks_capital context.capital_blocked_reason)
          && not (
              any
                (λ l. blocks_duplicate_entry (record {
                  old_entry_price = l.entry_price;
                  current_price = signal.level_price;
                  wider_spacing = spacing;
                  open_trading_lot = is_open_lot_sellable l;
                }))
                bot.open_lots))

  unfoldable pub buy_intent : BotAggregate D → TriggerSignal D → Option (OrderIntent D)
  unfolding room_in
  buy_intent bot signal =
      let c = bot.config in
      let target_notional = round (c.max_deployable_usd ⊘ num (max 1 (c.level_count - 1))) 2 in
      let requested = f.max target_notional c.min_order_quote_amount in
      let spendable = available_quote bot ⊖ c.reserve_quote_amount in
      if enters_no_more c.entry_mode
      then none
      else if not (room_in bot signal bot.portfolio)
      then none
      else if spendable ≺ c.min_order_quote_amount
      then none
      else some (record {
        bot_id = bot.bot.id;
        order_key = order_prefix bot.portfolio signal.idempotency_key;
        side = buy;
        level_index = signal.level_index;
        target_price = signal.level_price;
        requested_base_amount = round (requested ⊘ signal.level_price) 8;
        requested_quote_amount = f.min requested (round spendable 2);
        status = created;
        reason =
            strategy_text bot.bot.strategy_mode
            <> (": buy level " <> h.show (signal.level_index + 1));
        matched_lot_ids = none;
      })

  unfoldable pub grid_intent : BotAggregate D → TriggerSignal D → Option (OrderIntent D)
  unfolding buy_intent build_sell_plan is_executable_level
  grid_intent bot signal =
      if not (is_executable_level signal.level_index bot.config.level_count signal.side)
      then none
      else if is_buy signal.side
      then buy_intent bot signal
      else sell_intent bot signal signal.level_price
          (strategy_text bot.bot.strategy_mode
            <> (": sell level " <> h.show (signal.level_index + 1)))
          (build_sell_plan bot signal.level_index (f.max signal.level_price signal.observed_price))

  unfoldable pub intent_in :
      BotAggregate D → TriggerSignal D → Option (BandExecutionContext D) → Option (OrderIntent D)
  unfolding grid_intent exit_intent
  intent_in bot signal none = grid_intent bot signal
  intent_in bot signal (some context) =
      if is_buy signal.side
      then grid_intent bot signal
      else exit_intent bot signal (exit_of context signal) (exit_lot bot signal)

  unfoldable pub build_order_intent : BotAggregate D → TriggerSignal D → Option (OrderIntent D)
  unfolding intent_in
  build_order_intent bot signal = intent_in bot signal bot.portfolio
