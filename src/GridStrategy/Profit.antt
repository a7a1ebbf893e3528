-- ===== src/GridStrategy/Profit.antt =====
-- packages/core/src/services/grid-strategy-service.ts: what every order intent keeps to.
use grid_bot.Common.{
  ℕ, ◌≡◌, refl, true, false, ◌&&◌, Option, none, some, [], ◌∷◌, String, arith, inl, inr, Memᴰ,
  Bool-cases, All-Mem, All-keep_of, All-sort_by, first-All, find-Mem, if◌then◌else◌, or_option,
  none≢some,
}
use grid_bot.Float.{Float, num, ◌⊗◌, ◌≼◌}
use grid_bot.Host.{Host}
use grid_bot.Domain.{
  sell, accumulate_base, TriggerSignal, OrderIntent, PositionLot, BotAggregate, is_live, GridCycle,
  LotExitCommitmentRecord, BandExecutionContext, same_strategy,
}
use grid_bot.GridStrategy.Levels.{is_executable_level}
use grid_bot.PriceTrigger.{round}
use grid_bot.GridStrategy.Lots.{is_open_lot_sellable}
use grid_bot.GridStrategy.Intent.{
  lot_of_cycle, exit_order, exit_matches, intent_in, plan_of, sell_intent, exit_intent, grid_intent,
  find_cycle_matched_sell_lot, find_inferred_sell_lot, build_sell_plan, build_order_intent,
}
use grid_bot.GridStrategy.Sizing.{Decimals, SellPlan, recovery_price, build_sell_plan_from_lot}

module _ {D : Type 0} ⦃f : Float D⦄ where
  -- What the sell of a lot is worth at a price, net of the costs that the strategy foresees.
  abbrev pub net_value : BotAggregate D → PositionLot D → D → D → D
  net_value bot lot base price =
      if is_live bot.bot.mode && same_strategy bot.bot.strategy_mode accumulate_base
      then round (base ⊗ price) 8
      else round (lot.remaining_base_amount ⊗ recovery_price bot price) 8

  -- A plan sells one sellable lot, at a price at which its net value is not at most its cost.
  pub record IsProfitable (bot : BotAggregate D) (lot : PositionLot D) (price : D)
      (plan : SellPlan D) : Type 0 where
    pub sellable : is_open_lot_sellable lot ≡ true
    pub matched : plan.matched_lot_ids ≡ lot.id ∷ []
    pub positive : (plan.requested_base_amount ≼ num 0) ≡ false
    pub covered : (net_value bot lot plan.requested_base_amount price ≼ lot.cost_quote) ≡ false

  pub build_sell_plan_from_lot-IsProfitable :
      (dec : Decimals D) (bot : BotAggregate D) (lot : PositionLot D) (price : D)
      (plan : SellPlan D)
      → build_sell_plan_from_lot dec bot lot price ≡ some plan
      → IsProfitable bot lot price plan
  unfolding build_sell_plan_from_lot
  build_sell_plan_from_lot-IsProfitable dec bot lot price plan e = ground arith

module _ {D : Type 0} ⦃f : Float D⦄ where
  -- The same of the order that a plan becomes.
  pub record IsProfitableOrder (bot : BotAggregate D) (lot : PositionLot D) (price : D)
      (o : OrderIntent D) : Type 0 where
    pub sells : o.side ≡ sell
    pub sellable : is_open_lot_sellable lot ≡ true
    pub matched : o.matched_lot_ids ≡ some (lot.id ∷ [])
    pub positive : (o.requested_base_amount ≼ num 0) ≡ false
    pub covered : (net_value bot lot o.requested_base_amount price ≼ lot.cost_quote) ≡ false

module _ {D : Type 0} ⦃f : Float D⦄ (h : Host) (dec : Decimals D) where
  lot_of_cycle-Mem :
      (bot : BotAggregate D) (cycle : Option (GridCycle D)) (lot : PositionLot D)
      → lot_of_cycle h dec bot cycle ≡ some lot
      → Memᴰ lot bot.open_lots
  lot_of_cycle-Mem bot none lot e = cc
  lot_of_cycle-Mem bot (some cycle) lot e = find-Mem _ bot.open_lots lot e

  find_cycle_matched_sell_lot-Mem :
      (bot : BotAggregate D) (index : ℕ) (lot : PositionLot D)
      → find_cycle_matched_sell_lot h dec bot index ≡ some lot
      → Memᴰ lot bot.open_lots
  unfolding find_cycle_matched_sell_lot
  find_cycle_matched_sell_lot-Mem bot index lot e = lot_of_cycle-Mem bot _ lot e

  find_inferred_sell_lot-Mem :
      (bot : BotAggregate D) (index : ℕ) (lot : PositionLot D)
      → find_inferred_sell_lot h dec bot index ≡ some lot
      → Memᴰ lot bot.open_lots
  unfolding find_inferred_sell_lot
  find_inferred_sell_lot-Mem bot index lot e =
      first-All (λ l. Memᴰ l bot.open_lots) _ lot
        (All-sort_by _ _ _
          (All-keep_of _ _ _ (All-keep_of _ _ _ (All-keep_of _ _ _ (All-Mem bot.open_lots)))))
        e

  plan_of-IsProfitable :
      (bot : BotAggregate D) (price : D) (found inferred : Option (PositionLot D))
      (plan : SellPlan D)
      → ((lot : PositionLot D) → found ≡ some lot → Memᴰ lot bot.open_lots)
      → ((lot : PositionLot D) → inferred ≡ some lot → Memᴰ lot bot.open_lots)
      → plan_of h dec bot price (or_option found inferred) ≡ some plan
      → (lot : PositionLot D) × Memᴰ lot bot.open_lots × IsProfitable bot lot price plan
  plan_of-IsProfitable bot price (some lot) inferred plan m n e =
      (lot, m lot refl, build_sell_plan_from_lot-IsProfitable dec bot lot price plan e)
  plan_of-IsProfitable bot price none (some lot) plan m n e =
      (lot, n lot refl, build_sell_plan_from_lot-IsProfitable dec bot lot price plan e)
  plan_of-IsProfitable bot price none none plan m n e = cc

  pub build_sell_plan-IsProfitable :
      (bot : BotAggregate D) (index : ℕ) (price : D) (plan : SellPlan D)
      → build_sell_plan h dec bot index price ≡ some plan
      → (lot : PositionLot D) × Memᴰ lot bot.open_lots × IsProfitable bot lot price plan
  unfolding build_sell_plan
  build_sell_plan-IsProfitable bot index price plan e =
      plan_of-IsProfitable bot price _ _ plan (find_cycle_matched_sell_lot-Mem bot index)
        (find_inferred_sell_lot-Mem bot index) e

  sell_intent-IsProfitable :
      (bot : BotAggregate D) (signal : TriggerSignal D) (target price : D) (reason : String)
      (plan : Option (SellPlan D)) (o : OrderIntent D)
      → ((p : SellPlan D)
          → plan ≡ some p
          → (lot : PositionLot D) × Memᴰ lot bot.open_lots × IsProfitable bot lot price p)
      → sell_intent h dec bot signal target reason plan ≡ some o
      → (lot : PositionLot D) × Memᴰ lot bot.open_lots × IsProfitableOrder bot lot price o
  sell_intent-IsProfitable bot signal target price reason none o g e = cc
  sell_intent-IsProfitable bot signal target price reason (some p) o g e =
      let (lot, m, ok) = g p refl in (lot, m, ground arith)

  exit_order-IsProfitable :
      (bot : BotAggregate D) (signal : TriggerSignal D) (exit : LotExitCommitmentRecord D)
      (lot : PositionLot D) (target : Option D) (o : OrderIntent D)
      → Memᴰ lot bot.open_lots
      → exit_order h dec bot signal exit lot target ≡ some o
      → (l : PositionLot D) × Memᴰ l bot.open_lots × IsProfitableOrder bot l signal.observed_price o
  exit_order-IsProfitable bot signal exit lot none o m e = cc
  exit_order-IsProfitable bot signal exit lot (some target) o m e =
      elim (Bool-cases (exit_matches h dec bot signal exit target)) [
        | inl t ↦
            sell_intent-IsProfitable bot signal target signal.observed_price _ _ o
              (λ p q. (
                lot,
                m,
                build_sell_plan_from_lot-IsProfitable dec bot lot signal.observed_price p q,
              ))
              (rw t at e)
        | inr t ↦ absurd (none≢some (rw t at e))
      ]

  exit_intent-IsProfitable :
      (bot : BotAggregate D) (signal : TriggerSignal D) (exit : Option (LotExitCommitmentRecord D))
      (lot : Option (PositionLot D)) (o : OrderIntent D)
      → ((l : PositionLot D) → lot ≡ some l → Memᴰ l bot.open_lots)
      → exit_intent h dec bot signal exit lot ≡ some o
      → (l : PositionLot D) × Memᴰ l bot.open_lots × IsProfitableOrder bot l signal.observed_price o
  unfolding exit_intent
  exit_intent-IsProfitable bot signal none lot o m e = cc
  exit_intent-IsProfitable bot signal (some exit) none o m e = cc
  exit_intent-IsProfitable bot signal (some exit) (some lot) o m e =
      exit_order-IsProfitable bot signal exit lot exit.sell_target_price o (m lot refl) e

  grid_intent-IsProfitable :
      (bot : BotAggregate D) (signal : TriggerSignal D) (o : OrderIntent D)
      → signal.side ≡ sell
      → grid_intent h dec bot signal ≡ some o
      → (l : PositionLot D) × Memᴰ l bot.open_lots
        × IsProfitableOrder bot l (f.max signal.level_price signal.observed_price) o
  unfolding grid_intent
  grid_intent-IsProfitable bot signal o s e =
      elim (Bool-cases
        (is_executable_level signal.level_index bot.config.level_count signal.side)) [
          | inl t ↦
              sell_intent-IsProfitable bot signal signal.level_price _ _ _ o
                (build_sell_plan-IsProfitable bot signal.level_index _) (rw (s) at (rw t at e))
          | inr t ↦ absurd (none≢some (rw t at e))
        ]

  -- the price at which the strategy values a sell
  abbrev pub sale_price : Option (BandExecutionContext D) → TriggerSignal D → D
  sale_price none signal = f.max signal.level_price signal.observed_price
  sale_price (some _) signal = signal.observed_price

  intent_in-IsProfitable :
      (bot : BotAggregate D) (signal : TriggerSignal D) (context : Option (BandExecutionContext D))
      (o : OrderIntent D)
      → signal.side ≡ sell
      → intent_in h dec bot signal context ≡ some o
      → (l : PositionLot D) × Memᴰ l bot.open_lots
        × IsProfitableOrder bot l (sale_price context signal) o
  unfolding intent_in
  intent_in-IsProfitable bot signal none o s e = grid_intent-IsProfitable bot signal o s e
  intent_in-IsProfitable bot signal (some context) o s e =
      exit_intent-IsProfitable bot signal _ _ o (λ l. find-Mem _ bot.open_lots l) (rw s at e)

  -- An order intent for a sell names exactly one lot, which is among the bot's open lots and can be
  -- sold. It asks for a positive amount, and at the price at which the strategy values the sale the
  -- lot's net value is not at most the lot's cost.
  pub build_order_intent-IsProfitableOrder :
      (bot : BotAggregate D) (signal : TriggerSignal D) (o : OrderIntent D)
      → signal.side ≡ sell
      → build_order_intent h dec bot signal ≡ some o
      → (l : PositionLot D) × Memᴰ l bot.open_lots
        × IsProfitableOrder bot l (sale_price bot.portfolio signal) o
  unfolding build_order_intent
  build_order_intent-IsProfitableOrder bot signal o s e =
      intent_in-IsProfitable bot signal bot.portfolio o s e
