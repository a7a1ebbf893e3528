-- ===== src/RiskManager/Admission.antt =====
-- packages/core/src/services/risk-manager-service.ts: exactly which orders pass.
use grid_bot.Common.{ℕ, ◌≡◌, ◌≢◌, true, false, none, some, [], arith, ◌⊎◌, ◌↔◌}
use grid_bot.Float.{Float, ◌≼◌}
use grid_bot.Host.{Host}
use grid_bot.Domain.{
  buy, sell, error, out_of_range, manual_recenter, BotAggregate, TriggerSignal, OrderIntent,
  MarketPrice, is_halted,
}
use grid_bot.RiskManager.{
  evaluate, is_out_of_range_buy, is_level_locked, is_cooling_down, exceeds_budget,
  reached_hourly_limit, reached_failure_limit, reached_drawdown, is_valid_price,
}

module _ {D : Type 0} ⦃f : Float D⦄ (h : Host) (bot : BotAggregate D) (signal : TriggerSignal D)
    (order : OrderIntent D) (market : MarketPrice D) (now : ℕ) where
  -- What only a buy has to meet.
  pub record IsSafeEntry : Type 0 where
    pub in_reach :
        (bot.bot.status ≢ out_of_range)
        ⊎ (bot.config.recenter_mode ≢ manual_recenter)
        ⊎ ((signal.level_index ≡ 0) × ((market.price ≼ order.target_price) ≡ true))
    pub unlocked : is_level_locked h bot.latest_state signal.level_index now ≡ false
    pub rested : is_cooling_down bot.config bot.latest_state now ≡ false
    pub below_hourly_limit : reached_hourly_limit h bot.config bot.latest_state now ≡ false
    pub affordable : exceeds_budget bot signal order ≡ false
    pub below_drawdown : reached_drawdown bot.config bot.latest_state market.price ≡ false

  pub record IsAdmitted : Type 0 where
    pub operating : is_halted bot.bot.status ≡ false
    pub healthy : reached_failure_limit bot.config bot.latest_state ≡ false
    pub priced : is_valid_price market.price ≡ true
    pub safe_entry : signal.side ≡ buy → IsSafeEntry

  abbrev IsInReach : Type 0
  IsInReach =
      (bot.bot.status ≢ out_of_range)
      ⊎ (bot.config.recenter_mode ≢ manual_recenter)
      ⊎ ((signal.level_index ≡ 0) × ((market.price ≼ order.target_price) ≡ true))

  passed-IsInReach :
      signal.side ≡ buy → is_out_of_range_buy bot signal order market ≡ false → IsInReach
  unfolding is_out_of_range_buy
  passed-IsInReach b e = ground arith

  IsInReach-passes :
      signal.side ≡ buy → IsInReach → is_out_of_range_buy bot signal order market ≡ false
  unfolding is_out_of_range_buy
  IsInReach-passes b e = ground arith

  allowed-IsAdmitted : (evaluate h bot signal order market now).allowed ≡ true → IsAdmitted
  unfolding evaluate
  allowed-IsAdmitted e = ground (arith, passed-IsInReach)

  sell-in_range : signal.side ≡ sell → is_out_of_range_buy bot signal order market ≡ false
  unfolding is_out_of_range_buy
  sell-in_range e = ground arith

  sell-affordable : signal.side ≡ sell → exceeds_budget bot signal order ≡ false
  unfolding exceeds_budget
  sell-affordable e = ground arith

  IsAdmitted-allowed : IsAdmitted → (evaluate h bot signal order market now).allowed ≡ true
  unfolding evaluate
  IsAdmitted-allowed a = ground (arith, IsInReach-passes, sell-in_range, sell-affordable)

  -- An order is allowed exactly when the bot is neither paused nor stopped, its failures stay below the
  -- limit, the price is a positive finite number, and, for a buy alone: if the bot is out of range and
  -- is recentred by hand, the order stands at the lowest rail and its target is not below the price;
  -- and the rail is not locked, and the bot is not cooling down, is below the hourly limit, within the
  -- deployable budget and below the drawdown limit.
  pub evaluate-allowed_iff : ((evaluate h bot signal order market now).allowed ≡ true) ↔ IsAdmitted
  evaluate-allowed_iff = (allowed-IsAdmitted, IsAdmitted-allowed)

  -- What a refusal says: it always gives a reason, an allowed order gives none, and only the failure
  -- limit and an invalid price put the bot into its error status.
  pub evaluate-reasons :
      let r = evaluate h bot signal order market now in
      (r.allowed ≡ true → (r.reasons ≡ []) × (r.next_status ≡ none) × (r.alert_type ≡ none))
      × (r.allowed ≡ false → r.reasons ≢ [])
      × (r.next_status ≢ none
          → (r.next_status ≡ some error)
            × ((reached_failure_limit bot.config bot.latest_state ≡ true)
                ⊎ (is_valid_price market.price ≡ false)))
  unfolding evaluate
  evaluate-reasons = (λ e. ground arith, λ e d. ground arith, λ e. ground arith)
