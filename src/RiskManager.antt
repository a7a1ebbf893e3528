-- ===== src/RiskManager.antt =====
-- packages/core/src/services/risk-manager-service.ts: the guards between a signal and its order.
use Prim.Native.String
use grid_bot.Common.{
  ℕ, zero, suc, ◌+◌, ◌-◌, ◌*◌, ◌/◌, ◌%◌, ◌≤◌, ◌<◌, ◌≡◌, ◌≢◌, refl, sym, ap, subst, ◌∙◌, Bool, true,
  false, not, ◌&&◌, ◌||◌, Option, none, some, List, [], ◌∷◌, ◌++◌, String, arith, ◌⊎◌, ◌↔◌, inl,
  inr, Memᴰ, keep, find, any, all, first, sort_by, map, reverse, length, length-append, length-keep,
  length-sort_by, get_elem?, Bool-cases, Option-cases, All, All-Mem, All-keep, All-keep_of,
  All-append, All-mono, All-map, All-keep_both, length-map, All-sort_by, first-All, find-All,
  find-Mem, find-holds, if◌then◌else◌, if-true, if-false, ltb, leb, ◌==◌, leb→le, le→leb, or_else,
  or_option, none≢some, is_some, is_none, str_eq, eq_iff, eq_refl,
}
use grid_bot.Float.{Float, IsIeee, IsNumber, num, ◌⊕◌, ◌⊗◌, ◌⊖◌, ◌⊘◌, ◌≼◌, ◌≺◌, ◌≈◌}
use grid_bot.Host.{Host, IsRuntime, ◌===◌, ◌<>◌, same_text, precedes}
pub mod Admission
mod Tests
use grid_bot.Domain.{
  BotStatus, running, paused, stopped, out_of_range, cooldown, error, AlertType, budget_max_reached,
  consecutive_failures, drawdown_threshold, infrastructure_degraded, TriggerSignal, OrderIntent,
  MarketPrice, BotAggregate, BotStateSnapshot, BotConfig, is_buy, is_sell, is_halted,
  is_out_of_range, is_manual,
}
use grid_bot.GridStrategy.{read_key}

pub record RiskCheckResult : Type 0 where
  pub allowed : Bool
  pub reasons : List String
  pub next_status : Option BotStatus
  pub alert_type : Option AlertType

abbrev pub status_text : BotStatus → String
status_text running = "running"
status_text paused = "paused"
status_text stopped = "stopped"
status_text out_of_range = "out_of_range"
status_text cooldown = "cooldown"
status_text error = "error"

abbrev pub refusal : String → Option BotStatus → AlertType → RiskCheckResult
refusal reason status alert = record {
  allowed = false;
  reasons = reason ∷ [];
  next_status = status;
  alert_type = some alert;
}

-- `if (test) reasons.push(reason)`, before the reasons that follow
abbrev pub push_if : Bool → String → List String → List String
push_if test reason rest = if test then reason ∷ rest else rest

-- `new Date(until) > now`, false at an invalid date
abbrev pub is_after : Option ℕ → ℕ → Bool
is_after none now = false
is_after (some t) now = ltb now t

-- `new Date(entry).getTime() >= now - window`
abbrev pub is_within : ℕ → Option ℕ → ℕ → Bool
is_within window none now = false
is_within window (some t) now = leb now (t + window)

module _ (h : Host) where
  unfoldable pub count_executions_in_last_hour : List String → ℕ → ℕ
  count_executions_in_last_hour executions now =
      length (keep (λ entry. is_within 3_600_000 (h.parse_date entry) now) executions)

  abbrev locked_until : Option String → ℕ → Bool
  locked_until none now = false
  locked_until (some until) now = is_after (h.parse_date until) now

  module _ {D : Type 0} where
    unfoldable pub is_level_locked : Option (BotStateSnapshot D) → ℕ → ℕ → Bool
    is_level_locked none index now = false
    is_level_locked (some s) index now =
        locked_until (read_key (h.show index) s.metadata.level_locks) now

    unfoldable pub reached_hourly_limit : BotConfig D → Option (BotStateSnapshot D) → ℕ → Bool
    unfolding count_executions_in_last_hour
    reached_hourly_limit c none now = false
    reached_hourly_limit c (some s) now =
        leb c.max_orders_per_hour (count_executions_in_last_hour s.metadata.recent_executions now)

abbrev ran_within : ℕ → Option ℕ → ℕ → Bool
ran_within window none now = false
ran_within window (some last) now = ltb now (last + window)

module _ {D : Type 0} where
  unfoldable pub is_cooling_down : BotConfig D → Option (BotStateSnapshot D) → ℕ → Bool
  is_cooling_down c none now = false
  is_cooling_down c (some s) now = ran_within c.cooldown_ms s.last_execution_at now

  unfoldable pub reached_failure_limit : BotConfig D → Option (BotStateSnapshot D) → Bool
  reached_failure_limit c none = false
  reached_failure_limit c (some s) = leb c.max_consecutive_failures s.consecutive_failures

module _ {D : Type 0} ⦃f : Float D⦄ where
  abbrev pub deployed_quote : Option (BotStateSnapshot D) → D
  deployed_quote none = num 0
  deployed_quote (some s) = s.deployed_quote_amount

  unfoldable pub is_valid_price : D → Bool
  is_valid_price price = f.is_finite price && num 0 ≺ price

  unfoldable pub marked_equity_usd : BotStateSnapshot D → D → D
  marked_equity_usd s price =
      s.available_quote_amount
      ⊕ s.available_base_amount ⊗ price
      ⊖ or_else s.metadata.external_native_fees_quote (num 0)

  unfoldable pub drawdown_pct : BotConfig D → BotStateSnapshot D → D → D
  unfolding marked_equity_usd
  drawdown_pct c s price =
      let marked = marked_equity_usd s price in
      let peak =
        f.max
          (f.max (or_else s.metadata.equity_high_watermark_usd c.total_budget_usd)
            s.total_equity_usd)
          marked in
      if num 0 ≺ peak then (peak ⊖ marked) ⊘ peak ⊗ num 100 else num 0

  unfoldable pub reached_drawdown : BotConfig D → Option (BotStateSnapshot D) → D → Bool
  unfolding drawdown_pct is_valid_price
  reached_drawdown c none price = false
  reached_drawdown c (some s) price =
      is_valid_price price && c.max_drawdown_pct ≼ drawdown_pct c s price

  -- The bot is out of its range, waits for a manual move of it, and the signal is a buy that is not at
  -- the lowest rail.
  unfoldable pub is_out_of_range_buy :
      BotAggregate D → TriggerSignal D → OrderIntent D → MarketPrice D → Bool
  is_out_of_range_buy bot signal order market =
      let at_lower_boundary =
        is_buy signal.side && (signal.level_index == 0 && market.price ≼ order.target_price) in
      is_out_of_range bot.bot.status
      && (is_manual bot.config.recenter_mode && (is_buy signal.side && not at_lower_boundary))

  unfoldable pub exceeds_budget : BotAggregate D → TriggerSignal D → OrderIntent D → Bool
  exceeds_budget bot signal order =
      is_buy signal.side
      && bot.config.max_deployable_usd
        ≺ order.requested_quote_amount ⊕ deployed_quote bot.latest_state

  unfoldable pub evaluate :
      Host → BotAggregate D → TriggerSignal D → OrderIntent D → MarketPrice D → ℕ → RiskCheckResult
  evaluate h bot signal order market now =
      let c = bot.config in
      let snapshot = bot.latest_state in
      let entering = not (is_sell signal.side) in
      let reasons = push_if (is_halted bot.bot.status) ("bot is " <> status_text bot.bot.status) (
        push_if (is_out_of_range_buy bot signal order market) "bot is out of range" (
          push_if (entering && is_level_locked h snapshot signal.level_index now) "level is locked"
            (push_if (entering && is_cooling_down c snapshot now) "bot is cooling down" (
              push_if (exceeds_budget bot signal order) "order exceeds max deployable budget"
                [])))) in
      if entering && reached_hourly_limit h c snapshot now
      then refusal "max orders per hour reached" none budget_max_reached
      else if reached_failure_limit c snapshot
      then refusal "max consecutive failures reached" (some error) consecutive_failures
      else if entering && reached_drawdown c snapshot market.price
      then refusal "max drawdown reached" none drawdown_threshold
      else if not (is_valid_price market.price)
      then refusal "invalid market price" (some error) infrastructure_degraded
      else record {
        allowed = elim reasons [ [] ↦ true | _ ↦ false ];
        reasons = reasons;
        next_status = none;
        alert_type = none;
      }
