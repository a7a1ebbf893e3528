-- ===== src/GridDecision.antt =====
-- packages/core/src/services/grid-decision-service.ts: which signal a price confirms.
use Prim.Native.String
use grid_bot.Common.{
  ℕ, zero, suc, ◌+◌, ◌-◌, ◌*◌, ◌/◌, ◌%◌, ◌≤◌, ◌<◌, ◌≡◌, ◌≢◌, refl, sym, ap, subst, ◌∙◌, Bool, true,
  false, not, ◌&&◌, ◌||◌, Option, none, some, List, [], ◌∷◌, ◌++◌, String, arith, ◌⊎◌, ◌↔◌, inl,
  inr, Memᴰ, keep, find, any, all, first, sort_by, map, reverse, length, length-append, length-keep,
  length-sort_by, get_elem?, Bool-cases, Option-cases, All, All-Mem, All-keep, All-keep_of,
  All-append, All-mono, All-map, All-keep_both, length-map, All-sort_by, first-All, find-All,
  find-Mem, find-holds, if◌then◌else◌, if-true, if-false, ltb, leb, ◌==◌, leb→le, le→leb, or_else,
  or_option, none≢some, is_some, is_none, str_eq, eq_iff, eq_refl,
}
use grid_bot.Float.{Float, IsIeee, IsNumber, num, ◌⊕◌, ◌⊗◌, ◌⊖◌, ◌⊘◌, ◌≼◌, ◌≺◌, ◌≈◌}
use grid_bot.Host.{Host, IsRuntime, ◌===◌, ◌<>◌, same_text, precedes}
pub mod Confirmation
pub mod Pending
mod Tests
use grid_bot.Domain.{
  BotStatus, TradeSide, buy, sell, GridLevel, PendingSignal, TriggerSignal, is_buy, is_sell,
  same_side, is_out_of_range,
}
use grid_bot.PriceTrigger.{price_confirms_trigger}

-- `SignalDecisionInput` and `OutOfRangeSignalInput`
pub record DecisionInput (D : Type 0) : Type 0 where
  pub bot_id : String
  pub bot_status : BotStatus
  pub latest_status : Option BotStatus
  pub pending_signal : Option (PendingSignal D)
  pub current_price : D
  pub now : ℕ
  pub levels : List (GridLevel D)
  pub crossed_signals : List (TriggerSignal D)
  pub price_confirmation_window_ms : ℕ
  pub can_build_order : TriggerSignal D → Bool
  -- of `PendingSignalInput`
  pub allow_boundary_catch_up : Option Bool

abbrev pub side_text : TradeSide → String
side_text buy = "buy"
side_text sell = "sell"

abbrev pub status_is_out : Option BotStatus → Bool
status_is_out none = false
status_is_out (some s) = is_out_of_range s

unfoldable pub is_recovering_from_out_of_range : BotStatus → Option BotStatus → Bool
is_recovering_from_out_of_range status latest = is_out_of_range status || status_is_out latest

-- an elapsed time that is NaN does not confirm
abbrev pub has_elapsed : Option ℕ → ℕ → ℕ → Bool
has_elapsed none now window = false
has_elapsed (some t) now window = leb (t + window) now

module _ {D : Type 0} where
  unfoldable pub confirmation_elapsed : Host → PendingSignal D → ℕ → ℕ → Bool
  confirmation_elapsed h pending now window =
      has_elapsed (h.parse_date pending.first_observed_at) now window

module _ {D : Type 0} ⦃f : Float D⦄ where
  unfoldable pub is_out_of_range_price : D → D → D → Bool
  is_out_of_range_price low high price = price ≺ low || high ≺ price

module _ {D : Type 0} ⦃f : Float D⦄ (h : Host) (i : DecisionInput D) where
  unfoldable pub materialize_crossed_signal : TriggerSignal D → TriggerSignal D
  materialize_crossed_signal s = record s {
    idempotency_key =
        i.bot_id
        <> (":" <> (side_text s.side <> (":" <> (h.show s.level_index <> (":" <> h.show i.now)))));
    triggered_at = i.now;
  }

  abbrev pub probe_signal : TriggerSignal D → TriggerSignal D
  probe_signal s = record s {
    idempotency_key =
        "probe:"
        <> (i.bot_id
            <> (":"
                <> (side_text s.side <> (":" <> (h.show s.level_index <> (":" <> h.show i.now))))));
    triggered_at = i.now;
  }

  unfoldable pub select_actionable_crossed_signal :
      List (TriggerSignal D) → Option (TriggerSignal D)
  select_actionable_crossed_signal signals = find (λ s. i.can_build_order (probe_signal s)) signals

  -- a signal that the decision makes for a level, with the key that it is given
  abbrev pub candidate : TradeSide → ℕ → D → String → TriggerSignal D
  candidate side index price key = record {
    exit_lot_id = none;
    grid_revision_id = none;
    max_adverse_drift_bps = none;
    level_index = index;
    side = side;
    level_price = price;
    observed_price = i.current_price;
    idempotency_key = key;
    triggered_at = i.now;
  }

  abbrev pub recovery_sell : GridLevel D → TriggerSignal D
  recovery_sell level =
      candidate sell level.index level.price
        (i.bot_id <> (":recovery:sell:" <> (h.show level.index <> (":" <> h.show i.now))))

  abbrev pub first_sell : List (GridLevel D) → Option (TriggerSignal D)
  first_sell [] = none
  first_sell (level ∷ rest) =
      if price_confirms_trigger sell level.price i.current_price
        && i.can_build_order (recovery_sell level)
      then some (recovery_sell level)
      else first_sell rest

  unfoldable pub select_actionable_sell_at_current_price : Option (TriggerSignal D)
  select_actionable_sell_at_current_price = first_sell (reverse i.levels)

  abbrev pub level_at : ℕ → Option (GridLevel D)
  level_at index = find (λ level. level.index == index) i.levels

  -- the pending signal, once it has waited long enough and its level still holds
  abbrev pub confirm_at : PendingSignal D → Option (GridLevel D) → Option (TriggerSignal D)
  confirm_at pending none = none
  confirm_at pending (some level) =
      let made = candidate pending.side pending.level_index level.price (
        i.bot_id
        <> (":"
            <> (side_text pending.side
                <> (":" <> (h.show pending.level_index <> (":" <> pending.first_observed_at)))))) in
      if not (price_confirms_trigger pending.side level.price i.current_price)
      then none
      else if is_buy pending.side
          && not (confirmation_elapsed h pending i.now i.price_confirmation_window_ms)
      then none
      else if i.can_build_order made
      then some made
      else none

  abbrev pub confirm_pending : Option (PendingSignal D) → Option (TriggerSignal D)
  confirm_pending none = none
  confirm_pending (some pending) =
      if is_recovering_from_out_of_range i.bot_status i.latest_status && is_buy pending.side
      then none
      else confirm_at pending (level_at pending.level_index)

  -- A crossing is confirmed at once if it sells, or if no window is set and the bot is in range.
  abbrev pub is_immediate : TriggerSignal D → Bool
  is_immediate s =
      is_sell s.side
      || (not (is_recovering_from_out_of_range i.bot_status i.latest_status)
          && leb i.price_confirmation_window_ms 0)

  abbrev pub confirm_crossed : Option (TriggerSignal D) → Option (TriggerSignal D)
  confirm_crossed none =
      or_option select_actionable_sell_at_current_price (confirm_pending i.pending_signal)
  confirm_crossed (some s) =
      if is_immediate s
      then some (materialize_crossed_signal s)
      else or_option select_actionable_sell_at_current_price (confirm_pending i.pending_signal)

  unfoldable pub get_confirmed_signal : Option (TriggerSignal D)
  unfolding select_actionable_crossed_signal select_actionable_sell_at_current_price
      is_recovering_from_out_of_range confirmation_elapsed materialize_crossed_signal
  get_confirmed_signal = confirm_crossed (select_actionable_crossed_signal i.crossed_signals)

  abbrev pub is_allowed : Option Bool → Bool
  is_allowed none = true
  is_allowed (some b) = b

  -- the lowest rail, while the price is at it
  abbrev pub boundary_at : Option (GridLevel D) → Option (TriggerSignal D)
  boundary_at none = none
  boundary_at (some level) =
      let made = candidate buy level.index level.price ("probe:" <> (i.bot_id <> ":boundary")) in
      if is_allowed i.allow_boundary_catch_up
        && (price_confirms_trigger buy level.price i.current_price && i.can_build_order made)
      then some made
      else none

  -- The wait of a signal goes on if the same rail and side were pending before.
  abbrev pub first_seen : Option (PendingSignal D) → ℕ → TradeSide → String
  first_seen none index side = h.iso i.now
  first_seen (some p) index side =
      if (p.level_index == index) && same_side p.side side then p.first_observed_at else h.iso i.now

  abbrev pub keep_at : PendingSignal D → Option (GridLevel D) → Option (PendingSignal D)
  keep_at pending none = none
  keep_at pending (some level) =
      if price_confirms_trigger pending.side level.price i.current_price
        && i.can_build_order (
            candidate pending.side pending.level_index level.price
              ("probe:" <> (i.bot_id <> ":pending")))
      then some (record pending { last_observed_price = i.current_price })
      else none

  abbrev pub keep_pending : Option (PendingSignal D) → Option (PendingSignal D)
  keep_pending none = none
  keep_pending (some pending) = keep_at pending (level_at pending.level_index)

  abbrev pub pending_of : Option (TriggerSignal D) → Option (PendingSignal D)
  pending_of none = keep_pending i.pending_signal
  pending_of (some s) = some (record {
    level_index = s.level_index;
    side = s.side;
    first_observed_at = first_seen i.pending_signal s.level_index s.side;
    last_observed_price = i.current_price;
  })

  unfoldable pub resolve_pending_signal : Option (PendingSignal D)
  unfolding select_actionable_crossed_signal
  resolve_pending_signal = pending_of (
      or_option (boundary_at (first i.levels)) (select_actionable_crossed_signal i.crossed_signals))

  abbrev pub sell_of : Option (TriggerSignal D) → Option (TriggerSignal D)
  sell_of none = none
  sell_of (some s) = if is_sell s.side then some s else none

  unfoldable pub get_out_of_range_recovery_sell_signal : Option (TriggerSignal D)
  unfolding get_confirmed_signal
  get_out_of_range_recovery_sell_signal =
      or_option (sell_of get_confirmed_signal) select_actionable_sell_at_current_price

  abbrev pub boundary_candidate : GridLevel D → Option (TriggerSignal D) → TriggerSignal D
  boundary_candidate level (some crossed) = materialize_crossed_signal crossed
  boundary_candidate level none =
      candidate buy level.index level.price
        (i.bot_id <> (":boundary:buy:" <> (h.show level.index <> (":" <> h.show i.now))))

  abbrev pub boundary_waited : GridLevel D → Option (PendingSignal D) → Bool
  boundary_waited level none = false
  boundary_waited level (some pending) =
      is_buy pending.side
      && ((pending.level_index == level.index)
          && confirmation_elapsed h pending i.now i.price_confirmation_window_ms)

  -- With a window the key is that of the first observation.
  abbrev pub boundary_keyed :
      GridLevel D → TriggerSignal D → Option (PendingSignal D) → TriggerSignal D
  boundary_keyed level made none = made
  boundary_keyed level made (some pending) = record made {
    idempotency_key =
        i.bot_id
        <> (":boundary:buy:" <> (h.show level.index <> (":" <> pending.first_observed_at)));
  }

  abbrev pub boundary_buy : Option (GridLevel D) → Option (TriggerSignal D)
  boundary_buy none = none
  boundary_buy (some level) =
      let made =
        boundary_candidate level
          (find (λ s. is_buy s.side && (s.level_index == level.index)) i.crossed_signals) in
      if not (price_confirms_trigger buy level.price i.current_price)
      then none
      else if not (i.can_build_order made)
      then none
      else if leb i.price_confirmation_window_ms 0
      then some made
      else if boundary_waited level i.pending_signal
      then some (boundary_keyed level made i.pending_signal)
      else none

  unfoldable pub get_out_of_range_boundary_buy_signal : Option (TriggerSignal D)
  unfolding confirmation_elapsed materialize_crossed_signal
  get_out_of_range_boundary_buy_signal = boundary_buy (first i.levels)
