-- ===== src/Recenter/Flat.antt =====
-- packages/core/src/services/flat-recenter-service.ts: a bot without open lots moves its rails after
-- the price has been outside of them long enough.
use grid_bot.Common.{
  ℕ, ◌+◌, Bool, true, false, not, ◌&&◌, ◌||◌, Option, none, some, List, String, all, if◌then◌else◌,
  ltb, leb, or_else, or_option, max, is_some,
}
use grid_bot.Float.{Float, num, ◌≼◌}
use grid_bot.Host.{Host, ◌===◌}
use grid_bot.Domain.{OutsideSide, above, below}
use grid_bot.Recenter.Policy.{
  BreakoutSide, inside, outside, breakout_side, suggest_hybrid_range, can_apply_range_change,
}

pub data FlatRecenterAction : Type 0 where
  stay_inside wait hold_inventory rate_limited recenter : FlatRecenterAction

-- Counts and durations are whole numbers that are not negative, and a `Date` is valid.
pub record FlatRecenterInput (D : Type 0) : Type 0 where
  pub low_price : D
  pub high_price : D
  pub current_price : D
  pub now : ℕ
  pub confirmation_ms : ℕ
  pub outside_since : Option String
  pub outside_side : Option OutsideSide
  pub outside_source_observed_at : Option String
  pub current_observation_id : Option String
  pub require_source_advance : Bool
  pub last_recenter_at : Option ℕ
  pub recenter_history : List String
  pub min_interval_ms : ℕ
  pub max_per_day : ℕ
  pub open_trading_lot_count : ℕ
  pub unresolved_execution : Bool

pub record FlatRecenterDecision (D : Type 0) : Type 0 where
  pub action : FlatRecenterAction
  pub side : Option OutsideSide
  pub outside_since : Option String
  pub outside_side : Option OutsideSide
  pub outside_source_observed_at : Option String
  pub suggested_low_price : Option D
  pub suggested_high_price : Option D
  pub reason : String

abbrev pub same_outside : Option OutsideSide → OutsideSide → Bool
same_outside (some above) above = true
same_outside (some below) below = true
same_outside _ _ = false

-- `normalizeObservationId`
abbrev pub normalize_observation_id : Option String → Option String
normalize_observation_id none = none
normalize_observation_id (some s) = if s === "" then none else some s

-- whether the source has moved on since the price left the range
abbrev pub has_advanced : Option String → Option String → Bool
has_advanced none prior = false
has_advanced (some current) none = false
has_advanced (some current) (some prior) = not (current === prior)

-- `nowMs - since >= window`, false at a time that is no number or not elapsed yet
abbrev pub has_waited : Option ℕ → ℕ → ℕ → Bool
has_waited none now window = false
has_waited (some t) now window = leb (t + window) now

abbrev pub is_elapsed : Option ℕ → ℕ → Bool
is_elapsed none now = false
is_elapsed (some t) now = leb t now

module _ (h : Host) where
  -- `parseTimestamp(value)?.toISOString()`, of a text that is not empty
  abbrev pub restated : Option ℕ → Option String
  restated none = none
  restated (some t) = some (h.iso t)

  abbrev pub parsed : Option String → Option String
  parsed none = none
  parsed (some s) = if s === "" then none else restated (h.parse_date s)

  abbrev pub is_valid_timestamp : String → Bool
  is_valid_timestamp s = is_some (h.parse_date s)

module _ {D : Type 0} where
  -- a decision that leaves the rails alone
  abbrev pub at_rest : FlatRecenterAction → String → FlatRecenterDecision D
  at_rest action reason = record {
    action = action;
    side = none;
    outside_since = none;
    outside_side = none;
    outside_source_observed_at = none;
    suggested_low_price = none;
    suggested_high_price = none;
    reason = reason;
  }

module _ {D : Type 0} ⦃f : Float D⦄ (h : Host) (i : FlatRecenterInput D) where
  unfoldable pub is_valid_market : Bool
  is_valid_market =
      (f.is_finite i.low_price && (f.is_finite i.high_price && f.is_finite i.current_price))
      && (not (i.low_price ≼ num 0)
          && (not (i.high_price ≼ i.low_price) && not (i.current_price ≼ num 0)))

  module _ (side : OutsideSide) where
    abbrev pub since : String
    since =
        or_else (if same_outside i.outside_side side then parsed h i.outside_since else none)
          (h.iso i.now)

    abbrev pub source : Option String
    source =
        or_option
          (if same_outside i.outside_side side
            then normalize_observation_id i.outside_source_observed_at
            else none)
          (normalize_observation_id i.current_observation_id)

    abbrev pub window : ℕ
    window = max 30_000 i.confirmation_ms

    abbrev pub outside_still : FlatRecenterAction → String → FlatRecenterDecision D
    outside_still action reason = record {
      action = action;
      side = some side;
      outside_since = some since;
      outside_side = some side;
      outside_source_observed_at = source;
      suggested_low_price = none;
      suggested_high_price = none;
      reason = reason;
    }

    abbrev pub is_frequency_allowed : Bool
    is_frequency_allowed = can_apply_range_change h (record {
      now = i.now;
      last_recenter_at = i.last_recenter_at;
      recenter_history = i.recenter_history;
      min_interval_ms = i.min_interval_ms;
      max_per_day = i.max_per_day;
      open_cycle_count = 0;
    })

    abbrev pub recentered : D → D → FlatRecenterDecision D
    recentered low high =
        if not (f.is_finite low && f.is_finite high) || high ≼ low
        then outside_still wait "Unable to derive a valid recentered range."
        else record {
          action = recenter;
          side = some side;
          outside_since = none;
          outside_side = none;
          outside_source_observed_at = none;
          suggested_low_price = some low;
          suggested_high_price = some high;
          reason = "Confirmed outside observation with flat inventory; recentering the range.";
        }

    abbrev pub recenter_outside : FlatRecenterDecision D
    recenter_outside =
        let range = suggest_hybrid_range i.current_price i.low_price i.high_price side in
        if not (is_elapsed (h.parse_date since) i.now)
        then outside_still wait "Outside timestamp is not elapsed yet."
        else if not (has_waited (h.parse_date since) i.now window)
        then outside_still wait "Waiting for the outside confirmation window."
        else if i.require_source_advance
            && not (has_advanced (normalize_observation_id i.current_observation_id) source)
        then outside_still wait "Waiting for a distinct fresh source observation."
        else if i.unresolved_execution
        then outside_still hold_inventory "Unresolved execution prevents recentering."
        else if ltb 0 i.open_trading_lot_count
        then outside_still hold_inventory "Open trading inventory prevents recentering."
        else if not is_frequency_allowed
        then outside_still rate_limited "Recenter frequency limits prevent recentering."
        else recentered (range.0) (range.1)

  abbrev pub recenter_at : BreakoutSide → FlatRecenterDecision D
  recenter_at inside = at_rest stay_inside "Price is inside the configured range."
  recenter_at (outside side) = recenter_outside side

  unfoldable pub evaluate_flat_recenter : FlatRecenterDecision D
  unfolding is_valid_market breakout_side suggest_hybrid_range can_apply_range_change
  evaluate_flat_recenter =
      if not is_valid_market
      then at_rest wait "Invalid range, current price, or timestamp input."
      else if not (all (is_valid_timestamp h) i.recenter_history)
      then at_rest wait "Invalid recenter timing or inventory input."
      else recenter_at (breakout_side i.current_price i.low_price i.high_price)
