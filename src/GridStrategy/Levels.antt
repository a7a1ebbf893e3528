-- ===== src/GridStrategy/Levels.antt =====
-- packages/core/src/services/grid-strategy-service.ts: the rails of a grid and the rails that a move of
-- the price crosses.
use grid_bot.Common.{
  ℕ, zero, suc, ◌+◌, ◌-◌, Bool, false, Option, none, some, List, [], ◌∷◌, map, ltb, leb,
  if◌then◌else◌, keep, length, sort_by,
}
use grid_bot.Float.{Float, num, ◌⊕◌, ◌⊖◌, ◌⊗◌, ◌⊘◌, ◌≺◌, ◌≈◌}
use grid_bot.Domain.{
  GridType, arithmetic, geometric, GridLevel, TradeSide, buy, sell, is_buy, TriggerSignal,
}
use grid_bot.PriceTrigger.{round, price_move_touches_level}

abbrev pub level : {D : Type 0} → ℕ → D → GridLevel D
level i p = record { index = i; price = p }

-- `Array.from({ length }, (_, index) => ({ index, price }))`, from an index on
unfoldable pub levels_from : {D : Type 0} → (ℕ → D) → ℕ → ℕ → List (GridLevel D)
levels_from price zero index = []
levels_from price (suc left) index = level index (price index) ∷ levels_from price left (index + 1)

unfoldable pub is_executable_level : ℕ → ℕ → TradeSide → Bool
is_executable_level index count side =
    if leb count 1 then false else if is_buy side then ltb index (count - 1) else ltb 0 index

module _ {D : Type 0} ⦃f : Float D⦄ where
  unfoldable pub rail_price : D → D → ℕ → GridType → ℕ → D
  rail_price low high count arithmetic index =
      let step = (high ⊖ low) ⊘ num (count - 1) in round (low ⊕ step ⊗ num index) 8
  rail_price low high count geometric index =
      let ratio = f.pow (high ⊘ low) (num 1 ⊘ num (count - 1)) in
      round (low ⊗ f.pow ratio (num index)) 8

  -- `none` is the exception "Grid must contain at least two levels."
  unfoldable pub calculate_levels : D → D → ℕ → GridType → Option (List (GridLevel D))
  unfolding rail_price levels_from
  calculate_levels low high count type =
      if ltb count 2 then none else some (levels_from (rail_price low high count type) count 0)

  -- the order of the comparator, by the sign of the difference
  abbrev pub comes_first : TradeSide → GridLevel D → GridLevel D → Bool
  comes_first side l r =
      if is_buy side then r.price ⊖ l.price ≺ num 0 else l.price ⊖ r.price ≺ num 0

  abbrev pub crossing : TradeSide → D → ℕ → GridLevel D → TriggerSignal D
  crossing side current now l = record {
    exit_lot_id = none;
    grid_revision_id = none;
    max_adverse_drift_bps = none;
    level_index = l.index;
    side = side;
    level_price = l.price;
    observed_price = current;
    idempotency_key = "";
    triggered_at = now;
  }

  -- `now` is the time of the call.
  unfoldable pub detect_crossed_levels : List (GridLevel D) → D → D → ℕ → List (TriggerSignal D)
  unfolding is_executable_level
  detect_crossed_levels levels previous current now =
      if previous ≈ current
      then []
      else let side = if current ≺ previous then buy else sell in
        map (crossing side current now) (
          sort_by (comes_first side) (
            keep (λ l. is_executable_level l.index (length levels) side)
              (keep (λ l. price_move_touches_level l.price previous current) levels)))
