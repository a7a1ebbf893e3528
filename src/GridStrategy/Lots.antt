-- ===== src/GridStrategy/Lots.antt =====
-- packages/core/src/services/grid-strategy-service.ts: which lots can be sold, and the cycles that pair
-- a lot with its rails.
use grid_bot.Common.{
  ℕ, ◌-◌, Bool, true, false, not, ◌&&◌, ◌||◌, Option, none, some, List, [], ◌∷◌, String, keep, find,
  any, sort_by, length, if◌then◌else◌, ltb, ◌==◌, or_else, max, is_some, is_none,
}
use grid_bot.Float.{Float, num, ◌⊕◌, ◌⊘◌, ◌≼◌, ◌≺◌}
use grid_bot.Host.{Host, ◌===◌, ◌<>◌}
use grid_bot.Domain.{
  LotKind, retained, PositionLot, GridCycle, GridLevel, BotAggregate, BotStateSnapshot,
}

abbrev pub is_retained : Option LotKind → Bool
is_retained (some retained) = true
is_retained _ = false

abbrev pub price_epsilon : {D : Type 0} ⦃f : Float D⦄ → D
price_epsilon ⦃f⦄ = f.decimal 1 8

-- `record[key]`, and `record[key] = value`
module _ {ℓ} {A : Type ℓ} where
  abbrev pub read_key : String → List (String × A) → Option A
  read_key k [] = none
  read_key k ((j, v) ∷ m) = if j === k then some v else read_key k m

abbrev pub contains : List String → String → Bool
contains ids id = any (λ j. j === id) ids

abbrev buy_index : ℕ → Option ℕ → ℕ
buy_index count none = count - 2
buy_index count (some i) = i - 1

module _ {D : Type 0} ⦃f : Float D⦄ where
  unfoldable pub is_open_lot_sellable : PositionLot D → Bool
  is_open_lot_sellable lot =
      not (is_retained lot.kind)
      && (num 0 ≺ lot.remaining_base_amount && (num 0 ≺ lot.cost_quote && is_none lot.closed_at))

  unfoldable pub get_lot_cost_basis : PositionLot D → D
  get_lot_cost_basis lot =
      if num 0 ≺ lot.remaining_base_amount && num 0 ≺ lot.cost_quote
      then lot.cost_quote ⊘ lot.remaining_base_amount
      else let fallback =
          if num 0 ≺ lot.original_base_amount
          then lot.original_base_amount
          else lot.remaining_base_amount in
        if num 0 ≺ lot.entry_price
        then lot.entry_price
        else if num 0 ≺ fallback
        then lot.cost_quote ⊘ fallback
        else num 0

  unfoldable pub is_buy_level_occupied : Host → List (String × GridCycle D) → ℕ → Bool
  is_buy_level_occupied h cycles index =
      is_some (read_key (h.show index) cycles)
      || any (λ entry. entry.1.buy_level_index == index) cycles

  -- `latestState?.metadata.gridCycles ?? {}`
  abbrev pub recorded_cycles : Option (BotStateSnapshot D) → List (String × GridCycle D)
  recorded_cycles none = []
  recorded_cycles (some s) = or_else s.metadata.grid_cycles []

  unfoldable pub get_active_grid_cycles : BotAggregate D → List (String × GridCycle D)
  unfolding is_open_lot_sellable
  get_active_grid_cycles bot =
      keep
        (λ entry. any (λ lot. is_open_lot_sellable lot && lot.id === entry.1.lot_id) bot.open_lots)
        (recorded_cycles bot.latest_state)

  -- the two indices of a cycle, from the first rail above the cost
  abbrev sell_index : Option (GridLevel D) → Option ℕ
  sell_index none = none
  sell_index (some l) = some (max 1 l.index)

  unfoldable pub infer_grid_cycle_for_lot :
      Host → List (GridLevel D) → PositionLot D → Option (GridCycle D)
  unfolding get_lot_cost_basis
  infer_grid_cycle_for_lot h levels lot =
      let basis = get_lot_cost_basis lot in
      if basis ≼ num 0 || ltb (length levels) 2
      then none
      else let sell = sell_index (find (λ l. basis ⊕ price_epsilon ≺ l.price) levels) in
        some (record {
          grid_revision_id = none;
          buy_target_price = none;
          sell_target_price = none;
          buy_level_index = buy_index (length levels) sell;
          sell_level_index = sell;
          lot_id = lot.id;
          opened_at = h.iso lot.opened_at;
        })

  -- A key that is an index comes before every other key of an object, in ascending order.
  abbrev pub is_index_key : Host → String → GridCycle D → Bool
  is_index_key h k c = k === h.show c.buy_level_index

  abbrev pub leads_keys : Host → String → GridCycle D → String → GridCycle D → Bool
  leads_keys h k c j d =
      is_index_key h k c && (not (is_index_key h j d) || ltb c.buy_level_index d.buy_level_index)

  -- `cycles[key] = cycle`
  abbrev pub write_cycle :
      Host → String → GridCycle D → List (String × GridCycle D) → List (String × GridCycle D)
  write_cycle h k c [] = (k, c) ∷ []
  write_cycle h k c ((j, d) ∷ m) =
      let rest = write_cycle h k c m in
      if j === k
      then (k, c) ∷ m
      else if leads_keys h k c j d
      then (k, c) ∷ (j, d) ∷ m
      else (j, d) ∷ rest

  abbrev pub add_cycle :
      Host
      → PositionLot D
      → List (String × GridCycle D)
      → Option (GridCycle D)
      → List (String × GridCycle D)
  add_cycle h lot cycles none = cycles
  add_cycle h lot cycles (some cycle) =
      let level_key = h.show cycle.buy_level_index in
      let key = if is_some (read_key level_key cycles) then "lot:" <> lot.id else level_key in
      write_cycle h key cycle cycles

  -- the loop of `remapOpenLotsToGridCycles`, over the cycles found so far
  remap_from :
      Host
      → List (GridLevel D)
      → List (String × GridCycle D)
      → List (PositionLot D)
      → List (String × GridCycle D)
  unfolding infer_grid_cycle_for_lot
  remap_from h levels cycles [] = cycles
  remap_from h levels cycles (lot ∷ lots) =
      remap_from h levels (add_cycle h lot cycles (infer_grid_cycle_for_lot h levels lot)) lots

  unfoldable pub remap_open_lots_to_grid_cycles :
      Host → List (GridLevel D) → List (PositionLot D) → List (String × GridCycle D)
  unfolding remap_from is_open_lot_sellable
  remap_open_lots_to_grid_cycles h levels lots =
      remap_from h levels []
        (sort_by (λ l r. ltb l.opened_at r.opened_at) (keep is_open_lot_sellable lots))
