-- ===== src/PositionLots/Tests.antt =====
-- packages/core/src/utils/position-lots.ts: two lots of 100 and 110, of which the balances cover one.
use grid_bot.Common.{◌≡◌, refl, true, false, none, some, List, [], ◌∷◌, ◌++◌, ◌⊎◌, All}
use grid_bot.Float.{◌≼◌}
use grid_bot.Float.Fixed.{Fixed, fixed_float}
use grid_bot.Samples.{lot, usd}
use grid_bot.Domain.{PositionLot, retained}
use grid_bot.PositionLots.{
  RuntimeBalances, select_lots, sum_cost, sum_base, limit_of_cost, retained_lots_of,
  exceeds_holdings, reconcile_open_position_lots, reconcile_trading_position_lots, reconcile_with,
  normalize_selected_lots,
}
use grid_bot.PositionLots.Selection.{
  IsKept, select_lots-bounded, reconcile_open_position_lots-IsKept,
}

abbrev cheap : PositionLot Fixed
cheap = record lot { id = "lot-2"; cost_quote = usd 100; entry_price = usd 100; opened_at = 6 }

abbrev kept_back : PositionLot Fixed
kept_back = record lot { id = "lot-3"; kind = some retained; cost_quote = usd 0 }

abbrev balances : RuntimeBalances Fixed
balances = record { deployed_quote_amount = usd 100; available_base_amount = usd 2 }

abbrev lots : List (PositionLot Fixed)
lots = lot ∷ cheap ∷ kept_back ∷ []

selects : reconcile_open_position_lots lots (some balances) ≡ some (cheap ∷ kept_back ∷ [])
unfolding reconcile_open_position_lots reconcile_trading_position_lots reconcile_with select_lots
    normalize_selected_lots
selects = refl

select_lots-bounded_example :
    ((select_lots balances (lot ∷ cheap ∷ [])).selected ≡ [])
    ⊎ ((sum_cost (select_lots balances (lot ∷ cheap ∷ [])).selected ≼ limit_of_cost balances)
        ≡ true)
select_lots-bounded_example = select_lots-bounded balances (lot ∷ cheap ∷ [])

reconcile_open_position_lots-IsKept_example :
    ((exceeds_holdings (some balances) (sum_base (retained_lots_of lots)) ≡ true)
      × (reconcile_open_position_lots lots (some balances) ≡ none))
    ⊎ ((exceeds_holdings (some balances) (sum_base (retained_lots_of lots)) ≡ false)
        × (ts : List (PositionLot Fixed)) × (reconcile_open_position_lots lots (some balances)
            ≡ some (ts ++ retained_lots_of lots))
        × All (IsKept lots) ts)
reconcile_open_position_lots-IsKept_example =
    reconcile_open_position_lots-IsKept lots (some balances)
