-- ===== src/LotAccounting/Tests.antt =====
-- packages/core/src/services/lot-accounting-service.ts: runs, and the theorems there.
use grid_bot.Common.{ℕ, ◌≡◌, refl, true, false, none, some, [], ◌∷◌, String, ◌⊎◌, Memᴰ, map, All}
use grid_bot.Float.Fixed.{Fixed, fixed_float}
use grid_bot.Domain.{buy, sell, accumulate_base, accumulate_usdc, TradeSide, PositionLot}
use grid_bot.Samples.{usd, cents, lot}
use grid_bot.LotAccounting.{
  ok, err, LotExecution, LotOutcome, apply_lot_execution, apply_sell, sold_outcome,
  invalid_quantities, is_matched, is_left, is_trading_lot, sell_step,
}
use grid_bot.LotAccounting.Summary.{calculate_net_sell_pnl, summarize_lots}
use grid_bot.LotAccounting.Remains.{IsOld, IsSurplus}
use grid_bot.LotAccounting.Provenance.{apply_sell-provenance}
use grid_bot.LotAccounting.Purchase.{
  apply_lot_execution-refusals, is_refused, refusal, IsOutcome, IsValidFill,
}

-- A fill of the amounts against the one open lot, by a bot that accumulates the base.
abbrev fill : TradeSide → ℕ → ℕ → LotExecution Fixed
fill side paid received = record {
  lots = lot ∷ [];
  bot_id = "b";
  strategy_mode = accumulate_base;
  side = side;
  report = record {
    execution_id = "x2";
    input_amount = cents paid;
    output_amount = cents received;
    fee_amount = usd 0;
  };
  matched_lot_ids = none;
  level_price = usd 120;
  now = 9;
}

-- 0.95 sold for 114 recovers the cost of 110: the lot closes and 0.05 is retained at no cost.
surplus_retained :
    (map {B = String × Fixed × Fixed}
        (λ l. (l.id, l.remaining_base_amount, l.cost_quote))
        (sold_outcome (fill sell 95 11400)).lots
      ≡ ("lot-1:retained:x2", cents 5, usd 0) ∷ [])
    × ((sold_outcome (fill sell 95 11400)).closed_lot_ids ≡ "lot-1" ∷ [])
unfolding sell_step is_trading_lot
surplus_retained = (refl, refl)

apply_sell-provenance_example :
    All
      (λ l. IsOld (fill sell 95 11400) l ⊎ IsSurplus (fill sell 95 11400) l)
      (sold_outcome (fill sell 95 11400)).lots
    × ((o : PositionLot Fixed)
        → Memᴰ o (lot ∷ [])
        → is_matched (fill sell 95 11400) o ≡ false
        → is_left o ≡ true
        → Memᴰ o (sold_outcome (fill sell 95 11400)).lots)
unfolding apply_sell is_trading_lot
apply_sell-provenance_example =
    apply_sell-provenance (fill sell 95 11400) (sold_outcome (fill sell 95 11400)) refl

apply_lot_execution-refusals_example :
    let e = fill buy 9500 100 in
    ((¬ IsValidFill e) → apply_lot_execution e ≡ err invalid_quantities)
    × (IsValidFill e → is_refused e e.side ≡ true → apply_lot_execution e ≡ err (refusal e e.side))
    × (IsValidFill e
        → is_refused e e.side ≡ false
        → (r : LotOutcome Fixed) × (apply_lot_execution e ≡ ok r) × IsOutcome e e.side r)
apply_lot_execution-refusals_example = apply_lot_execution-refusals (fill buy 9500 100)

-- Half of the lot for 60, with a fee of 1: half of its cost of 110 is against it.
estimates_half :
    calculate_net_sell_pnl
      (lot ∷ [])
      (some ("lot-1" ∷ []))
      (cents 50)
      (usd 60)
      (usd 1)
      accumulate_usdc
    ≡ some (usd 4)
unfolding calculate_net_sell_pnl is_trading_lot
estimates_half = refl

unmatched_sale :
    calculate_net_sell_pnl (lot ∷ []) none (cents 50) (usd 60) (usd 1) accumulate_usdc ≡ none
unfolding calculate_net_sell_pnl is_trading_lot
unmatched_sale = refl

sums_up : (summarize_lots (lot ∷ []) (usd 120)).unrealized_pnl_usd ≡ usd 10
unfolding summarize_lots is_trading_lot
sums_up = refl
