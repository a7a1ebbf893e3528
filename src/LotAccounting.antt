-- ===== src/LotAccounting.antt =====
-- packages/core/src/services/lot-accounting-service.ts: how a fill changes the lots of a bot.
use Prim.Native.String
use grid_bot.Common.{
  ℕ, zero, suc, ◌+◌, ◌-◌, ◌*◌, ◌/◌, ◌%◌, ◌≤◌, ◌<◌, ◌≡◌, ◌≢◌, refl, sym, ap, subst, ◌∙◌, Bool, true,
  false, not, ◌&&◌, ◌||◌, Option, none, some, List, [], ◌∷◌, ◌++◌, String, arith, ◌⊎◌, ◌↔◌, inl,
  inr, Memᴰ, keep, find, any, all, first, sort_by, map, foldl, reverse, length, length-append,
  length-keep, length-sort_by, get_elem?, Bool-cases, Option-cases, All, All-Mem, All-keep,
  All-keep_of, All-append, All-mono, All-at, Mem-append_left, Mem-append_right, Mem-keep, foldl_inv,
  All-push_if, any-false, All-map, All-keep_both, length-map, All-sort_by, first-All, find-All,
  find-Mem, find-holds, if◌then◌else◌, if-true, if-false, ltb, leb, ◌==◌, leb→le, le→leb, or_else,
  or_option, none≢some, some-injective, max, min, is_some, is_none, str_eq, eq_iff, eq_refl,
}
use grid_bot.Float.{Float, IsIeee, IsNumber, num, ◌⊕◌, ◌⊗◌, ◌⊖◌, ◌⊘◌, ◌≼◌, ◌≺◌, ◌≈◌}
use grid_bot.Host.{Host, IsRuntime, ◌===◌, ◌<>◌, same_text, precedes}
pub mod Remains
pub mod Provenance
pub mod Purchase
pub mod Summary
mod Tests
use grid_bot.Domain.{
  buy, sell, StrategyMode, accumulate_usdc, TradeSide, PositionLot, trading, retained,
  same_strategy,
}
use grid_bot.PriceTrigger.{round}
use grid_bot.GridStrategy.{is_retained, contains}

-- the errors that the service throws
pub data LotError : Type 0 where
  invalid_quantities already_represented oversold : LotError

pub data Result (A : Type 0) : Type 0 where
  ok : A → Result A
  err : LotError → Result A

-- the part of an execution report that the accounting reads
pub record Fill (D : Type 0) : Type 0 where
  pub execution_id : String
  pub input_amount : D
  pub output_amount : D
  pub fee_amount : D

pub record LotExecution (D : Type 0) : Type 0 where
  pub lots : List (PositionLot D)
  pub bot_id : String
  pub strategy_mode : StrategyMode
  pub side : TradeSide
  pub report : Fill D
  pub matched_lot_ids : Option (List String)
  pub level_price : D
  pub now : ℕ

pub record LotOutcome (D : Type 0) : Type 0 where
  pub lots : List (PositionLot D)
  pub realized_pnl_delta : D
  pub opened_lot_id : Option String
  pub closed_lot_ids : List String

-- The variables of the loop over the lots.
pub record Sale (D : Type 0) : Type 0 where
  pub remaining : D
  pub realized_pnl_delta : D
  pub closed_lot_ids : List String
  pub retained_lots : List (PositionLot D)
  pub lots : List (PositionLot D)

module _ {D : Type 0} ⦃f : Float D⦄ where
  unfoldable pub is_trading_lot : PositionLot D → Bool
  is_trading_lot lot =
      not (is_retained lot.kind)
      && (is_none lot.closed_at && (num 0 ≺ lot.remaining_base_amount && num 0 ≺ lot.cost_quote))

  abbrev pub total_base : List (PositionLot D) → D
  total_base lots = foldl (λ sum lot. sum ⊕ lot.remaining_base_amount) (num 0) lots

  abbrev pub total_cost : List (PositionLot D) → D
  total_cost lots = foldl (λ sum lot. sum ⊕ lot.cost_quote) (num 0) lots

  unfoldable pub is_valid_fill : Fill D → Bool
  is_valid_fill r =
      (f.is_finite r.input_amount && num 0 ≺ r.input_amount)
      && ((f.is_finite r.output_amount && num 0 ≺ r.output_amount)
          && (f.is_finite r.fee_amount && not (r.fee_amount ≺ num 0)))

  abbrev pub opened_id : LotExecution D → String
  opened_id e = "lot-" <> e.report.execution_id

  abbrev pub bought_lot : LotExecution D → PositionLot D
  bought_lot e =
      let cost = round (e.report.input_amount ⊕ e.report.fee_amount) 8 in
      record {
        kind = some trading;
        id = opened_id e;
        bot_id = e.bot_id;
        original_base_amount = e.report.output_amount;
        remaining_base_amount = e.report.output_amount;
        entry_price = round (cost ⊘ e.report.output_amount) 8;
        cost_quote = cost;
        opened_by_execution_id = e.report.execution_id;
        closed_by_execution_id = none;
        opened_at = e.now;
        closed_at = none;
      }

  abbrev pub matched_ids : LotExecution D → List String
  matched_ids e = or_else e.matched_lot_ids (map (λ lot. lot.id) (keep is_trading_lot e.lots))

  abbrev pub is_matched : LotExecution D → PositionLot D → Bool
  is_matched e lot = is_trading_lot lot && contains (matched_ids e) lot.id

  abbrev pub may_retain : LotExecution D → Bool
  may_retain e = not (same_strategy e.strategy_mode accumulate_usdc)

  -- the surplus of a lot whose principal has been recovered
  abbrev pub surplus_lot : LotExecution D → PositionLot D → D → PositionLot D
  surplus_lot e lot remainder = record lot {
    id = lot.id <> (":retained:" <> e.report.execution_id);
    kind = some retained;
    original_base_amount = remainder;
    remaining_base_amount = remainder;
    cost_quote = num 0;
    entry_price = num 0;
    closed_at = none;
    closed_by_execution_id = none;
  }

  -- One lot of a sell, once it is known to be matched.
  unfoldable pub sell_lot : LotExecution D → Sale D → PositionLot D → Sale D
  sell_lot e s lot =
      let r = e.report in
      let sold = f.min s.remaining lot.remaining_base_amount in
      let net = (r.output_amount ⊖ r.fee_amount) ⊗ sold ⊘ r.input_amount in
      let retain = may_retain e && lot.cost_quote ⊖ f.decimal 1 8 ≼ net in
      let cost =
        if retain then lot.cost_quote else lot.cost_quote ⊗ sold ⊘ lot.remaining_base_amount in
      let remainder = round (f.max (num 0) (lot.remaining_base_amount ⊖ sold)) 10 in
      record {
        remaining = round (s.remaining ⊖ sold) 10;
        realized_pnl_delta = s.realized_pnl_delta ⊕ (net ⊖ cost);
        closed_lot_ids =
            if retain || remainder ≼ f.decimal 1 10
            then s.closed_lot_ids ++ lot.id ∷ []
            else s.closed_lot_ids;
        retained_lots =
            if retain && num 0 ≺ remainder
            then s.retained_lots ++ surplus_lot e lot remainder ∷ []
            else s.retained_lots;
        lots =
            s.lots
            ++ record lot {
              remaining_base_amount = if retain then num 0 else remainder;
              cost_quote =
                  if retain then num 0 else round (f.max (num 0) (lot.cost_quote ⊖ cost)) 8;
            }
              ∷ [];
      }

  unfoldable pub sell_step : LotExecution D → Sale D → PositionLot D → Sale D
  unfolding sell_lot
  sell_step e s lot =
      if not (is_matched e lot) || s.remaining ≼ f.decimal 1 10
      then record s { lots = s.lots ++ lot ∷ [] }
      else sell_lot e s lot

  abbrev pub opening_sale : LotExecution D → Sale D
  opening_sale e = record {
    remaining = e.report.input_amount;
    realized_pnl_delta = num 0;
    closed_lot_ids = [];
    retained_lots = [];
    lots = [];
  }

  abbrev pub is_left : PositionLot D → Bool
  is_left lot = f.decimal 1 10 ≺ lot.remaining_base_amount

  abbrev pub outcome_of : Sale D → LotOutcome D
  outcome_of s = record {
    lots = keep is_left s.lots ++ s.retained_lots;
    realized_pnl_delta = round s.realized_pnl_delta 8;
    opened_lot_id = none;
    closed_lot_ids = s.closed_lot_ids;
  }

  abbrev pub bought_outcome : LotExecution D → LotOutcome D
  bought_outcome e = record {
    lots = e.lots ++ bought_lot e ∷ [];
    realized_pnl_delta = num 0;
    opened_lot_id = some (opened_id e);
    closed_lot_ids = [];
  }

  unfoldable pub apply_buy : LotExecution D → Result (LotOutcome D)
  apply_buy e =
      if any (λ lot. lot.id === opened_id e) e.lots
      then err already_represented
      else ok (bought_outcome e)

  abbrev pub sold_outcome : LotExecution D → LotOutcome D
  sold_outcome e = outcome_of (foldl (sell_step e) (opening_sale e) e.lots)

  unfoldable pub apply_sell : LotExecution D → Result (LotOutcome D)
  unfolding sell_step is_trading_lot
  apply_sell e =
      if total_base (keep (is_matched e) e.lots) ⊕ f.decimal 1 8 ≺ e.report.input_amount
      then err oversold
      else ok (sold_outcome e)

  unfoldable pub apply_side : LotExecution D → TradeSide → Result (LotOutcome D)
  unfolding apply_buy apply_sell
  apply_side e buy = apply_buy e
  apply_side e sell = apply_sell e

  unfoldable pub apply_lot_execution : LotExecution D → Result (LotOutcome D)
  unfolding apply_side is_valid_fill
  apply_lot_execution e =
      if not (is_valid_fill e.report) then err invalid_quantities else apply_side e e.side
