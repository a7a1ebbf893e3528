-- ===== src/LotAccounting/Summary.antt =====
-- packages/core/src/services/lot-accounting-service.ts, calculateNetSellPnl and summarizeLots: what a
-- sell would earn, and the totals of the lots.
use grid_bot.Common.{
  ◌≡◌, refl, sym, ap, ◌∙◌, Bool, true, false, not, ◌&&◌, ◌||◌, Option, none, some, List, [], ◌∷◌,
  String, keep, foldl, Bool-cases, inl, inr, if◌then◌else◌, or_else, is_none, or-true,
}
use grid_bot.Float.{Float, num, ◌⊕◌, ◌⊗◌, ◌⊖◌, ◌⊘◌, ◌≼◌, ◌≺◌}
use grid_bot.Domain.{StrategyMode, accumulate_usdc, PositionLot, same_strategy}
use grid_bot.PriceTrigger.{round}
use grid_bot.GridStrategy.{contains}
use grid_bot.LotAccounting.{is_trading_lot, total_base, total_cost}

-- The variables of the loop over the lots; it breaks once it is finished.
pub record NetSale (D : Type 0) : Type 0 where
  pub remaining : D
  pub cost : D
  pub finished : Bool

pub record LotSummary (D : Type 0) : Type 0 where
  pub total_base_amount : D
  pub trading_base_amount : D
  pub retained_base_amount : D
  pub trading_cost_quote : D
  pub total_cost_quote : D
  pub unrealized_pnl_usd : D
  pub average_entry_price : Option D

keep-true :
    {A : Type 0} (p : A → Bool) (x : A) (xs : List A) → p x ≡ true → keep p (x ∷ xs) ≡ x ∷ keep p xs
keep-true p x xs e = rw e refl

module _ {D : Type 0} ⦃f : Float D⦄ where
  abbrev pub is_sold : List String → PositionLot D → Bool
  is_sold matched lot = is_trading_lot lot && contains matched lot.id

  -- One lot of the loop, once it is known to be matched.
  abbrev pub sell_from : StrategyMode → PositionLot D → NetSale D → NetSale D
  sell_from mode lot s =
      let sold = f.min s.remaining lot.remaining_base_amount in
      let cost =
        if same_strategy mode accumulate_usdc
        then lot.cost_quote ⊗ sold ⊘ lot.remaining_base_amount
        else lot.cost_quote in
      record {
        remaining = s.remaining ⊖ sold;
        cost = s.cost ⊕ cost;
        finished = s.remaining ⊖ sold ≼ f.decimal 1 10;
      }

  abbrev pub net_step : StrategyMode → List String → NetSale D → PositionLot D → NetSale D
  net_step mode matched s lot =
      if s.finished || not (is_sold matched lot) then s else sell_from mode lot s

  abbrev pub net_sale : StrategyMode → List String → D → List (PositionLot D) → NetSale D
  net_sale mode matched requested lots =
      foldl (net_step mode matched)
        (record { remaining = requested; cost = num 0; finished = false }) lots

  unfoldable pub calculate_net_sell_pnl :
      List (PositionLot D) → Option (List String) → D → D → D → StrategyMode → Option D
  calculate_net_sell_pnl lots matched_lot_ids requested expected fee mode =
      let s = net_sale mode (or_else matched_lot_ids []) requested lots in
      if not (num 0 ≺ requested) || not (f.is_finite expected && f.is_finite fee)
      then none
      else if f.decimal 1 8 ≺ s.remaining
      then none
      else some (round (expected ⊖ fee ⊖ s.cost) 8)

  abbrev pub is_active_lot : PositionLot D → Bool
  is_active_lot lot = is_none lot.closed_at && num 0 ≺ lot.remaining_base_amount

  unfoldable pub summarize_lots : List (PositionLot D) → D → LotSummary D
  summarize_lots lots price =
      let active = keep is_active_lot lots in
      let held = keep is_trading_lot active in
      let total = round (total_base active) 10 in
      let trading = round (total_base held) 10 in
      let cost = round (total_cost active) 8 in
      let trading_cost = round (total_cost held) 8 in
      record {
        total_base_amount = total;
        trading_base_amount = trading;
        retained_base_amount = round (total ⊖ trading) 10;
        trading_cost_quote = trading_cost;
        total_cost_quote = cost;
        unrealized_pnl_usd = round (total ⊗ price ⊖ cost) 8;
        average_entry_price =
            if num 0 ≺ trading then some (round (trading_cost ⊘ trading) 8) else none;
      }

  net_sale-keep :
      (mode : StrategyMode) (matched : List String) (s : NetSale D) (lots : List (PositionLot D))
      → foldl (net_step mode matched) s lots
        ≡ foldl (net_step mode matched) s (keep (is_sold matched) lots)
  net_sale-keep mode matched s [] = refl
  net_sale-keep mode matched s (lot ∷ lots) = elim (Bool-cases (is_sold matched lot)) [
    | inl e ↦
        net_sale-keep mode matched (net_step mode matched s lot) lots
        ∙ ap (foldl (net_step mode matched) s) (sym (keep-true (is_sold matched) lot lots e))
    | inr e ↦ rw e (rw (or-true s.finished) (net_sale-keep mode matched s lots))
  ]

  -- The estimate of a sell depends on the matched trading lots alone, in their order: lots that are
  -- closed, retained, empty, without a cost or not matched may be left out.
  calculate_net_sell_pnl-matched :
      (lots : List (PositionLot D)) (ids : List String) (requested expected fee : D)
      (mode : StrategyMode)
      → calculate_net_sell_pnl lots (some ids) requested expected fee mode
        ≡ calculate_net_sell_pnl (keep (is_sold ids) lots) (some ids) requested expected fee mode
  unfolding calculate_net_sell_pnl
  calculate_net_sell_pnl-matched lots ids requested expected fee mode =
      rw (net_sale-keep mode ids _ lots) refl
