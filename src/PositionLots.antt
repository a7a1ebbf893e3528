-- ===== src/PositionLots.antt =====
-- packages/core/src/utils/position-lots.ts: the open lots that agree with the balances of the runtime.
pub mod Selection
mod Tests
use Prim.Native.String
use grid_bot.Common.{
  ℕ, zero, suc, ◌+◌, ◌-◌, ◌*◌, ◌/◌, ◌%◌, ◌≤◌, ◌<◌, ◌≡◌, ◌≢◌, refl, sym, ap, subst, ◌∙◌, Bool, true,
  false, not, ◌&&◌, ◌||◌, Option, none, some, List, [], ◌∷◌, ◌++◌, String, arith, ◌⊎◌, ◌↔◌, inl,
  inr, Memᴰ, keep, find, any, all, first, sort_by, map, foldl, reverse, length, length-append,
  length-keep, length-sort_by, get_elem?, Bool-cases, Option-cases, All, All-Mem, All-keep,
  All-keep_of, All-append, All-mono, All-at, Mem-append_left, Mem-append_right, Mem-keep, foldl_inv,
  All-push_if, any-false, All-map, All-keep_both, length-map, All-sort_by, sort_by-IsChain,
  IsChain-map, All-keep_with, IsChain, Leads, first-All, find-All, find-Mem, find-holds,
  if◌then◌else◌, if-both, false≢true, if-true, if-false, ltb, leb, ◌==◌, leb→le, le→leb, or_else,
  or_option, none≢some, some-injective, max, min, is_some, is_none, str_eq, eq_iff, eq_refl, ℤ, pos,
  ◌+ℤ◌, ◌-ℤ◌, add_comm, add_zero, sum_assoc, swap_ends, under_sum, sub_of_sum, add_cancel, int_laws,
  and-left, and-right, or-true, or-false, or_assoc, update_rows, All-update_rows, IsAbsent, IsKeyed,
  by_key, keyed_unique, update_rows-IsAbsent, update_rows-IsKeyed, by_key-update_rows, str_eq_sym,
  or-false_left, or-false_right, take, drop, take_last, last, fill, length-take, length-drop,
  length-fill, take-all, take-take, drop-take, take-fill, take-append, get_elem?-take, map_index,
  length-map_index, map_index-take, Mem-sort_by, Mem-map, All-any, or-cases, any-All,
  IsAbsent-update_rows, All-pair,
}
use grid_bot.Float.{Float, IsIeee, IsNumber, num, ◌⊕◌, ◌⊗◌, ◌⊖◌, ◌⊘◌, ◌≼◌, ◌≺◌, ◌≈◌}
use grid_bot.Host.{Host, IsRuntime, IsCollation, ◌===◌, ◌<>◌, same_text, precedes}
use grid_bot.Domain.{PositionLot, LotKind, retained}

-- the part of a state snapshot that is read
pub record RuntimeBalances (D : Type 0) : Type 0 where
  pub deployed_quote_amount : D
  pub available_base_amount : D

-- The variables of the loop over the candidates.
pub record Chosen (D : Type 0) : Type 0 where
  pub selected : List (PositionLot D)
  pub selected_cost_quote : D

abbrev pub is_retained_lot : Option LotKind → Bool
is_retained_lot (some retained) = true
is_retained_lot _ = false

module _ {D : Type 0} ⦃f : Float D⦄ where
  abbrev pub min_tolerance_usd : D
  min_tolerance_usd = f.decimal 5 2

  abbrev pub min_tolerance_base : D
  min_tolerance_base = f.decimal 1 6

  abbrev pub is_open_lot : PositionLot D → Bool
  is_open_lot lot =
      min_tolerance_base ≺ lot.remaining_base_amount
      && (min_tolerance_usd ≺ lot.cost_quote && is_none lot.closed_at)

  abbrev pub get_tolerance : D → D
  get_tolerance deployed = f.max min_tolerance_usd (f.abs deployed ⊗ f.decimal 1 3)

  abbrev pub get_base_tolerance : D → D
  get_base_tolerance base = f.max min_tolerance_base (f.abs base ⊗ f.decimal 1 3)

  abbrev pub get_lot_cost_basis : PositionLot D → D
  get_lot_cost_basis lot =
      if num 0 ≺ lot.remaining_base_amount
      then lot.cost_quote ⊘ lot.remaining_base_amount
      else lot.entry_price

  abbrev pub round_lot : D → ℕ → D
  round_lot value decimals =
      let factor = f.pow (num 10) (num decimals) in
      f.nearest ((value ⊕ f.epsilon) ⊗ factor) ⊘ factor

  abbrev pub sum_base : List (PositionLot D) → D
  sum_base lots = foldl (λ sum lot. sum ⊕ lot.remaining_base_amount) (num 0) lots

  abbrev pub sum_cost : List (PositionLot D) → D
  sum_cost lots = foldl (λ sum lot. sum ⊕ lot.cost_quote) (num 0) lots

  abbrev pub base_scale : RuntimeBalances D → List (PositionLot D) → D
  base_scale r lots =
      let total = sum_base lots in
      if num 0 ≺ r.available_base_amount
        && (num 0 ≺ total
            && get_base_tolerance r.available_base_amount ≺ total ⊖ r.available_base_amount)
      then r.available_base_amount ⊘ total
      else num 1

  abbrev pub quote_scale : RuntimeBalances D → List (PositionLot D) → D
  quote_scale r lots =
      let total = sum_cost lots in
      if num 0 ≺ r.deployed_quote_amount
        && (num 0 ≺ total
            && get_tolerance r.deployed_quote_amount ≺ f.abs (total ⊖ r.deployed_quote_amount))
      then r.deployed_quote_amount ⊘ total
      else num 1

  abbrev pub scale_lot : D → D → PositionLot D → PositionLot D
  scale_lot base quote lot =
      let remaining = round_lot (lot.remaining_base_amount ⊗ base) 10 in
      let cost = round_lot (lot.cost_quote ⊗ quote) 10 in
      record lot {
        original_base_amount = f.max remaining (round_lot (lot.original_base_amount ⊗ base) 10);
        remaining_base_amount = remaining;
        cost_quote = cost;
        entry_price =
            if num 0 ≺ remaining && num 0 ≺ cost
            then round_lot (cost ⊘ remaining) 8
            else lot.entry_price;
      }

  unfoldable pub normalize_selected_lots :
      RuntimeBalances D → List (PositionLot D) → List (PositionLot D)
  normalize_selected_lots r lots =
      if length lots == 0
      then lots
      else if base_scale r lots ≈ num 1 && quote_scale r lots ≈ num 1
      then lots
      else map (scale_lot (base_scale r lots) (quote_scale r lots)) lots

  -- `x && x > 0 ? deployed / x : null`
  abbrev pub target_average : RuntimeBalances D → Option D
  target_average r =
      if num 0 ≺ r.available_base_amount
      then some (r.deployed_quote_amount ⊘ r.available_base_amount)
      else none

  abbrev pub is_later : PositionLot D → PositionLot D → Bool
  is_later a b = ltb b.opened_at a.opened_at

  -- whether the comparison of the sort is negative
  abbrev pub is_nearer : Option D → PositionLot D → PositionLot D → Bool
  is_nearer none a b = is_later a b
  is_nearer (some target) a b =
      let left = f.abs (get_lot_cost_basis a ⊖ target) in
      let right = f.abs (get_lot_cost_basis b ⊖ target) in
      if f.decimal 1 8 ≺ f.abs (left ⊖ right) then left ⊖ right ≺ num 0 else is_later a b

  abbrev pub limit_of_cost : RuntimeBalances D → D
  limit_of_cost r = r.deployed_quote_amount ⊕ get_tolerance r.deployed_quote_amount

  abbrev pub choose : D → Chosen D → PositionLot D → Chosen D
  choose limit s lot =
      if s.selected_cost_quote ⊕ lot.cost_quote ≼ limit
      then record {
        selected = s.selected ++ lot ∷ [];
        selected_cost_quote = s.selected_cost_quote ⊕ lot.cost_quote;
      }
      else s

  unfoldable pub select_lots : RuntimeBalances D → List (PositionLot D) → Chosen D
  select_lots r active =
      foldl (choose (limit_of_cost r)) (record { selected = []; selected_cost_quote = num 0 })
        (sort_by (is_nearer (target_average r)) active)

  abbrev pub base_matches : RuntimeBalances D → List (PositionLot D) → Bool
  base_matches r active =
      r.available_base_amount ≼ num 0
      || f.abs (sum_base active ⊖ r.available_base_amount)
        ≼ get_base_tolerance r.available_base_amount

  unfoldable pub reconcile_with : RuntimeBalances D → List (PositionLot D) → List (PositionLot D)
  reconcile_with r active =
      if r.deployed_quote_amount ≼ min_tolerance_usd
      then []
      else if r.available_base_amount ≼ min_tolerance_base
      then []
      else if sum_cost active ≼ limit_of_cost r && base_matches r active
      then normalize_selected_lots r active
      else normalize_selected_lots r
          (sort_by (λ a b. ltb a.opened_at b.opened_at) (select_lots r active).selected)

  unfoldable pub reconcile_trading_position_lots :
      Option (RuntimeBalances D) → List (PositionLot D) → List (PositionLot D)
  reconcile_trading_position_lots none lots = keep is_open_lot lots
  reconcile_trading_position_lots (some r) lots = reconcile_with r (keep is_open_lot lots)

  abbrev pub retained_lots_of : List (PositionLot D) → List (PositionLot D)
  retained_lots_of lots =
      keep (λ l. is_retained_lot l.kind && (num 0 ≺ l.remaining_base_amount && is_none l.closed_at))
        lots

  abbrev pub exceeds_holdings : Option (RuntimeBalances D) → D → Bool
  exceeds_holdings none base = false
  exceeds_holdings (some r) base =
      r.available_base_amount ⊕ get_base_tolerance r.available_base_amount ≺ base

  abbrev pub trading_runtime : Option (RuntimeBalances D) → D → Option (RuntimeBalances D)
  trading_runtime none base = none
  trading_runtime (some r) base =
      some (record r { available_base_amount = f.max (num 0) (r.available_base_amount ⊖ base) })

  -- `none` is the error that the retained lots exceed the holdings
  unfoldable pub reconcile_open_position_lots :
      List (PositionLot D) → Option (RuntimeBalances D) → Option (List (PositionLot D))
  reconcile_open_position_lots lots runtime =
      let base = sum_base (retained_lots_of lots) in
      if exceeds_holdings runtime base
      then none
      else some (
          reconcile_trading_position_lots (trading_runtime runtime base)
            (keep (λ l. not (is_retained_lot l.kind)) lots)
          ++ retained_lots_of lots)
