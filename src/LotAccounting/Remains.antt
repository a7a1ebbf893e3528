-- ===== src/LotAccounting/Remains.antt =====
-- packages/core/src/services/lot-accounting-service.ts: what a sell makes of a lot.
use grid_bot.Common.{
  ◌++◌, ◌&&◌, Bool, if◌then◌else◌, none, ◌≡◌, refl, subst, true, false, not, ◌||◌, some, List, ◌∷◌,
  ◌⊎◌, inl, inr, foldl, Bool-cases,
}
use grid_bot.Float.{Float, num, ◌⊖◌, ◌⊗◌, ◌⊘◌, ◌≼◌, ◌≺◌}
use grid_bot.Domain.{PositionLot, retained}
use grid_bot.Host.{◌<>◌}
use grid_bot.PriceTrigger.{round}
use grid_bot.LotAccounting.{LotExecution, is_matched, may_retain}

module _ {D : Type 0} ⦃f : Float D⦄ (e : LotExecution D) where
  -- What a sale of `sold` earns of the fill, net of its share of the fee.
  abbrev pub net_of : D → D
  net_of sold = (e.report.output_amount ⊖ e.report.fee_amount) ⊗ sold ⊘ e.report.input_amount

  -- The sale of a part of a lot has recovered the lot's cost, and the strategy may retain the rest.
  abbrev pub keeps_surplus : PositionLot D → D → Bool
  keeps_surplus o sold = may_retain e && o.cost_quote ⊖ f.decimal 1 8 ≼ net_of sold

  abbrev pub left_of : PositionLot D → D → D
  left_of o sold = round (f.max (num 0) (o.remaining_base_amount ⊖ sold)) 10

  -- the cost of the lot less the share of the part sold
  abbrev pub cost_left_of : PositionLot D → D → D
  cost_left_of o sold =
      round (f.max (num 0) (o.cost_quote ⊖ o.cost_quote ⊗ sold ⊘ o.remaining_base_amount)) 8

  -- What a lot has left and still costs after a part of it is sold: nothing when its surplus is kept.
  abbrev pub IsShare : PositionLot D → D → D → D → Type 0
  IsShare o sold rest cost =
      ((keeps_surplus o sold ≡ true) × (rest ≡ num 0) × (cost ≡ num 0))
      ⊎ ((keeps_surplus o sold ≡ false) × (rest ≡ left_of o sold) × (cost ≡ cost_left_of o sold))

  pub after_sale :
      (o : PositionLot D) (sold : D)
      → let k = keeps_surplus o sold in
        let cost = if k then o.cost_quote else o.cost_quote ⊗ sold ⊘ o.remaining_base_amount in
        IsShare o sold
          (if k then num 0 else left_of o sold)
          (if k then num 0 else round (f.max (num 0) (o.cost_quote ⊖ cost)) 8)
  after_sale o sold = elim (Bool-cases (keeps_surplus o sold)) [
    | inl c ↦ rw c (inl (refl, refl, refl))
    | inr c ↦ rw c (inr (refl, refl, refl))
  ]

  -- What is to be sold after a lot, of what was to be sold before it.
  abbrev pub sell_on : D → PositionLot D → D
  sell_on asked o =
      if not (is_matched e o) || asked ≼ f.decimal 1 10
      then asked
      else round (asked ⊖ f.min asked o.remaining_base_amount) 10

  -- What is still to be sold of the fill after the lots of a list.
  abbrev pub to_sell : List (PositionLot D) → D
  to_sell before = foldl sell_on e.report.input_amount before

  -- The sell leaves the lot alone: it does not match it, or nothing is left to sell.
  abbrev pub IsKept : D → PositionLot D → Type 0
  IsKept asked l = (is_matched e l ≡ false) ⊎ ((asked ≼ f.decimal 1 10) ≡ true)

  -- The lot is what a matched trading lot has left, under its name.
  abbrev pub IsRest : D → PositionLot D → PositionLot D → Type 0
  IsRest asked o l =
      (is_matched e o ≡ true)
      × (l
          ≡ record o { remaining_base_amount = l.remaining_base_amount; cost_quote = l.cost_quote })
      × IsShare o (f.min asked o.remaining_base_amount) l.remaining_base_amount l.cost_quote

  -- The lot is the surplus of a matched trading lot, kept at no cost.
  abbrev pub IsExtra : D → PositionLot D → PositionLot D → Type 0
  IsExtra asked o l =
      (is_matched e o ≡ true)
      × (keeps_surplus o (f.min asked o.remaining_base_amount) ≡ true)
      × ((num 0 ≺ left_of o (f.min asked o.remaining_base_amount)) ≡ true)
      × (l ≡ record o {
        id = o.id <> (":retained:" <> e.report.execution_id);
        kind = some retained;
        original_base_amount = left_of o (f.min asked o.remaining_base_amount);
        remaining_base_amount = left_of o (f.min asked o.remaining_base_amount);
        cost_quote = num 0;
        entry_price = num 0;
        closed_at = none;
        closed_by_execution_id = none;
      })

  -- The lot comes from a lot of before, with what was to be sold when the loop reached that one.
  abbrev pub ComesBy : (D → PositionLot D → PositionLot D → Type 0) → PositionLot D → Type 0
  ComesBy P l =
      (o : PositionLot D) × (before after : List (PositionLot D)) × (before ++ o ∷ after ≡ e.lots)
      × P (to_sell before) o l

  pub at_amount :
      (P : D → PositionLot D → PositionLot D → Type 0) (a b : D)
      → a ≡ b
      → (o l : PositionLot D) → P a o l
      → P b o l
  at_amount P a b e o l h = subst (λ q. P q o l) e h

  abbrev pub IsOld : PositionLot D → Type 0
  IsOld l = ComesBy (λ asked o l. (l ≡ o) × IsKept asked o) l ⊎ ComesBy IsRest l

  abbrev pub IsSurplus : PositionLot D → Type 0
  IsSurplus l = ComesBy IsExtra l
