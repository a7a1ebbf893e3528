-- ===== src/LotAccounting/Purchase.antt =====
-- packages/core/src/services/lot-accounting-service.ts: when a fill is refused, and what a buy adds.
use grid_bot.Common.{
  none, some, inl, inr, Bool-cases, ◌≡◌, refl, Bool, true, false, [], ◌∷◌, ◌++◌, arith, keep, any,
  All, any-false,
}
use grid_bot.Float.{Float, num, ◌⊕◌, ◌⊘◌, ◌≺◌}
use grid_bot.Host.{◌===◌, ◌<>◌}
use grid_bot.PriceTrigger.{round}
use grid_bot.Domain.{buy, sell, trading, PositionLot, TradeSide}
use grid_bot.LotAccounting.{
  bought_outcome, sold_outcome, ok, err, LotError, already_represented, oversold,
  invalid_quantities, LotExecution, LotOutcome, is_matched, is_valid_fill, apply_side,
  apply_lot_execution, total_base, opened_id, bought_lot,
}

module _ {D : Type 0} ⦃f : Float D⦄ (e : LotExecution D) where
  -- the fill is in the inventory already, or sells more than the matched lots hold
  abbrev pub is_represented : Bool
  is_represented = any (λ lot. lot.id === opened_id e) e.lots

  abbrev pub is_oversold : Bool
  is_oversold = total_base (keep (is_matched e) e.lots) ⊕ f.decimal 1 8 ≺ e.report.input_amount

  abbrev pub refusal : TradeSide → LotError
  refusal buy = already_represented
  refusal sell = oversold

  abbrev pub is_refused : TradeSide → Bool
  is_refused buy = is_represented
  is_refused sell = is_oversold

  apply_side-refused : (s : TradeSide) → is_refused s ≡ true → apply_side e s ≡ err (refusal s)
  unfolding apply_side
  apply_side-refused buy c = rw c refl
  apply_side-refused sell c = rw c refl

  -- The amounts are positive and finite, and the fee is finite and not negative.
  pub record IsValidFill : Type 0 where
    pub paid_finite : f.is_finite e.report.input_amount ≡ true
    pub paid : (num 0 ≺ e.report.input_amount) ≡ true
    pub received_finite : f.is_finite e.report.output_amount ≡ true
    pub received : (num 0 ≺ e.report.output_amount) ≡ true
    pub fee_finite : f.is_finite e.report.fee_amount ≡ true
    pub fee : (e.report.fee_amount ≺ num 0) ≡ false

  -- The lots are those of before and one trading lot of this fill.
  pub record IsPurchase (r : LotOutcome D) (l : PositionLot D) : Type 0 where
    pub added : r.lots ≡ e.lots ++ l ∷ []
    pub closes_none : r.closed_lot_ids ≡ []
    pub names : r.opened_lot_id ≡ some l.id
    pub named : l.id ≡ "lot-" <> e.report.execution_id
    pub new_name : All (λ o. (o.id === l.id) ≡ false) e.lots
    pub trades : l.kind ≡ some trading
    pub of_bot : l.bot_id ≡ e.bot_id
    pub bought : l.original_base_amount ≡ e.report.output_amount
    pub held : l.remaining_base_amount ≡ e.report.output_amount
    pub cost : l.cost_quote ≡ round (e.report.input_amount ⊕ e.report.fee_amount) 8
    pub price :
        l.entry_price
        ≡ round (round (e.report.input_amount ⊕ e.report.fee_amount) 8 ⊘ e.report.output_amount) 8
    pub opened_by : l.opened_by_execution_id ≡ e.report.execution_id
    pub opened : l.opened_at ≡ e.now
    pub unclosed : l.closed_at ≡ none

  abbrev pub IsOutcome : TradeSide → LotOutcome D → Type 0
  IsOutcome s r = s ≡ buy → (l : PositionLot D) × IsPurchase r l

  bought_outcome-IsPurchase : is_represented ≡ false → IsPurchase (bought_outcome e) (bought_lot e)
  bought_outcome-IsPurchase c = record {
    added = refl;
    closes_none = refl;
    names = refl;
    named = refl;
    new_name = any-false _ e.lots c;
    trades = refl;
    of_bot = refl;
    bought = refl;
    held = refl;
    cost = refl;
    price = refl;
    opened_by = refl;
    opened = refl;
    unclosed = refl;
  }

  apply_side-accepted :
      (s : TradeSide)
      → is_refused s ≡ false
      → (r : LotOutcome D) × (apply_side e s ≡ ok r) × IsOutcome s r
  unfolding apply_side
  apply_side-accepted buy c =
      (bought_outcome e, rw c refl, λ b. (bought_lot e, bought_outcome-IsPurchase c))
  apply_side-accepted sell c = (sold_outcome e, rw c refl, λ b. absurd (ground arith))

  valid-test : IsValidFill → is_valid_fill e.report ≡ true
  unfolding is_valid_fill
  valid-test v = ground arith

  test-IsValidFill : is_valid_fill e.report ≡ true → IsValidFill
  unfolding is_valid_fill
  test-IsValidFill t = record {
    paid_finite = ground arith;
    paid = ground arith;
    received_finite = ground arith;
    received = ground arith;
    fee_finite = ground arith;
    fee = ground arith;
  }

  invalid-test : ¬ IsValidFill → is_valid_fill e.report ≡ false
  invalid-test v = elim (Bool-cases (is_valid_fill e.report)) [
    | inl t ↦ elim (v (test-IsValidFill t)) [ ]
    | inr t ↦ t
  ]

  -- A fill is refused exactly for amounts that are not positive and finite or a fee that is negative or
  -- not finite, for a buy whose lot is in the inventory already, and for a sell above the matched
  -- inventory; else it has an outcome. A buy then appends one trading lot under a new name, which holds
  -- the amount received, costs the amount paid with the fee, and has the price that follows from both;
  -- it changes and closes no other lot.
  pub apply_lot_execution-refusals :
      ((¬ IsValidFill) → apply_lot_execution e ≡ err invalid_quantities)
      × (IsValidFill → is_refused e.side ≡ true → apply_lot_execution e ≡ err (refusal e.side))
      × (IsValidFill
          → is_refused e.side ≡ false
          → (r : LotOutcome D) × (apply_lot_execution e ≡ ok r) × IsOutcome e.side r)
  unfolding apply_lot_execution
  apply_lot_execution-refusals = (
    λ v. rw (invalid-test v) refl,
    λ v c. rw (valid-test v) (apply_side-refused e.side c),
    λ v c. rw (valid-test v) (apply_side-accepted e.side c),
  )
