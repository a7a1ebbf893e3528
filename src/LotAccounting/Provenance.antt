-- ===== src/LotAccounting/Provenance.antt =====
-- packages/core/src/services/lot-accounting-service.ts: where the lots after a sell come from.
use mathlib.Core.List.{append_assoc}
use grid_bot.Common.{
  foldl-push, ◌++◌, ap, sym, ◌∙◌, ◌≡◌, refl, subst, true, false, not, ◌||◌, List, [], ◌∷◌, arith,
  ◌⊎◌, inl, inr, Memᴰ, keep, foldl, Bool-cases, All, All-keep_of, All-append, All-mono,
  Mem-append_left, Mem-append_right, Mem-keep, All-push_if,
}
use grid_bot.Float.{Float, ◌⊕◌, ◌≼◌, ◌≺◌}
use grid_bot.Domain.{PositionLot}
use grid_bot.LotAccounting.{
  LotError, total_base, Result, ok, err, LotExecution, LotOutcome, Sale, is_matched, sell_lot,
  sell_step, opening_sale, outcome_of, is_left, apply_sell,
}
use grid_bot.LotAccounting.Remains.{
  after_sale, sell_on, to_sell, IsKept, IsRest, IsExtra, at_amount, IsOld, IsSurplus,
}

pub err≢ok : {A : Type 0} {x : LotError} {a : A} → ◌≡◌ {A = Result A} (err x) (ok a) → ⊥
err≢ok e = cc

pub ok-injective : {A : Type 0} {a b : A} → ok a ≡ ok b → a ≡ b
ok-injective e = cc

module _ {D : Type 0} ⦃f : Float D⦄ (e : LotExecution D) where
  pub record IsTraced (s : Sale D) : Type 0 where
    pub old : All (IsOld e) s.lots
    pub surplus : All (IsSurplus e) s.retained_lots

  module _ (before after : List (PositionLot D)) (o : PositionLot D)
      (split : before ++ o ∷ after ≡ e.lots) where
    sell_lot-IsTraced :
        (s : Sale D)
        → s.remaining ≡ to_sell e before
        → IsTraced s
        → is_matched e o ≡ true
        → IsTraced (sell_lot e s o)
    unfolding sell_lot
    sell_lot-IsTraced s r t matched = record {
      old = All-append (IsOld e) s.lots _ t.old (
        inr (
          o,
          before,
          after,
          split,
          at_amount e (IsRest e) _ _ r o _
              (matched, refl, after_sale e o (f.min s.remaining o.remaining_base_amount)),
        ),
        tt,
      );
      surplus = All-push_if (IsSurplus e) _ s.retained_lots _ t.surplus (λ c. (
        o,
        before,
        after,
        split,
        at_amount e (IsExtra e) _ _ r o _ (matched, ground arith, ground arith, refl),
      ));
    }

    sell_step-IsTraced :
        (s : Sale D) → s.remaining ≡ to_sell e before → IsTraced s → IsTraced (sell_step e s o)
    unfolding sell_step
    sell_step-IsTraced s r t =
        elim (Bool-cases (not (is_matched e o) || s.remaining ≼ f.decimal 1 10)) [
          | inl c ↦ rw c (record {
            old = All-append (IsOld e) s.lots _ t.old (
              inl (o, before, after, split, (refl, subst (λ q. IsKept e q o) r (ground arith))),
              tt,
            );
            surplus = t.surplus;
          })
          | inr c ↦ rw c (sell_lot-IsTraced s r t (ground arith))
        ]

  sell_step-remaining :
      (s : Sale D) (o : PositionLot D) → (sell_step e s o).remaining ≡ sell_on e s.remaining o
  unfolding sell_step sell_lot
  sell_step-remaining s o =
      elim (Bool-cases (not (is_matched e o) || s.remaining ≼ f.decimal 1 10)) [
        | inl c ↦ rw c refl
        | inr c ↦ rw c refl
      ]

  foldl-IsTraced :
      (before after : List (PositionLot D)) (s : Sale D)
      → before ++ after ≡ e.lots
      → s.remaining ≡ to_sell e before
      → IsTraced s
      → IsTraced (foldl (sell_step e) s after)
  foldl-IsTraced before [] s split r t = t
  foldl-IsTraced before (o ∷ after) s split r t =
      foldl-IsTraced (before ++ o ∷ []) after (sell_step e s o)
        (append_assoc before (o ∷ []) after ∙ split)
        (sell_step-remaining s o
          ∙ ap (λ q. sell_on e q o) r
          ∙ sym (foldl-push (sell_on e) e.report.input_amount before o))
        (sell_step-IsTraced before after o split s r t)

  abbrev final_sale : Sale D
  final_sale = foldl (sell_step e) (opening_sale e) e.lots

  final_sale-IsTraced : IsTraced final_sale
  final_sale-IsTraced =
      foldl-IsTraced [] e.lots (opening_sale e) refl refl (record { old = tt; surplus = tt })

  -- A lot that the sell does not match is carried along by the loop.
  sell_step-carries :
      (o x : PositionLot D) (s : Sale D)
      → is_matched e o ≡ false
      → Memᴰ o s.lots ⊎ (o ≡ x)
      → Memᴰ o (sell_step e s x).lots
  unfolding sell_step sell_lot
  sell_step-carries o x s un (inl m) =
      elim (Bool-cases (not (is_matched e x) || s.remaining ≼ f.decimal 1 10)) [
        | inl c ↦ rw c (Mem-append_left o s.lots _ m)
        | inr c ↦ rw c (Mem-append_left o s.lots _ m)
      ]
  sell_step-carries o x s un (inr same) =
      rw (subst (λ y. is_matched e y ≡ false) same un)
        (Mem-append_right o s.lots _ (Memᴰ.head same))

  foldl-carries :
      (o : PositionLot D) (xs : List (PositionLot D)) (s : Sale D)
      → is_matched e o ≡ false
      → Memᴰ o s.lots ⊎ Memᴰ o xs
      → Memᴰ o (foldl (sell_step e) s xs).lots
  foldl-carries o [] s un (inl m) = m
  foldl-carries o [] s un (inr m) = elim m [ ]
  foldl-carries o (x ∷ xs) s un (inl m) =
      foldl-carries o xs (sell_step e s x) un (inl (sell_step-carries o x s un (inl m)))
  foldl-carries o (x ∷ xs) s un (inr (Memᴰ.head same)) =
      foldl-carries o xs (sell_step e s x) un (inl (sell_step-carries o x s un (inr same)))
  foldl-carries o (x ∷ xs) s un (inr (Memᴰ.tail m)) =
      foldl-carries o xs (sell_step e s x) un (inr m)

  abbrev IsAccounted : LotOutcome D → Type 0
  IsAccounted r =
      All (λ l. IsOld e l ⊎ IsSurplus e l) r.lots
      × ((o : PositionLot D)
          → Memᴰ o e.lots
          → is_matched e o ≡ false
          → is_left o ≡ true
          → Memᴰ o r.lots)

  outcome-IsAccounted : IsAccounted (outcome_of final_sale)
  outcome-IsAccounted = (
    All-append _ _ final_sale.retained_lots
        (All-keep_of _ is_left final_sale.lots
          (All-mono (IsOld e) _ final_sale.lots (λ l. inl) final_sale-IsTraced.old))
        (All-mono (IsSurplus e) _ final_sale.retained_lots (λ l. inr) final_sale-IsTraced.surplus),
    λ o m un left. Mem-append_left o _ final_sale.retained_lots (
        Mem-keep o is_left final_sale.lots left
          (foldl-carries o e.lots (opening_sale e) un (inr m))),
  )

  -- After a sell every lot comes from a lot of before. It is that lot unchanged, where the sell does not
  -- match it or nothing was left to sell; or it is what a matched trading lot has left under its name,
  -- with the rest of its cost; or it is the surplus of such a lot: the part that is left when the sale
  -- has recovered the lot's cost, named after the lot and the execution, which costs nothing and is kept
  -- only by a strategy that may retain. What is sold of a lot is the whole of it, or, if that is less,
  -- what the lots before it have left to sell of the fill. Every open lot that the sell does not match
  -- stays as it was, if more than 10^-10 is in it.
  pub apply_sell-provenance :
      (r : LotOutcome D)
      → apply_sell e ≡ ok r
      → All (λ l. IsOld e l ⊎ IsSurplus e l) r.lots
        × ((o : PositionLot D)
            → Memᴰ o e.lots
            → is_matched e o ≡ false
            → is_left o ≡ true
            → Memᴰ o r.lots)
  unfolding apply_sell
  apply_sell-provenance r q =
      elim (Bool-cases
        (total_base (keep (is_matched e) e.lots) ⊕ f.decimal 1 8 ≺ e.report.input_amount)) [
          | inl c ↦ absurd (err≢ok (rw c at q))
          | inr c ↦ subst IsAccounted (ok-injective (rw c at q)) outcome-IsAccounted
        ]
