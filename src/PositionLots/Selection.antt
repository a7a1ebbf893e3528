-- ===== src/PositionLots/Selection.antt =====
-- packages/core/src/utils/position-lots.ts: what the reconciliation selects.
use grid_bot.Common.{
  foldl-push, ◌≡◌, refl, sym, ap, subst, ◌∙◌, Bool, true, false, not, ◌&&◌, Option, none, some,
  List, [], ◌∷◌, ◌++◌, arith, ◌⊎◌, inl, inr, Memᴰ, keep, sort_by, length, Bool-cases, All, All-Mem,
  All-append, All-mono, foldl_inv, All-map, All-keep_both, All-sort_by, if-both, ◌==◌,
}
use grid_bot.Float.{Float, num, ◌⊕◌, ◌≼◌, ◌≈◌}
use grid_bot.Domain.{PositionLot}
use grid_bot.PositionLots.{
  RuntimeBalances, Chosen, is_retained_lot, is_open_lot, sum_cost, sum_base, choose, select_lots,
  limit_of_cost, normalize_selected_lots, scale_lot, base_scale, quote_scale, base_matches,
  reconcile_with, reconcile_trading_position_lots, retained_lots_of, exceeds_holdings,
  trading_runtime, reconcile_open_position_lots, is_nearer, target_average, min_tolerance_usd,
  min_tolerance_base,
}

module _ {D : Type 0} ⦃f : Float D⦄ where
  -- the running cost is that of the selected lots, and fits unless nothing is selected
  record IsWithin (limit : D) (s : Chosen D) : Type 0 where
    pub summed : s.selected_cost_quote ≡ sum_cost s.selected
    pub fits : (s.selected ≡ []) ⊎ (s.selected_cost_quote ≼ limit) ≡ true

  choose-IsWithin :
      (limit : D) (s : Chosen D) (lot : PositionLot D)
      → IsWithin limit s
      → IsWithin limit (choose limit s lot)
  choose-IsWithin limit s lot h =
      if-both (IsWithin limit) (s.selected_cost_quote ⊕ lot.cost_quote ≼ limit) _ _
        (λ t. record {
          summed =
              ap (λ c. c ⊕ lot.cost_quote) h.summed
              ∙ sym (foldl-push (λ sum l. sum ⊕ l.cost_quote) (num 0) s.selected lot);
          fits = inr t;
        })
        (λ _. h)

  abbrev Any : PositionLot D → Type 0
  Any _ = Unit

  every_lot : (xs : List (PositionLot D)) → All Any xs
  every_lot [] = tt
  every_lot (x ∷ xs) = (tt, every_lot xs)

  -- The lots that the greedy selection keeps cost no more than the deployed quote and its tolerance,
  -- added up in the order in which they were kept, unless it keeps none.
  pub select_lots-bounded :
      (r : RuntimeBalances D) (active : List (PositionLot D))
      → ((select_lots r active).selected ≡ [])
        ⊎ ((sum_cost (select_lots r active).selected ≼ limit_of_cost r) ≡ true)
  unfolding select_lots
  select_lots-bounded r active =
      let h = all_fit in
      elim h.fits [
        | inl e ↦ inl e
        | inr e ↦ inr (subst (λ c. (c ≼ limit_of_cost r) ≡ true) h.summed e)
      ]
    where
      all_fit : IsWithin (limit_of_cost r) (select_lots r active)
      all_fit =
          foldl_inv (IsWithin (limit_of_cost r)) Any (choose (limit_of_cost r))
            (sort_by (is_nearer (target_average r)) active) _
            (λ s lot p _. choose-IsWithin (limit_of_cost r) s lot p)
            (every_lot (sort_by (is_nearer (target_average r)) active))
            (record { summed = refl; fits = inl refl })

  -- A lot of the result: an open trading lot of the input, whose amounts alone may be scaled.
  abbrev pub IsKept : List (PositionLot D) → PositionLot D → Type 0
  IsKept lots q =
      (l : PositionLot D) × Memᴰ l lots
      × (is_open_lot l ≡ true)
      × (is_retained_lot l.kind ≡ false)
      × (q ≡ record l {
        original_base_amount = q.original_base_amount;
        remaining_base_amount = q.remaining_base_amount;
        cost_quote = q.cost_quote;
        entry_price = q.entry_price;
      })

  -- a lot with the amounts and the price of another lot that is scaled
  abbrev rescaled : D → D → PositionLot D → PositionLot D → PositionLot D
  rescaled a b q x = record x {
    original_base_amount = (scale_lot a b q).original_base_amount;
    remaining_base_amount = (scale_lot a b q).remaining_base_amount;
    cost_quote = (scale_lot a b q).cost_quote;
    entry_price = (scale_lot a b q).entry_price;
  }

  -- a scaled lot is kept if the lot was
  scale_lot-IsKept :
      (lots : List (PositionLot D)) (a b : D) (q : PositionLot D)
      → IsKept lots q
      → IsKept lots (scale_lot a b q)
  scale_lot-IsKept lots a b q (l, m, o, t, e) = (l, m, o, t, ap (rescaled a b q) e)

  normalize-All :
      (P : PositionLot D → Type 0) (r : RuntimeBalances D) (xs : List (PositionLot D))
      → ((a b : D) (l : PositionLot D) → P l → P (scale_lot a b l))
      → All P xs
      → All P (normalize_selected_lots r xs)
  unfolding normalize_selected_lots
  normalize-All P r xs g h =
      if-both (All P) (length xs == 0) _ _ (λ _. h)
        (λ _.
          if-both (All P) (base_scale r xs ≈ num 1 && quote_scale r xs ≈ num 1) _ _ (λ _. h)
            (λ _.
              All-map P (scale_lot (base_scale r xs) (quote_scale r xs)) xs
                (All-mono _ _ xs (λ l p. g _ _ l p) h)))

  selected-All :
      (P : PositionLot D → Type 0) (r : RuntimeBalances D) (active : List (PositionLot D))
      → All P active
      → All P (select_lots r active).selected
  unfolding select_lots
  selected-All P r active h =
      foldl_inv (λ s. All P s.selected) P (choose (limit_of_cost r))
        (sort_by (is_nearer (target_average r)) active) _
        (λ s lot p q.
          if-both (λ (c : Chosen D). All P c.selected)
            (s.selected_cost_quote ⊕ lot.cost_quote ≼ limit_of_cost r) _ _
            (λ _. All-append P s.selected (lot ∷ []) p (q, tt)) (λ _. p))
        (All-sort_by P _ active h) tt

  trading-All :
      (P : PositionLot D → Type 0) (runtime : Option (RuntimeBalances D))
      (lots : List (PositionLot D))
      → ((a b : D) (l : PositionLot D) → P l → P (scale_lot a b l))
      → All P (keep is_open_lot lots)
      → All P (reconcile_trading_position_lots runtime lots)
  unfolding reconcile_trading_position_lots reconcile_with
  trading-All P none lots g h = h
  trading-All P (some r) lots g h =
      if-both (All P) (r.deployed_quote_amount ≼ min_tolerance_usd) _ _ (λ _. tt)
        (λ _.
          if-both (All P) (r.available_base_amount ≼ min_tolerance_base) _ _ (λ _. tt)
            (λ _.
              if-both (All P)
                (sum_cost (keep is_open_lot lots) ≼ limit_of_cost r
                  && base_matches r (keep is_open_lot lots))
                _ _ (λ _. normalize-All P r (keep is_open_lot lots) g h)
                (λ _.
                  normalize-All P r _ g
                    (All-sort_by P _ _ (selected-All P r (keep is_open_lot lots) h)))))

  -- The reconciliation throws exactly when the retained lots hold more than the balance and its
  -- tolerance. Else its result ends with every retained lot, unchanged, and each lot before them is an
  -- open trading lot of the input, of which at most the two base amounts, the cost
  -- and the entry price have changed.
  pub reconcile_open_position_lots-IsKept :
      (lots : List (PositionLot D)) (runtime : Option (RuntimeBalances D))
      → ((exceeds_holdings runtime (sum_base (retained_lots_of lots)) ≡ true)
          × (reconcile_open_position_lots lots runtime ≡ none))
        ⊎ ((exceeds_holdings runtime (sum_base (retained_lots_of lots)) ≡ false)
            × (ts : List (PositionLot D)) × (reconcile_open_position_lots lots runtime
                ≡ some (ts ++ retained_lots_of lots))
            × All (IsKept lots) ts)
  unfolding reconcile_open_position_lots
  reconcile_open_position_lots-IsKept lots runtime =
      elim (Bool-cases (exceeds_holdings runtime (sum_base (retained_lots_of lots)))) [
        | inl t ↦ inl (t, rw t refl)
        | inr t ↦ inr (t, _, rw t refl, kept)
      ]
    where
      not-false : (b : Bool) → not b ≡ true → b ≡ false
      not-false b e = ground arith

      kept : All (IsKept lots) (
          reconcile_trading_position_lots
            (trading_runtime runtime (sum_base (retained_lots_of lots)))
            (keep (λ l. not (is_retained_lot l.kind)) lots))
      kept =
          trading-All (IsKept lots) (trading_runtime runtime (sum_base (retained_lots_of lots)))
            (keep (λ l. not (is_retained_lot l.kind)) lots) (scale_lot-IsKept lots)
            (All-mono _ _ _ (λ l p. (l, p.0, p.1, not-false (is_retained_lot l.kind) p.2, refl))
              (All-keep_both (λ l. Memᴰ l lots) is_open_lot (λ l. not (is_retained_lot l.kind)) lots
                (All-Mem lots)))
