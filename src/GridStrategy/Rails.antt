-- ===== src/GridStrategy/Rails.antt =====
-- packages/core/src/services/grid-strategy-service.ts: the rails, and the crossings they give.
use grid_bot.Common.{
  ℕ, ◌≡◌, refl, ◌∙◌, true, false, List, arith, inl, inr, Memᴰ, keep, length, length-sort_by,
  Bool-cases, All, All-Mem, All-mono, All-map, All-keep_both, length-map, All-sort_by,
  if◌then◌else◌,
}
use grid_bot.Float.{Float, ◌≺◌, ◌≈◌}
use grid_bot.Domain.{GridLevel, buy, sell, TriggerSignal}
use grid_bot.PriceTrigger.{price_move_touches_level}
use grid_bot.GridStrategy.Levels.{
  is_executable_level, detect_crossed_levels, level, crossing, comes_first,
}

module _ {D : Type 0} ⦃f : Float D⦄ where
  -- What a crossing tells of the levels and of the move.
  pub record IsCrossing (levels : List (GridLevel D)) (previous current : D) (now : ℕ)
      (s : TriggerSignal D) : Type 0 where
    pub rail : Memᴰ (level s.level_index s.level_price) levels
    pub touched : price_move_touches_level s.level_price previous current ≡ true
    pub executable : is_executable_level s.level_index (length levels) s.side ≡ true
    pub falls : s.side ≡ buy → (current ≺ previous) ≡ true
    pub rises : s.side ≡ sell → (current ≺ previous) ≡ false
    pub observed : s.observed_price ≡ current

  detect_crossed_levels-All :
      (levels : List (GridLevel D)) (previous current : D) (now : ℕ)
      → All
          (IsCrossing levels previous current now)
          (detect_crossed_levels levels previous current now)
  unfolding detect_crossed_levels
  detect_crossed_levels-All levels previous current now = elim (Bool-cases (previous ≈ current)) [
    | inl e ↦ rw e tt
    | inr e ↦
        let side = if current ≺ previous then buy else sell in
        rw e (
          All-map _ (crossing side current now) _ (
            All-sort_by _ _ _ (
              All-mono _ _ _
                (λ l p. record {
                  rail = p.0;
                  executable = p.1;
                  touched = p.2;
                  falls = λ q. ground arith;
                  rises = λ q. ground arith;
                  observed = refl;
                })
                (All-keep_both _ _ _ levels (All-Mem levels)))))
  ]

  -- the rails that the move touches and that can be executed on the side of the move
  abbrev pub due_rails : List (GridLevel D) → D → D → List (GridLevel D)
  due_rails levels previous current =
      keep
        (λ l.
          is_executable_level l.index (length levels) (if current ≺ previous then buy else sell))
        (keep (λ l. price_move_touches_level l.price previous current) levels)

  detect_crossed_levels-length :
      (levels : List (GridLevel D)) (previous current : D) (now : ℕ)
      → length (detect_crossed_levels levels previous current now)
        ≡ (if previous ≈ current then 0 else length (due_rails levels previous current))
  unfolding detect_crossed_levels
  detect_crossed_levels-length levels previous current now =
      elim (Bool-cases (previous ≈ current)) [
        | inl e ↦ rw e refl
        | inr e ↦
            let side = if current ≺ previous then buy else sell in
            rw e (
              length-map (crossing side current now) _
              ∙ length-sort_by (comes_first side) (due_rails levels previous current))
      ]

  -- Every crossing stands for a rail of the grid that the move touches and that can be executed on its
  -- side, which is the side of the move. There are as many as such rails, and none when the price
  -- stands.
  pub detect_crossed_levels-IsCrossing :
      (levels : List (GridLevel D)) (previous current : D) (now : ℕ)
      → All
          (IsCrossing levels previous current now)
          (detect_crossed_levels levels previous current now)
        × (length (detect_crossed_levels levels previous current now)
            ≡ (if previous ≈ current then 0 else length (due_rails levels previous current)))
  detect_crossed_levels-IsCrossing levels previous current now = (
    detect_crossed_levels-All levels previous current now,
    detect_crossed_levels-length levels previous current now,
  )
