-- ===== src/PortfolioPolicy/History.antt =====
-- packages/core/src/services/portfolio-policy-service.ts: what the policy sees of the candles, and the
-- number of levels that it suggests.
use grid_bot.Common.{
  ◌≡◌, refl, sym, ap, subst, ◌∙◌, true, Option, none, some, List, String, inl, inr, keep, leb, last,
}
use grid_bot.Float.{Float, IsIeee, IsNumber, num}
use grid_bot.Indicators.Series.{MathFunctions}
use grid_bot.PortfolioPolicy.Inputs.{
  PolicyCandle, PortfolioPolicyParameters, PortfolioPolicyInput, PolicyEngine,
}
use grid_bot.PortfolioPolicy.Envelope.{Envelope, envelope}
use grid_bot.PortfolioPolicy.Validation.{validate_input}
use grid_bot.PortfolioPolicy.Decision.{
  evaluate_checked, evaluate_portfolio_policy, evaluate_valid, decide_latest, band_candidates,
  decide_candidates, decide_on, fall_back, useful_entries,
}

module _ {D : Type 0} ⦃f : Float D⦄ where
  module _ (e : PolicyEngine D) (i : PortfolioPolicyInput D) (candles : List (PolicyCandle D))
      (same : keep (λ c. leb c.closed_at i.now) candles
        ≡ keep (λ c. leb c.closed_at i.now) i.candles) where
    other : PortfolioPolicyInput D
    other = record i { candles = candles }

    same_decision : (o : Option (Envelope D)) → decide_latest e other o ≡ decide_latest e i o
    unfolding other decide_on fall_back useful_entries
    same_decision none = refl
    same_decision (some proposed) = refl

    same_candidates :
        (cs : List (Envelope D)) → decide_candidates e other cs ≡ decide_candidates e i cs
    unfolding other decide_candidates
    same_candidates cs = rw (same_decision (last cs)) refl

    same_bands : band_candidates e other ≡ band_candidates e i
    unfolding other
    same_bands = rw same refl

    same_valid : evaluate_valid e other ≡ evaluate_valid e i
    unfolding other evaluate_valid
    same_valid = rw (same, same_candidates (band_candidates e i)) refl

    same_check : validate_input other ≡ validate_input i
    unfolding other validate_input
    same_check = rw same refl

    -- A candle that has not closed has no influence: on inputs that differ in such candles alone the
    -- policy decides the same.
    pub evaluate_portfolio_policy-closed :
        evaluate_portfolio_policy e (record i { candles = candles }) ≡ evaluate_portfolio_policy e i
    unfolding other evaluate_portfolio_policy
    evaluate_portfolio_policy-closed =
        ap (evaluate_checked e other) same_check ∙ by_check (validate_input i)
      where
        by_check : (o : Option String) → evaluate_checked e other o ≡ evaluate_checked e i o
        by_check (some reason) = refl
        by_check none = same_valid

  module _ (ieee : IsIeee D) where
    limits :
        (most x : D)
        → f.le (num 2) most ≡ true
        → IsNumber (f.max (num 2) (f.min most x))
        → (f.le (num 2) (f.max (num 2) (f.min most x)) ≡ true)
          × (f.le (f.max (num 2) (f.min most x)) most ≡ true)
    limits most x h n =
        let bounds = ieee.max_le (num 2) (f.min most x) n in
        let number = (ieee.le_numbers (f.min most x) (f.max (num 2) (f.min most x)) bounds.1).0 in
        let below = ieee.min_le most x number in
        (
          bounds.0,
          elim (ieee.max_cases (num 2) (f.min most x) (ieee.le_numbers (num 2) most h).0 number) [
            | inl e ↦ subst (λ y. f.le y most ≡ true) (sym e) h
            | inr e ↦ subst (λ y. f.le y most ≡ true) (sym e) below.0
          ],
        )

    -- A band that the policy suggests has two levels at least and at most the number that its parameters
    -- allow, if that is two at least and the number is not NaN.
    pub envelope-levels :
        (m : MathFunctions D) (candles : List (PolicyCandle D)) (p : PortfolioPolicyParameters D)
        → f.le (num 2) (num p.max_levels) ≡ true
        → IsNumber (envelope m candles p).level_count
        → (f.le (num 2) (envelope m candles p).level_count ≡ true)
          × (f.le (envelope m candles p).level_count (num p.max_levels) ≡ true)
    unfolding envelope
    envelope-levels m candles p h n = limits (num p.max_levels) _ h n
