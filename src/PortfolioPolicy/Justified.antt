-- ===== src/PortfolioPolicy/Justified.antt =====
-- packages/core/src/services/portfolio-policy-service.ts: what each decision of the policy rests on.
use grid_bot.Common.{
  ℕ, ◌+◌, ◌-◌, ◌≤◌, ◌≡◌, refl, sym, ap, Bool, true, false, not, ◌&&◌, ◌||◌, Option, none, some,
  List, [], ◌∷◌, String, arith, length, if-both, ltb, ◌==◌, none≢some, and-left, and-right,
  or-false_left, or-false_right, take, drop, take_last, last, length-drop, map_index,
  length-map_index,
}
use grid_bot.Float.{Float, ◌≼◌, ◌≺◌}
use grid_bot.PortfolioPolicy.Inputs.{
  wait, park, reactivate, PolicyCandle, PortfolioPolicyInput, PortfolioPolicyDecision, PolicyEngine,
  closed_candles, result,
}
use grid_bot.PortfolioPolicy.Envelope.{Envelope, envelope}
use grid_bot.PortfolioPolicy.Validation.{validate_input, reject_if}
use grid_bot.PortfolioPolicy.Decision.{
  is_below, is_above, returns_inside, is_unconfirmed, is_cooling, band_candidates, useful_entries,
  has_entries, is_funded, protecting, revision_to, lower_band, trading_lots, fall_back, decide_on,
  decide_latest, has_moved, has_resized, decide_candidates, evaluate_valid, evaluate_checked,
  evaluate_portfolio_policy,
}

-- The input is valid, its band moves again, and `proposed` is the last of the bands that the closed
-- candles suggest, with the price inside.
pub record IsProposed {D : Type 0} ⦃f : Float D⦄ (e : PolicyEngine D) (i : PortfolioPolicyInput D)
    (proposed : Envelope D) : Type 0 where
  pub valid : validate_input i ≡ none
  pub confirmed : is_unconfirmed i ≡ false
  pub rested : is_cooling i ≡ false
  pub latest : last (band_candidates e i) ≡ some proposed
  pub not_lower : (i.price ≺ proposed.low) ≡ false
  pub not_higher : (proposed.high ≺ i.price) ≡ false

pub data IsJustified {D : Type 0} ⦃f : Float D⦄ (e : PolicyEngine D) (i : PortfolioPolicyInput D)
    (d : PortfolioPolicyDecision D) : Type 0 where
  -- to wait asks for nothing
  waiting : d.action ≡ wait → d.next_low_price ≡ none → d.candidate ≡ none → IsJustified e i d
  -- a parked band is reactivated where the price and the last closes are inside it
  reactivating :
      validate_input i ≡ none
      → returns_inside i ≡ true
      → d ≡ result reactivate "Confirmed return inside the existing band."
      → IsJustified e i d
  -- a band is revised for useful entries that its own idle quote can fund
  revising :
      (proposed : Envelope D)
      → IsProposed e i proposed
      → has_entries (useful_entries e i proposed) ≡ true
      → (i.parameters.min_useful_order_usd ≼ i.band.idle_quote_usd) ≡ true
      → d ≡ protecting i.band (revision_to proposed)
      → IsJustified e i d
  -- a lower band is created below a band with lots, within the cash, the bands and the exposure
  creating :
      (proposed : Envelope D)
      → IsProposed e i proposed
      → is_below i ≡ true
      → (length (trading_lots i.band) == 0) ≡ false
      → is_funded e i proposed ≡ true
      → d ≡ protecting i.band (lower_band i proposed)
      → IsJustified e i d
  -- a band is parked where such a band cannot be funded
  parking :
      (proposed : Envelope D)
      → IsProposed e i proposed
      → is_below i ≡ true
      → is_funded e i proposed ≡ false
      → d.action ≡ park
      → d.candidate ≡ none
      → IsJustified e i d

reject_if-none :
    (b : Bool) (r : String) (o : Option String) → reject_if b r o ≡ none → (b ≡ false) × (o ≡ none)
unfolding reject_if
reject_if-none true r o h = elim (none≢some (sym h)) [ ]
reject_if-none false r o h = (refl, h)

last-some : {A : Type 0} (xs : List A) → 1 ≤ length xs → (x : A) × (last xs ≡ some x)
last-some [] h = elim (absurd h) [ ]
  where
    absurd : 1 ≤ 0 → ⊥
    absurd h = omega arith
last-some (x ∷ []) h = (x, refl)
last-some (x ∷ y ∷ ys) h = last-some (y ∷ ys) (omega arith)

module _ {D : Type 0} ⦃f : Float D⦄ (e : PolicyEngine D) (i : PortfolioPolicyInput D) where
  -- A valid input has recent candles.
  enough :
      validate_input i ≡ none
      → (1 ≤ i.parameters.persistence_closed_bars)
        × (i.parameters.persistence_closed_bars ≤ length (closed_candles i.now i.candles))
  unfolding validate_input
  enough v =
      let a = reject_if-none _ _ _ v in
      let b = reject_if-none _ _ _ a.1 in
      let c = reject_if-none _ _ _ b.1 in
      let d = reject_if-none _ _ _ c.1 in
      let g = reject_if-none _ _ _ d.1 in
      bars i.parameters.persistence_closed_bars (length (closed_candles i.now i.candles))
        (or-false_left _ _ (or-false_right _ _ (or-false_right _ _ b.0))) g.0
    where
      bars : (p n : ℕ) → ltb p 1 ≡ false → ltb n (20 + p - 1) ≡ false → (1 ≤ p) × (p ≤ n)
      bars p n a b = ground arith

  has_candidates :
      validate_input i ≡ none
      → (proposed : Envelope D) × (last (band_candidates e i) ≡ some proposed)
  has_candidates v = last-some (band_candidates e i) (
      size i.parameters.persistence_closed_bars (closed_candles i.now i.candles) (enough v).0
        (enough v).1)
    where
      recents :
          (n : ℕ) (xs : List (PolicyCandle D)) → 1 ≤ n → n ≤ length xs → 1 ≤ length (take_last n xs)
      recents n xs a b =
          if-both (λ ys. 1 ≤ length ys) (ltb 0 n) (drop (length xs - n) xs) xs
            (λ _. omega (arith, length-drop (length xs - n) xs)) (λ _. omega arith)

      size :
          (n : ℕ) (xs : List (PolicyCandle D))
          → 1 ≤ n
          → n ≤ length xs
          → 1
            ≤ length (
                map_index
                  (λ k _.
                    envelope e.functions
                      (take (length xs - length (take_last n xs) + k + 1) xs)
                      i.parameters)
                  0
                  (take_last n xs))
      size n xs a b = omega (
        arith,
        recents n xs a b,
        length-map_index
            (λ k (_ : PolicyCandle D).
              envelope e.functions (take (length xs - length (take_last n xs) + k + 1) xs)
                i.parameters)
            0 (take_last n xs),
      )

  abbrev IsAnswer : Option (PortfolioPolicyDecision D) → Type 0
  IsAnswer o = (d : PortfolioPolicyDecision D) × (o ≡ some d) × IsJustified e i d

  fall_back-IsJustified :
      (proposed : Envelope D) → IsProposed e i proposed → IsJustified e i (fall_back e i proposed)
  unfolding fall_back
  fall_back-IsJustified proposed h =
      if-both (IsJustified e i) (not (is_below i) || length (trading_lots i.band) == 0) _ _
        (λ _. waiting refl refl refl)
        (λ t.
          if-both (IsJustified e i) (is_funded e i proposed) _ _
            (λ u.
              creating proposed h (lower (is_below i) _ t) (or-false_right (not (is_below i)) _ t) u
                refl)
            (λ u. parking proposed h (lower (is_below i) _ t) u refl refl))
    where
      lower : (a b : Bool) → (not a || b) ≡ false → a ≡ true
      lower a b t = ground arith

  decide_on-IsJustified :
      (proposed : Envelope D)
      → ((i.price ≺ proposed.low) ≡ false
          → (proposed.high ≺ i.price) ≡ false
          → IsProposed e i proposed)
      → IsJustified e i (decide_on e i proposed)
  unfolding decide_on
  decide_on-IsJustified proposed h =
      if-both (IsJustified e i) (i.price ≺ proposed.low || proposed.high ≺ i.price) _ _
        (λ _. waiting refl refl refl)
        (λ t.
          let p =
            h (or-false_left (i.price ≺ proposed.low) _ t)
              (or-false_right (i.price ≺ proposed.low) _ t) in
          if-both (IsJustified e i)
            (has_entries (useful_entries e i proposed)
              && i.parameters.min_useful_order_usd ≼ i.band.idle_quote_usd)
            _ _
            (λ u.
              revising proposed p (and-left _ _ u)
                (and-right (has_entries (useful_entries e i proposed)) _ u) refl)
            (λ u. fall_back-IsJustified proposed p))

  evaluate_valid-IsAnswer : validate_input i ≡ none → IsAnswer (evaluate_valid e i)
  unfolding evaluate_valid decide_candidates
  evaluate_valid-IsAnswer v =
      if-both IsAnswer (returns_inside i) _ _ (λ t. (_, refl, reactivating v t refl))
        (λ _.
          if-both IsAnswer (is_unconfirmed i) _ _ (λ _. (_, refl, waiting refl refl refl))
            (λ c.
              if-both IsAnswer (is_cooling i) _ _ (λ _. (_, refl, waiting refl refl refl))
                (λ r.
                  if-both IsAnswer
                    (not (is_below i)
                      && (not (is_above i)
                          && (not (has_moved i (band_candidates e i))
                              && not (has_resized i (band_candidates e i)))))
                    _ _ (λ _. (_, refl, waiting refl refl refl))
                    (λ _.
                      let p = has_candidates v in
                      (
                        decide_on e i p.0,
                        ap (decide_latest e i) p.1,
                        decide_on-IsJustified p.0 (λ l h. record {
                          valid = v;
                          confirmed = c;
                          rested = r;
                          latest = p.1;
                          not_lower = l;
                          not_higher = h;
                        }),
                      )))))

  -- The policy always decides, and each decision rests on its grounds. Waiting asks for nothing. A band
  -- is reactivated only where the price and the last closes are inside it. It is revised, or a lower
  -- one created, or it is parked, only on a valid input, after its cooldown, confirmed by the last
  -- closes where the price is outside, with the price inside the band that the closed candles suggest.
  -- A revision has entries that no open lot blocks and is funded by the band's idle quote; a new band
  -- is below a band with lots, and its capital stays within the cash, the number of bands and the
  -- exposure.
  pub evaluate_portfolio_policy-IsJustified :
      (d : PortfolioPolicyDecision D) × (evaluate_portfolio_policy e i ≡ some d) × IsJustified e i d
  unfolding evaluate_portfolio_policy
  evaluate_portfolio_policy-IsJustified = by_check (validate_input i) refl
    where
      by_check : (o : Option String) → validate_input i ≡ o → IsAnswer (evaluate_checked e i o)
      by_check (some reason) v = (_, refl, waiting refl refl refl)
      by_check none v = evaluate_valid-IsAnswer v
