-- ===== src/PortfolioPolicy/Decision.antt =====
-- packages/core/src/services/portfolio-policy-service.ts, evaluatePortfolioPolicy and
-- initialPortfolioEnvelope: what becomes of a band.
use grid_bot.Common.{
  ℕ, ◌+◌, ◌-◌, Bool, true, false, not, ◌&&◌, ◌||◌, Option, none, some, List, [], ◌∷◌, ◌++◌, String,
  keep, any, all, map, length, if◌then◌else◌, ltb, leb, ◌==◌, or_else, take, take_last, last, fill,
  map_index,
}
use grid_bot.Float.{Float, num, ◌⊕◌, ◌⊗◌, ◌⊖◌, ◌⊘◌, ◌≼◌, ◌≺◌}
use grid_bot.Indicators.Series.{maximum, minimum}
use grid_bot.PortfolioPolicy.{blocks_duplicate_entry}
use grid_bot.PortfolioPolicy.Inputs.{
  wait, revise, park, reactivate, create_band, PolicyCandle, PolicyLot, PolicyBandState,
  PolicyCommitment, PortfolioPolicyInput, PortfolioPolicyDecision, PolicyEngine, is_parked,
  is_retained_kind, closed_candles, result,
}
use grid_bot.PortfolioPolicy.Envelope.{Envelope, envelope}
use grid_bot.PortfolioPolicy.Validation.{validate_input}

abbrev pub within_cooldown : Option ℕ → ℕ → ℕ → Bool
within_cooldown none cooldown now = false
within_cooldown (some t) cooldown now = ltb now (t + cooldown)

module _ {D : Type 0} ⦃f : Float D⦄ where
  abbrev pub is_below : PortfolioPolicyInput D → Bool
  is_below i = i.price ≺ i.band.low_price

  abbrev pub is_above : PortfolioPolicyInput D → Bool
  is_above i = i.band.high_price ≺ i.price

  abbrev pub recent_of : PortfolioPolicyInput D → List (PolicyCandle D)
  recent_of i = take_last i.parameters.persistence_closed_bars (closed_candles i.now i.candles)

  abbrev pub closes_inside : PolicyBandState D → PolicyCandle D → Bool
  closes_inside band c = band.low_price ≼ c.close && c.close ≼ band.high_price

  abbrev pub returns_inside : PortfolioPolicyInput D → Bool
  returns_inside i =
      is_parked i.band.status
      && (not (is_below i) && (not (is_above i) && all (closes_inside i.band) (recent_of i)))

  abbrev pub is_unconfirmed : PortfolioPolicyInput D → Bool
  is_unconfirmed i =
      (is_below i && not (all (λ c. c.close ≺ i.band.low_price) (recent_of i)))
      || (is_above i && not (all (λ c. i.band.high_price ≺ c.close) (recent_of i)))

  abbrev pub is_cooling : PortfolioPolicyInput D → Bool
  is_cooling i =
      within_cooldown i.band.last_revision_at i.parameters.cooldown_ms i.now
      || leb i.parameters.max_daily_revisions (or_else i.band.revisions_today 0)

  abbrev pub band_candidates : PolicyEngine D → PortfolioPolicyInput D → List (Envelope D)
  band_candidates e i =
      let candles = closed_candles i.now i.candles in
      map_index
        (λ k _.
          envelope e.functions (take (length candles - length (recent_of i) + k + 1) candles)
            i.parameters)
        0 (recent_of i)

  abbrev pub has_moved : PortfolioPolicyInput D → List (Envelope D) → Bool
  has_moved i candidates =
      let old = (i.band.low_price ⊕ i.band.high_price) ⊘ num 2 in
      let least = or_else i.parameters.minimum_movement_pct i.parameters.minimum_spacing_pct in
      all (λ c. least ≼ f.abs (c.center ⊘ old ⊖ num 1) ⊗ num 100) candidates
      && (all (λ c. old ≺ c.center) candidates || all (λ c. c.center ≺ old) candidates)

  abbrev pub has_resized : PortfolioPolicyInput D → List (Envelope D) → Bool
  has_resized i candidates =
      let old = i.band.high_price ⊖ i.band.low_price in
      all (λ c. f.decimal 2 1 ≼ f.abs ((c.high ⊖ c.low) ⊘ old ⊖ num 1)) candidates
      && (all (λ c. old ≺ c.high ⊖ c.low) candidates || all (λ c. c.high ⊖ c.low ≺ old) candidates)

  abbrev pub trading_lots : PolicyBandState D → List (PolicyLot D)
  trading_lots band =
      keep
        (λ l.
          not (is_retained_kind l.kind)
          && (num 0 ≺ l.remaining_base_amount && num 0 ≺ l.cost_quote))
        band.open_trading_lots

  abbrev pub is_blocked_entry : PortfolioPolicyInput D → Envelope D → D → Bool
  is_blocked_entry i proposed price =
      any
        (λ l. blocks_duplicate_entry (record {
          old_entry_price = l.entry_price;
          current_price = price;
          wider_spacing = f.max i.band.spacing proposed.spacing;
          open_trading_lot = true;
        }))
        (trading_lots i.band)

  abbrev pub entries_of : PolicyEngine D → Envelope D → List D
  entries_of e proposed =
      map_index {A = ℕ} (λ k _. proposed.low ⊕ num k ⊗ proposed.spacing) 0
        (fill (e.to_length (proposed.level_count ⊖ num 1)) 0)

  unfoldable pub useful_entries : PolicyEngine D → PortfolioPolicyInput D → Envelope D → List D
  useful_entries e i proposed =
      keep (λ price. not (is_blocked_entry i proposed price)) (entries_of e proposed)

  abbrev pub committed_prices : List (PolicyCommitment D) → List D
  committed_prices [] = []
  committed_prices (c ∷ cs) = c.low_price ∷ c.high_price ∷ committed_prices cs

  abbrev pub protected_prices : PolicyBandState D → List D
  protected_prices band =
      map (λ l. l.entry_price) (trading_lots band) ++ committed_prices (or_else band.commitments [])

  abbrev pub bound_of : (List D → D) → List D → Option D
  bound_of bound [] = none
  bound_of bound (x ∷ xs) = some (bound (x ∷ xs))

  -- `{ ...decision, ...protection }`
  abbrev pub protecting : PolicyBandState D → PortfolioPolicyDecision D → PortfolioPolicyDecision D
  protecting band d = record d {
    protected_low_price = bound_of minimum (protected_prices band);
    protected_high_price = bound_of maximum (protected_prices band);
  }

  abbrev pub revision_to : Envelope D → PortfolioPolicyDecision D
  revision_to proposed =
      record (result revise "Adapt future entries while keeping existing lot exits unchanged.") {
        next_low_price = some proposed.low;
        next_high_price = some proposed.high;
        next_level_count = some proposed.level_count;
        next_spacing = some proposed.spacing;
      }

  abbrev pub required_capital : PortfolioPolicyInput D → Envelope D → D
  required_capital i proposed = i.parameters.min_useful_order_usd ⊗ (proposed.level_count ⊖ num 1)

  abbrev pub exposure_after : PortfolioPolicyInput D → Envelope D → D
  exposure_after i proposed =
      (i.asset_attributed_capital_usd ⊕ required_capital i proposed)
      ⊘ i.total_portfolio_capital_usd
      ⊗ num 100

  abbrev pub lower_band : PortfolioPolicyInput D → Envelope D → PortfolioPolicyDecision D
  lower_band i proposed =
      record (result create_band "Lower band is a funded fallback for immobilized inventory.") {
        candidate = some (record {
          low_price = proposed.low;
          high_price = proposed.high;
          level_count = proposed.level_count;
          spacing = proposed.spacing;
          requested_capital_usd = required_capital i proposed;
        });
      }

  abbrev pub has_entries : List D → Bool
  has_entries entries = ltb 0 (length entries)

  abbrev pub is_funded : PolicyEngine D → PortfolioPolicyInput D → Envelope D → Bool
  is_funded e i proposed =
      has_entries (useful_entries e i proposed)
      && (ltb i.band_count i.parameters.max_bands
          && (required_capital i proposed ≼ i.available_cash_usd
              && exposure_after i proposed ≼ i.parameters.max_exposure_pct))

  unfoldable pub fall_back :
      PolicyEngine D → PortfolioPolicyInput D → Envelope D → PortfolioPolicyDecision D
  fall_back e i proposed =
      if not (is_below i) || length (trading_lots i.band) == 0
      then protecting i.band (result wait "No useful funded entry; existing exits remain active.")
      else if is_funded e i proposed
      then protecting i.band (lower_band i proposed)
      else protecting i.band
          (result park "Lower band cannot be funded safely; hold inventory and preserve its exits.")

  unfoldable pub decide_on :
      PolicyEngine D → PortfolioPolicyInput D → Envelope D → PortfolioPolicyDecision D
  decide_on e i proposed =
      if i.price ≺ proposed.low || proposed.high ≺ i.price
      then result wait
          "Current market moved outside the closed-bar candidate; wait for confirmation."
      else if has_entries (useful_entries e i proposed)
          && i.parameters.min_useful_order_usd ≼ i.band.idle_quote_usd
      then protecting i.band (revision_to proposed)
      else fall_back e i proposed

  -- `candidates.at(-1)!`: of no candidates, the access throws, which is `none`
  abbrev pub decide_latest :
      PolicyEngine D
      → PortfolioPolicyInput D
      → Option (Envelope D)
      → Option (PortfolioPolicyDecision D)
  decide_latest e i none = none
  decide_latest e i (some proposed) = some (decide_on e i proposed)

  unfoldable pub decide_candidates :
      PolicyEngine D
      → PortfolioPolicyInput D
      → List (Envelope D)
      → Option (PortfolioPolicyDecision D)
  decide_candidates e i candidates =
      if not (is_below i)
        && (not (is_above i) && (not (has_moved i candidates) && not (has_resized i candidates)))
      then some (result wait "No persistent change in center or volatility.")
      else decide_latest e i (last candidates)

  unfoldable pub evaluate_valid :
      PolicyEngine D → PortfolioPolicyInput D → Option (PortfolioPolicyDecision D)
  evaluate_valid e i =
      if returns_inside i
      then some (result reactivate "Confirmed return inside the existing band.")
      else if is_unconfirmed i
      then some (result wait "Waiting for contiguous same-side closed-bar confirmation.")
      else if is_cooling i
      then some (result wait "Revision cooldown or daily limit reached.")
      else decide_candidates e i (band_candidates e i)

  abbrev pub evaluate_checked :
      PolicyEngine D → PortfolioPolicyInput D → Option String → Option (PortfolioPolicyDecision D)
  evaluate_checked e i (some invalid) = some (result wait invalid)
  evaluate_checked e i none = evaluate_valid e i

  unfoldable pub evaluate_portfolio_policy :
      PolicyEngine D → PortfolioPolicyInput D → Option (PortfolioPolicyDecision D)
  evaluate_portfolio_policy e i = evaluate_checked e i (validate_input i)
