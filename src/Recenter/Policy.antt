-- ===== src/Recenter/Policy.antt =====
-- packages/core/src/services/recenter-policy-service.ts: the mode of a recentering.
use grid_bot.Common.{
  ℕ, ◌+◌, Bool, true, false, not, ◌&&◌, ◌||◌, Option, none, some, List, [], ◌∷◌, ◌++◌, String, keep,
  length, if◌then◌else◌, ltb, leb,
}
use grid_bot.Float.{Float, num, ◌⊕◌, ◌⊗◌, ◌⊖◌, ◌≼◌, ◌≺◌}
use grid_bot.Host.{Host, ◌===◌, ◌<>◌}
use grid_bot.Domain.{OutsideSide, above, below}
use grid_bot.PriceTrigger.{round}

pub data MarketRegime : Type 0 where
  ranging trend_up trend_down chaotic_high_vol : MarketRegime

pub data RecenterPolicyMode : Type 0 where
  no_change soft hybrid hard : RecenterPolicyMode

-- `RecenterBreakoutSide`
pub data BreakoutSide : Type 0 where
  inside : BreakoutSide
  outside : OutsideSide → BreakoutSide

pub data RecenterPolicyRisk : Type 0 where
  low_risk medium_risk high_risk : RecenterPolicyRisk

-- what the policy reads of a `MarketRegimeAssessment`
pub record Regime (D : Type 0) : Type 0 where
  pub regime : MarketRegime
  pub confidence : D

pub record RecenterPolicyInput (D : Type 0) : Type 0 where
  pub current_price : D
  pub low_price : D
  pub high_price : D
  pub open_cycle_count : ℕ
  pub max_occupancy_pct : D
  pub consecutive_outside_bars : ℕ
  pub market_regime : Option (Regime D)

pub record RecenterPolicyDecision (D : Type 0) : Type 0 where
  pub mode : RecenterPolicyMode
  pub side : BreakoutSide
  pub allow_new_buys : Bool
  pub allow_recovery_sells : Bool
  pub suggested_low_price : Option D
  pub suggested_high_price : Option D
  pub risk : RecenterPolicyRisk
  pub operator_action : String
  pub reasons : List String

abbrev pub side_name : OutsideSide → String
side_name above = "above"
side_name below = "below"

abbrev pub regime_name : MarketRegime → String
regime_name ranging = "RANGE"
regime_name trend_up = "TREND_UP"
regime_name trend_down = "TREND_DOWN"
regime_name chaotic_high_vol = "CHAOTIC_HIGH_VOL"

abbrev pub is_chaotic : MarketRegime → Bool
is_chaotic chaotic_high_vol = true
is_chaotic _ = false

-- the trend that leaves the range on this side
abbrev pub is_trend_to : OutsideSide → MarketRegime → Bool
is_trend_to above trend_up = true
is_trend_to below trend_down = true
is_trend_to _ _ = false

module _ {D : Type 0} ⦃f : Float D⦄ where
  unfoldable pub breakout_side : D → D → D → BreakoutSide
  breakout_side current_price low_price high_price =
      if high_price ≺ current_price
      then outside above
      else if current_price ≺ low_price
      then outside below
      else inside

  abbrev pub anchor_ratio : OutsideSide → D
  anchor_ratio above = f.decimal 65 2
  anchor_ratio below = f.decimal 35 2

  -- the low and the high of the range that has the width of the old one around the price
  unfoldable pub suggest_hybrid_range : D → D → D → OutsideSide → D × D
  suggest_hybrid_range current_price low_price high_price side =
      let width = high_price ⊖ low_price in
      let low = f.max (current_price ⊖ width ⊗ anchor_ratio side) (current_price ⊗ f.decimal 1 2) in
      (round low 8, round (low ⊕ width) 8)

  abbrev pub low_confidence : D
  low_confidence = f.decimal 45 2

  unfoldable pub is_directional_breakout : OutsideSide → Option (Regime D) → Bool
  is_directional_breakout side none = false
  is_directional_breakout side (some r) =
      not (r.confidence ≺ low_confidence) && is_trend_to side r.regime

  abbrev pub is_chaos : Option (Regime D) → Bool
  is_chaos none = false
  is_chaos (some r) = is_chaotic r.regime && low_confidence ≼ r.confidence

  unfoldable pub is_valid_range : RecenterPolicyInput D → Bool
  is_valid_range i =
      (f.is_finite i.current_price && (f.is_finite i.low_price && f.is_finite i.high_price))
      && (not (i.high_price ≼ i.low_price) && not (i.low_price ≼ num 0))

  -- `text` is a number in a template literal
  module _ (h : Host) (text : D → String) (i : RecenterPolicyInput D) where
    abbrev pub regime_reason : Option (Regime D) → List String
    regime_reason none = []
    regime_reason (some r) =
        ("Regime is "
          <> (regime_name r.regime
              <> (" with " <> (text (f.nearest (r.confidence ⊗ num 100)) <> "% confidence."))))
        ∷ []

    abbrev pub stated : OutsideSide → List String
    stated side =
        ("Price is " <> (side_name side <> " the configured range."))
        ∷ regime_reason i.market_regime

    -- a decision without a suggested range
    abbrev pub keep_range :
        RecenterPolicyMode
        → BreakoutSide
        → Bool
        → Bool
        → RecenterPolicyRisk
        → String
        → List String
        → RecenterPolicyDecision D
    keep_range mode side buys sells risk action reasons = record {
      mode = mode;
      side = side;
      allow_new_buys = buys;
      allow_recovery_sells = sells;
      suggested_low_price = none;
      suggested_high_price = none;
      risk = risk;
      operator_action = action;
      reasons = reasons;
    }

    abbrev pub move_range :
        RecenterPolicyMode
        → OutsideSide
        → Bool
        → RecenterPolicyRisk
        → String
        → List String
        → RecenterPolicyDecision D
    move_range mode side sells risk action reasons =
        let range = suggest_hybrid_range i.current_price i.low_price i.high_price side in
        record {
          mode = mode;
          side = outside side;
          allow_new_buys = false;
          allow_recovery_sells = sells;
          suggested_low_price = some (range.0);
          suggested_high_price = some (range.1);
          risk = risk;
          operator_action = action;
          reasons = reasons;
        }

    abbrev pub decide_outside : OutsideSide → RecenterPolicyDecision D
    decide_outside side =
        let occupancy = f.max (num 0) i.max_occupancy_pct in
        let why = stated side in
        if is_chaos i.market_regime
        then keep_range soft (outside side) false true high_risk
            "Pause new buys and only allow recovery sells until volatility normalizes."
            (why ++ "High volatility makes a range shift unreliable." ∷ [])
        else if ltb i.consecutive_outside_bars 2
        then keep_range soft (outside side) false true medium_risk
            "Wait for a second outside close before moving rails."
            (why ++ "Breakout is not confirmed yet." ∷ [])
        else if num 95 ≼ occupancy
        then keep_range soft (outside side) false true high_risk
            "Do not move the full grid while occupancy is saturated. Defend inventory first."
            (why ++ ("Occupancy is " <> (text (round occupancy 1) <> "%.")) ∷ [])
        else if ltb 0 i.open_cycle_count
        then move_range hybrid side true (if num 85 ≼ occupancy then high_risk else medium_risk)
            "Keep existing rails and recovery exits until every trading cycle is closed."
            (why ++ (h.show i.open_cycle_count <> " open cycle(s) still need paired exits.") ∷ [])
        else if leb 3 i.consecutive_outside_bars && is_directional_breakout side i.market_regime
        then move_range hard side false medium_risk
            "Recreate the bot around a new range because no open cycle has to be protected."
            (why ++ "Breakout is confirmed and no open cycle remains." ∷ [])
        else move_range hybrid side true medium_risk
            "Shift the range progressively and keep new buys paused until the next inside close."
            (why ++ "Breakout is confirmed but not directional enough for a hard recreate." ∷ [])

    abbrev pub decide_at : BreakoutSide → RecenterPolicyDecision D
    decide_at inside =
        keep_range no_change inside true true low_risk "Keep the current grid."
          ("Price is inside the configured range." ∷ [])
    decide_at (outside side) = decide_outside side

    unfoldable pub evaluate_recenter : RecenterPolicyDecision D
    unfolding breakout_side suggest_hybrid_range is_directional_breakout is_valid_range
    evaluate_recenter =
        if not (is_valid_range i)
        then keep_range hard inside false false high_risk
            "Fix the range before running recenter logic." ("Invalid range or current price." ∷ [])
        else decide_at (breakout_side i.current_price i.low_price i.high_price)

pub record RangeChangeInput : Type 0 where
  pub now : ℕ
  pub last_recenter_at : Option ℕ
  pub recenter_history : List String
  pub min_interval_ms : ℕ
  pub max_per_day : ℕ
  pub open_cycle_count : ℕ

abbrev pub too_soon : ℕ → ℕ → Option ℕ → Bool
too_soon now interval none = false
too_soon now interval (some last) = ltb now (last + interval)

unfoldable pub can_apply_range_change : Host → RangeChangeInput → Bool
can_apply_range_change h i =
    let today = h.day (h.iso i.now) in
    not (ltb 0 i.open_cycle_count || leb i.max_per_day 0)
    && (not (too_soon i.now i.min_interval_ms i.last_recenter_at)
        && ltb (length (keep (λ time. h.day time === today) i.recenter_history)) i.max_per_day)
