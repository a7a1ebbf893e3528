-- ===== src/Recenter/Defence.antt =====
-- packages/core/src/services/recenter-policy-service.ts: what the policy allows while the price is
-- outside.
use grid_bot.Common.{◌≤◌, ◌<◌, ◌≡◌, true, false, String, arith, is_some}
use grid_bot.Float.{Float, num, ◌≼◌}
use grid_bot.Host.{Host}
use grid_bot.Recenter.Policy.{
  hard, outside, RecenterPolicyInput, RecenterPolicyDecision, is_chaos, is_directional_breakout,
  is_valid_range, breakout_side, decide_outside, evaluate_recenter,
}
use grid_bot.Domain.{OutsideSide}

module _ {D : Type 0} ⦃f : Float D⦄ (h : Host) (text : D → String) (i : RecenterPolicyInput D) where
  -- The breakout is confirmed, and the inventory can follow it.
  pub record IsConfirmedBreakout : Type 0 where
    pub calm : is_chaos i.market_regime ≡ false
    pub confirmed : 2 ≤ i.consecutive_outside_bars
    pub unsaturated : (num 95 ≼ f.max (num 0) i.max_occupancy_pct) ≡ false

  pub record IsDefensive (side : OutsideSide) (d : RecenterPolicyDecision D) : Type 0 where
    pub at : d.side ≡ outside side
    pub no_buys : d.allow_new_buys ≡ false
    pub moves : is_some d.suggested_low_price ≡ true → IsConfirmedBreakout
    pub keeps_exits : 0 < i.open_cycle_count → d.allow_recovery_sells ≡ true
    pub abandons :
        d.allow_recovery_sells ≡ false
        → (d.mode ≡ hard)
          × (i.open_cycle_count ≡ 0)
          × (3 ≤ i.consecutive_outside_bars)
          × (is_directional_breakout side i.market_regime ≡ true)

  decide_outside-IsDefensive :
      (side : OutsideSide) → IsDefensive side (decide_outside h text i side)
  decide_outside-IsDefensive side = record {
    at = ground arith;
    no_buys = ground arith;
    moves =
        λ e. record { calm = ground arith; confirmed = ground arith; unsaturated = ground arith };
    keeps_exits = λ n. ground arith;
    abandons = λ e. (ground arith, ground arith, ground arith, ground arith);
  }

  -- Outside a valid range no new buy is allowed. The range moves only on a breakout that two closes
  -- confirm, without chaos and below the saturated occupancy. Recovery sells stay allowed as long as a
  -- cycle is open, and end only in the hard mode, after three closes in the direction of the trend.
  pub evaluate_recenter-IsDefensive :
      (side : OutsideSide)
      → is_valid_range i ≡ true
      → breakout_side i.current_price i.low_price i.high_price ≡ outside side
      → IsDefensive side (evaluate_recenter h text i)
  unfolding evaluate_recenter
  evaluate_recenter-IsDefensive side valid at = rw (valid, at) (decide_outside-IsDefensive side)
