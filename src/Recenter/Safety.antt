-- ===== src/Recenter/Safety.antt =====
-- packages/core/src/services/flat-recenter-service.ts: what must be true before the rails move.
use grid_bot.Common.{
  ℕ, ◌+◌, ◌≤◌, ◌<◌, ◌≡◌, ◌≢◌, refl, Bool, true, false, Option, none, some, String, arith, inl, inr,
  Bool-cases, Option-cases, if◌then◌else◌, leb, or_else, max,
}
use grid_bot.Float.{Float}
use grid_bot.Host.{Host, IsRuntime, ◌===◌}
use grid_bot.Domain.{OutsideSide}
use grid_bot.Recenter.Policy.{BreakoutSide, inside, outside, breakout_side}
use grid_bot.Recenter.Flat.{
  stay_inside, recenter, FlatRecenterInput, same_outside, normalize_observation_id, has_advanced,
  has_waited, parsed, source, window, is_frequency_allowed, recenter_outside, recenter_at,
  evaluate_flat_recenter,
}

rests : stay_inside ≢ recenter
rests e = cc

clash : (now w : ℕ) → 0 < w → leb (now + w) now ≢ true
clash now w some_time e = ground arith

waited_until : (t now w : ℕ) → leb (t + w) now ≡ true → t + w ≤ now
waited_until t now w e = ground arith

module _ {D : Type 0} ⦃f : Float D⦄ (h : Host) (i : FlatRecenterInput D) where
  -- The price was seen outside on this side at a time that lies a whole window before now.
  pub record IsObserved (side : OutsideSide) : Type 0 where
    pub text : String
    pub time : ℕ
    pub remembered : i.outside_since ≡ some text
    pub same_side : same_outside i.outside_side side ≡ true
    pub read : h.parse_date text ≡ some time
    pub elapsed : time + max 30_000 i.confirmation_ms ≤ i.now

  pub record IsSafeMove (side : OutsideSide) : Type 0 where
    pub is_outside : breakout_side i.current_price i.low_price i.high_price ≡ outside side
    pub flat : i.open_trading_lot_count ≡ 0
    pub settled : i.unresolved_execution ≡ false
    pub frequent : is_frequency_allowed h i side ≡ true
    pub observed : IsObserved side
    pub advanced :
        i.require_source_advance ≡ true
        → has_advanced (normalize_observation_id i.current_observation_id) (source h i side) ≡ true

  module _ (law : IsRuntime h) where
    -- A wait that begins now is not over.
    too_fresh :
        (side : OutsideSide)
        → has_waited (h.parse_date (h.iso i.now)) i.now (window h i side) ≢ true
    too_fresh side w =
        clash (i.now) (window h i side) (ground arith) (rw (law.parse-iso i.now) at w)

    has_waited-since :
        (side : OutsideSide) (o : Option String) (same : Bool)
        → i.outside_since ≡ o
        → same_outside i.outside_side side ≡ same
        → has_waited
            (h.parse_date (or_else (if same then parsed h o else none) (h.iso i.now)))
            i.now
            (window h i side)
          ≡ true
        → IsObserved side
    has_waited-since side o false eo es w = elim (too_fresh side w) [ ]
    has_waited-since side none true eo es w = elim (too_fresh side w) [ ]
    has_waited-since side (some u) true eo es w = elim (Bool-cases (u === "")) [
      | inl e ↦ elim (too_fresh side (rw e at w)) [ ]
      | inr e ↦ elim (Option-cases (h.parse_date u)) [
        | inl n ↦ elim (too_fresh side (rw n at (rw e at w))) [ ]
        | inr (t, q) ↦ record {
          text = u;
          time = t;
          remembered = eo;
          same_side = es;
          read = q;
          elapsed = waited_until t i.now _ (rw (law.parse-iso t) at (rw q at (rw e at w)));
        }
      ]
    ]

    recenter_outside-IsSafeMove :
        (side : OutsideSide)
        → breakout_side i.current_price i.low_price i.high_price ≡ outside side
        → (recenter_outside h i side).action ≡ recenter
        → IsSafeMove side
    recenter_outside-IsSafeMove side at e = record {
      is_outside = at;
      flat = ground arith;
      settled = ground arith;
      frequent = ground arith;
      observed =
          has_waited-since side i.outside_since (same_outside i.outside_side side) refl refl
            (ground arith);
      advanced = λ t. ground arith;
    }

    recenter_at-IsSafeMove :
        (b : BreakoutSide)
        → breakout_side i.current_price i.low_price i.high_price ≡ b
        → (recenter_at h i b).action ≡ recenter
        → (side : OutsideSide) × IsSafeMove side
    recenter_at-IsSafeMove inside at e = elim (rests e) [ ]
    recenter_at-IsSafeMove (outside side) at e = (side, recenter_outside-IsSafeMove side at e)

    -- The rails move only if the price is outside of them, was seen there at a time that lies at least
    -- 30 seconds and the whole confirmation window before now, no lot is open, no execution is
    -- unresolved, the frequency limits allow it and, where it is asked for, the source has advanced.
    pub evaluate_flat_recenter-IsSafeMove :
        (evaluate_flat_recenter h i).action ≡ recenter → (side : OutsideSide) × IsSafeMove side
    unfolding evaluate_flat_recenter
    evaluate_flat_recenter-IsSafeMove e =
        recenter_at-IsSafeMove (breakout_side i.current_price i.low_price i.high_price) refl
          (ground arith)
