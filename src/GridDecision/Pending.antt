-- ===== src/GridDecision/Pending.antt =====
-- packages/core/src/services/grid-decision-service.ts: how long a pending signal has been observed.
use grid_bot.Common.{
  find-Mem, find-holds, sym, subst, Memᴰ, ℕ, ◌+◌, ◌≤◌, ◌≡◌, refl, true, ◌&&◌, Option, none, some,
  arith, ◌⊎◌, ◌↔◌, inl, inr, find, first, Bool-cases, ◌==◌, some-injective,
}
use grid_bot.Float.{Float}
use grid_bot.Host.{Host, IsRuntime}
use grid_bot.Domain.{TradeSide, buy, GridLevel, PendingSignal, TriggerSignal, same_side, is_buy}
use grid_bot.PriceTrigger.{price_confirms_trigger}
use grid_bot.GridDecision.{
  materialize_crossed_signal, DecisionInput, confirmation_elapsed, first_seen, keep_at,
  keep_pending, pending_of, level_at, resolve_pending_signal, boundary_buy, boundary_waited,
  boundary_candidate, boundary_keyed, get_out_of_range_boundary_buy_signal,
}

same_side→eq : (a b : TradeSide) → same_side a b ≡ true → a ≡ b
same_side→eq a b e = ground arith

module _ {D : Type 0} ⦃f : Float D⦄ (h : Host) (i : DecisionInput D) where
  -- The signal was pending before, at the same rail and on the same side.
  abbrev pub WasPending : PendingSignal D → Type 0
  WasPending p =
      (old : PendingSignal D) × (i.pending_signal ≡ some old)
      × (old.level_index ≡ p.level_index)
      × (old.side ≡ p.side)
      × (p.first_observed_at ≡ old.first_observed_at)

  pub record IsResolved (p : PendingSignal D) : Type 0 where
    pub observed : p.last_observed_price ≡ i.current_price
    pub since : (p.first_observed_at ≡ h.iso i.now) ⊎ WasPending p

  pending_of-IsResolved :
      (q : Option (PendingSignal D)) (s : TriggerSignal D) (p : PendingSignal D)
      → i.pending_signal ≡ q
      → record {
        level_index = s.level_index;
        side = s.side;
        first_observed_at = first_seen h i q s.level_index s.side;
        last_observed_price = i.current_price;
      }
        ≡ p
      → IsResolved p
  pending_of-IsResolved none s p w e = ground arith
  pending_of-IsResolved (some old) s p w e =
      elim (Bool-cases ((old.level_index == s.level_index) && same_side old.side s.side)) [
        | inr t ↦ record { observed = ground arith; since = inl (ground arith) }
        | inl t ↦ record {
          observed = ground arith;
          since =
              inr
                (old, w, ground arith, ground (arith, same_side→eq old.side s.side), ground arith);
        }
      ]

  keep_at-IsResolved :
      (old : PendingSignal D) (level : Option (GridLevel D)) (p : PendingSignal D)
      → i.pending_signal ≡ some old
      → keep_at h i old level ≡ some p
      → IsResolved p
  keep_at-IsResolved old none p w e = cc
  keep_at-IsResolved old (some level) p w e = record {
    observed = ground arith;
    since = inr (old, w, ground arith, ground arith, ground arith);
  }

  keep_pending-IsResolved :
      (q : Option (PendingSignal D)) (p : PendingSignal D)
      → i.pending_signal ≡ q
      → keep_pending h i q ≡ some p
      → IsResolved p
  keep_pending-IsResolved none p w e = cc
  keep_pending-IsResolved (some old) p w e =
      keep_at-IsResolved old (level_at h i old.level_index) p w e

  any_pending-IsResolved :
      (c : Option (TriggerSignal D)) (p : PendingSignal D)
      → pending_of h i c ≡ some p
      → IsResolved p
  any_pending-IsResolved none p e = keep_pending-IsResolved i.pending_signal p refl e
  any_pending-IsResolved (some s) p e =
      pending_of-IsResolved i.pending_signal s p refl (some-injective _ _ e)

  -- What stays pending carries the price of this run, and its wait began either now or with a signal
  -- that was pending at the same rail on the same side.
  pub resolve_pending_signal-IsResolved :
      (p : PendingSignal D) → resolve_pending_signal h i ≡ some p → IsResolved p
  unfolding resolve_pending_signal
  resolve_pending_signal-IsResolved p e = any_pending-IsResolved _ p e

  -- A wait cannot be inherited: if nothing was pending at that rail and side, the wait is over at a
  -- later time exactly when the whole window has passed since this run.
  pub resolve_pending_signal-waits :
      (runtime : IsRuntime h) (p : PendingSignal D)
      → resolve_pending_signal h i ≡ some p
      → ¬ (WasPending p)
      → (later window : ℕ)
      → (confirmation_elapsed h p later window ≡ true) ↔ (i.now + window ≤ later)
  unfolding confirmation_elapsed
  resolve_pending_signal-waits runtime p e fresh later window =
      elim (resolve_pending_signal-IsResolved p e).since [
        | inr old ↦ absurd (fresh old)
        | inl now ↦ rw (now, runtime.parse-iso i.now) (ground arith)
      ]

  -- The signal buys at the index of a rail, at its price or at that of a crossing there.
  pub record IsAtRail (level : GridLevel D) (s : TriggerSignal D) : Type 0 where
    pub buys : s.side ≡ buy
    pub at_index : s.level_index ≡ level.index
    pub at_price :
        (s.level_price ≡ level.price)
        ⊎ ((t : TriggerSignal D) × Memᴰ t i.crossed_signals
            × (t.side ≡ buy)
            × (t.level_index ≡ level.index)
            × (s.level_price ≡ t.level_price))

  boundary_candidate-IsAtRail :
      (level : GridLevel D) (c : Option (TriggerSignal D))
      → find (λ s. is_buy s.side && (s.level_index == level.index)) i.crossed_signals ≡ c
      → IsAtRail level (boundary_candidate h i level c)
  unfolding materialize_crossed_signal
  boundary_candidate-IsAtRail level none w = record {
    buys = refl;
    at_index = refl;
    at_price = inl refl;
  }
  boundary_candidate-IsAtRail level (some t) w =
      let found =
        find-holds (λ s. is_buy s.side && (s.level_index == level.index)) i.crossed_signals t w in
      record {
        buys = ground arith;
        at_index = ground arith;
        at_price = inr (t, find-Mem _ i.crossed_signals t w, ground arith, ground arith, refl);
      }

  keyed-IsAtRail :
      (level : GridLevel D) (s made : TriggerSignal D)
      → s ≡ record made { idempotency_key = s.idempotency_key }
      → IsAtRail level made
      → IsAtRail level s
  keyed-IsAtRail level s made e a =
      subst (IsAtRail level) (sym e)
        (record { buys = a.buys; at_index = a.at_index; at_price = a.at_price })

  -- An entry at the lowest rail below the range: accepted by the order builder up to its key, at a rail
  -- that the price confirms, and after the whole window if there is one.
  pub record IsBoundaryEntry (level : GridLevel D) (s : TriggerSignal D) : Type 0 where
    pub lowest : first i.levels ≡ some level
    pub stands : IsAtRail level s
    pub confirms : price_confirms_trigger buy level.price i.current_price ≡ true
    pub accepted :
        (t : TriggerSignal D) × (i.can_build_order t ≡ true)
        × (s ≡ record t { idempotency_key = s.idempotency_key })
    pub waited :
        (i.price_confirmation_window_ms ≡ 0) ⊎ (boundary_waited h i level i.pending_signal ≡ true)

  boundary_keyed-same :
      (level : GridLevel D) (t : TriggerSignal D) (q : Option (PendingSignal D))
      → let s = boundary_keyed h i level t q in s ≡ record t { idempotency_key = s.idempotency_key }
  boundary_keyed-same level t none = refl
  boundary_keyed-same level t (some p) = refl

  boundary_buy-IsBoundaryEntry :
      (l : Option (GridLevel D)) (s : TriggerSignal D)
      → first i.levels ≡ l
      → boundary_buy h i l ≡ some s
      → (level : GridLevel D) × IsBoundaryEntry level s
  boundary_buy-IsBoundaryEntry none s w e = cc
  boundary_buy-IsBoundaryEntry (some level) s w e =
      let made =
        boundary_candidate h i level
          (find (λ s. is_buy s.side && (s.level_index == level.index)) i.crossed_signals) in
      let keyed : s ≡ record made { idempotency_key = s.idempotency_key } =
        ground (arith, boundary_keyed-same level made i.pending_signal) in
      (
        level,
        record {
          lowest = w;
          stands = keyed-IsAtRail level s made keyed (boundary_candidate-IsAtRail level _ refl);
          confirms = ground arith;
          accepted = (made, ground arith, keyed);
          waited = ground arith;
        },
      )

  -- A signal below the range is a buy at the lowest rail of the grid, at its price or at that of a
  -- crossing there. The price confirms the rail, the order builder accepts the signal up to its key,
  -- and, unless the confirmation window is zero, a buy has been pending at that rail for the window.
  pub get_out_of_range_boundary_buy_signal-IsBoundaryEntry :
      (s : TriggerSignal D)
      → get_out_of_range_boundary_buy_signal h i ≡ some s
      → (level : GridLevel D) × IsBoundaryEntry level s
  unfolding get_out_of_range_boundary_buy_signal
  get_out_of_range_boundary_buy_signal-IsBoundaryEntry s e =
      boundary_buy-IsBoundaryEntry (first i.levels) s refl e
