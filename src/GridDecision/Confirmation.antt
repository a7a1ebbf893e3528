-- ===== src/GridDecision/Confirmation.antt =====
-- packages/core/src/services/grid-decision-service.ts: what a confirmed signal has met.
use grid_bot.Common.{
  All, All-Mem, All-reverse, ◌==◌, and-left, and-right, ◌≡◌, refl, sym, subst, ◌∙◌, true, false,
  ◌&&◌, Option, none, some, List, [], ◌∷◌, arith, ◌⊎◌, inl, inr, Memᴰ, reverse, Bool-cases,
  Option-cases, find-Mem, find-holds, or_option, none≢some, some-injective,
}
use grid_bot.Float.{Float}
use grid_bot.Host.{Host}
use grid_bot.Domain.{buy, sell, GridLevel, PendingSignal, TriggerSignal, is_buy}
use grid_bot.PriceTrigger.{price_confirms_trigger}
use grid_bot.GridDecision.{
  DecisionInput, is_recovering_from_out_of_range, confirmation_elapsed, get_confirmed_signal,
  confirm_at, confirm_pending, confirm_crossed, level_at, first_sell, recovery_sell, probe_signal,
  is_immediate, select_actionable_crossed_signal, select_actionable_sell_at_current_price,
  materialize_crossed_signal,
}

module _ {D : Type 0} ⦃f : Float D⦄ (h : Host) (i : DecisionInput D) where
  -- A crossing that the order builder accepts, with the key of its order.
  pub record IsCrossed (s : TriggerSignal D) (t : TriggerSignal D) : Type 0 where
    pub crossed : Memᴰ t i.crossed_signals
    pub accepted : i.can_build_order (probe_signal h i t) ≡ true
    pub made : s ≡ materialize_crossed_signal h i t

  -- A signal at a rail of the grid that the price still confirms and that the order builder accepts.
  pub record IsHeld (s : TriggerSignal D) : Type 0 where
    pub rail : GridLevel D
    pub on_grid : Memᴰ rail i.levels
    pub at_index : s.level_index ≡ rail.index
    pub at_price : s.level_price ≡ rail.price
    pub accepted : i.can_build_order s ≡ true
    pub confirms : price_confirms_trigger s.side s.level_price i.current_price ≡ true

  -- A buy goes out of a wait that is over, or at once when no wait is asked.
  pub record IsPatient (s : TriggerSignal D) : Type 0 where
    pub in_range : is_recovering_from_out_of_range i.bot_status i.latest_status ≡ false
    pub waited :
        (i.price_confirmation_window_ms ≡ 0)
        ⊎ ((p : PendingSignal D) × (i.pending_signal ≡ some p)
            × (p.level_index ≡ s.level_index)
            × (p.side ≡ buy)
            × (confirmation_elapsed h p i.now i.price_confirmation_window_ms ≡ true))

  abbrev pub IsConfirmed : TriggerSignal D → Type 0
  IsConfirmed s =
      (((t : TriggerSignal D) × IsCrossed s t) ⊎ IsHeld s) × (s.side ≡ buy → IsPatient s)

  confirm_at-IsHeld :
      (p : PendingSignal D) (level : Option (GridLevel D)) (s : TriggerSignal D)
      → level_at h i p.level_index ≡ level
      → confirm_at h i p level ≡ some s
      → IsHeld s
        × (s.side ≡ p.side)
        × (s.level_index ≡ p.level_index)
        × (s.side ≡ buy → confirmation_elapsed h p i.now i.price_confirmation_window_ms ≡ true)
  confirm_at-IsHeld p none s w e = cc
  confirm_at-IsHeld p (some level) s w e =
      let found = find-holds (λ l. l.index == p.level_index) i.levels level w in
      (
        record {
          rail = level;
          on_grid = find-Mem _ i.levels level w;
          at_index = ground arith;
          at_price = ground arith;
          accepted = ground arith;
          confirms = ground arith;
        },
        ground arith,
        ground arith,
        λ b. ground arith,
      )

  confirm_pending-IsConfirmed :
      (q : Option (PendingSignal D)) (s : TriggerSignal D)
      → i.pending_signal ≡ q
      → confirm_pending h i q ≡ some s
      → IsHeld s × (s.side ≡ buy → IsPatient s)
  confirm_pending-IsConfirmed none s w e = cc
  confirm_pending-IsConfirmed (some p) s w e =
      elim (Bool-cases
        (is_recovering_from_out_of_range i.bot_status i.latest_status && is_buy p.side)) [
          | inl t ↦ absurd (none≢some (rw t at e))
          | inr t ↦
              let (held, side, index, waited) =
                confirm_at-IsHeld p (level_at h i p.level_index) s refl (rw t at e) in
              (
                held,
                λ b. record {
                  in_range = ground arith;
                  waited = inr (p, w, sym index, sym side ∙ b, waited b);
                },
              )
        ]

  first_sell-IsHeld :
      (levels : List (GridLevel D)) (s : TriggerSignal D)
      → All (λ l. Memᴰ l i.levels) levels
      → first_sell h i levels ≡ some s
      → IsHeld s × (s.side ≡ sell)
  first_sell-IsHeld [] s m e = cc
  first_sell-IsHeld (level ∷ rest) s (m, ms) e =
      elim (Bool-cases (
        price_confirms_trigger sell level.price i.current_price
        && i.can_build_order (recovery_sell h i level))) [
          | inl t ↦
              subst (λ x. IsHeld x × (x.side ≡ sell)) (some-injective _ _ (rw t at e))
                (
                  record {
                    rail = level;
                    on_grid = m;
                    at_index = refl;
                    at_price = refl;
                    accepted = and-right _ _ t;
                    confirms = and-left _ _ t;
                  },
                  refl,
                )
          | inr t ↦ first_sell-IsHeld rest s ms (rw t at e)
        ]

  waiting-IsConfirmed :
      (s : TriggerSignal D)
      → or_option
          (select_actionable_sell_at_current_price h i)
          (confirm_pending h i i.pending_signal)
        ≡ some s
      → IsConfirmed s
  unfolding select_actionable_sell_at_current_price
  waiting-IsConfirmed s e = elim (Option-cases (first_sell h i (reverse i.levels))) [
    | inl n ↦
        let (held, patient) = confirm_pending-IsConfirmed i.pending_signal s refl (rw n at e) in
        (inr held, patient)
    | inr (t, q) ↦
        let (held, side) =
          first_sell-IsHeld (reverse i.levels) t (All-reverse _ i.levels (All-Mem i.levels)) q in
        let same : t ≡ s = some-injective _ _ (rw q at e) in
        (inr (subst IsHeld same held), λ b. absurd (ground arith))
  ]

  confirm_crossed-IsConfirmed :
      (c : Option (TriggerSignal D)) (s : TriggerSignal D)
      → ((t : TriggerSignal D)
          → c ≡ some t
          → Memᴰ t i.crossed_signals × (i.can_build_order (probe_signal h i t) ≡ true))
      → confirm_crossed h i c ≡ some s
      → IsConfirmed s
  unfolding materialize_crossed_signal
  confirm_crossed-IsConfirmed none s g e = waiting-IsConfirmed s e
  confirm_crossed-IsConfirmed (some t) s g e = elim (Bool-cases (is_immediate h i t)) [
    | inr n ↦ waiting-IsConfirmed s (rw n at e)
    | inl n ↦
        let same : materialize_crossed_signal h i t ≡ s = some-injective _ _ (rw n at e) in
        let (m, a) = g t refl in
        (
          inl (t, record { crossed = m; accepted = a; made = sym same }),
          λ b. record { in_range = ground arith; waited = inl (ground arith) },
        )
  ]

  -- A confirmed signal either comes from a crossing of this run that the order builder accepts, or
  -- stands at a rail of the grid, with its index and price, that the price confirms, and is itself
  -- accepted. A buy is never confirmed while the
  -- bot recovers from being out of range, and, unless the confirmation window is zero, only for a
  -- pending buy at the same rail that has been observed for the whole window.
  pub get_confirmed_signal-IsConfirmed :
      (s : TriggerSignal D) → get_confirmed_signal h i ≡ some s → IsConfirmed s
  unfolding get_confirmed_signal
  get_confirmed_signal-IsConfirmed s e =
      confirm_crossed-IsConfirmed (select_actionable_crossed_signal h i i.crossed_signals) s
        (λ t q. (find-Mem _ i.crossed_signals t q, find-holds _ i.crossed_signals t q)) e
