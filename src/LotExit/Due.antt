-- ===== src/LotExit/Due.antt =====
-- packages/core/src/services/lot-exit-commitment-service.ts: the signals of the exits that are due.
use grid_bot.Common.{
  Option, none, some, or_else, false≢true, any-All, and-left, and-right, eq_iff, ◌≡◌, refl, ◌∙◌,
  true, false, not, ◌&&◌, ◌||◌, arith, inl, inr, Memᴰ, keep, length, length-sort_by, Bool-cases,
  All, All-Mem, All-mono, All-map, length-map, All-sort_by, sort_by-IsChain, IsChain-map,
  All-keep_with, IsChain, if◌then◌else◌,
}
use grid_bot.Float.{Float, num, ◌≼◌, ◌≺◌}
use grid_bot.Host.{Host, ◌===◌}
use grid_bot.Domain.{is_known, sell, PositionLot, TriggerSignal}
use grid_bot.LotAccounting.{is_trading_lot}
use grid_bot.LotExit.{
  AbsoluteExit, ExitInput, is_target, is_due, target, comes_before, exit_signal,
  eligible_committed_exits,
}

module _ {D : Type 0} ⦃f : Float D⦄ ⦃h : Host⦄ (i : ExitInput D) where
  -- The signal sells an open trading lot at the target that a known commitment of the lot names, which
  -- is positive and which the price has reached.
  pub record IsPromised (s : TriggerSignal D) : Type 0 where
    pub exit : AbsoluteExit D
    pub committed : Memᴰ exit i.commitments
    pub decided : is_known exit.target_status ≡ true
    pub lot : PositionLot D
    pub held : Memᴰ lot i.lots
    pub tradable : is_trading_lot lot ≡ true
    pub same_lot : lot.id ≡ exit.lot_id
    pub sells : s.side ≡ sell
    pub of_lot : s.exit_lot_id ≡ some exit.lot_id
    pub of_revision : s.grid_revision_id ≡ some exit.origin_revision_id
    pub within_drift : s.max_adverse_drift_bps ≡ some exit.max_adverse_drift_bps
    pub at_target : exit.sell_target_price ≡ some s.level_price
    pub positive : (num 0 ≺ s.level_price) ≡ true
    pub reached : (s.level_price ≼ i.price) ≡ true
    pub observed : s.observed_price ≡ i.price

  is_target-some :
      (o : Option D)
      → is_target i.price o ≡ true
      → (o ≡ some (or_else o (num 0)))
        × ((num 0 ≺ or_else o (num 0)) ≡ true)
        × ((or_else o (num 0) ≼ i.price) ≡ true)
  is_target-some none e = elim (false≢true e) [ ]
  is_target-some (some t) e = (refl, ground arith, ground arith)

  due-IsPromised :
      (exit : AbsoluteExit D)
      → Memᴰ exit i.commitments
      → is_due i exit ≡ true
      → IsPromised (exit_signal i exit)
  unfolding is_due
  due-IsPromised exit m e =
      let held =
        any-All _ (λ l. l.id === exit.lot_id) (keep is_trading_lot i.lots)
          (and-left _ _ (and-right _ _ e))
          (All-keep_with (λ l. Memᴰ l i.lots) is_trading_lot i.lots (All-Mem i.lots)) in
      let target = is_target-some exit.sell_target_price (and-right _ _ (and-right _ _ e)) in
      record {
        exit = exit;
        committed = m;
        decided = and-left _ _ e;
        lot = held.0;
        held = held.2.0;
        tradable = held.2.1;
        same_lot = (eq_iff held.0.id exit.lot_id).0 held.1;
        sells = refl;
        of_lot = refl;
        of_revision = refl;
        within_drift = refl;
        at_target = target.0;
        positive = target.1;
        reached = target.2;
        observed = refl;
      }

  -- the price of a signal does not lie below that of the one before it
  abbrev pub NotBelow : TriggerSignal D → TriggerSignal D → Type 0
  NotBelow s t = (t.level_price ≺ s.level_price) ≡ false

  ahead : (a b : AbsoluteExit D) → comes_before i a b ≡ true → (target b ≺ target a) ≡ false
  unfolding comes_before
  ahead a b e = ground arith

  in_place : (a b : AbsoluteExit D) → comes_before i b a ≡ false → (target b ≺ target a) ≡ false
  unfolding comes_before
  in_place a b e = ground arith

  -- Every signal sells one open trading lot, which it names, at the positive target of a commitment of
  -- that lot, with the revision and the drift of the commitment; the price has reached the target. No
  -- signal's price lies below that of the signal before it. At a positive finite price there are as many signals as such
  -- commitments, and at any other price there is none.
  pub eligible_committed_exits-IsPromised :
      All IsPromised (eligible_committed_exits i)
      × IsChain NotBelow (eligible_committed_exits i)
      × (length (eligible_committed_exits i) ≡ (
          if f.is_finite i.price && not (i.price ≼ num 0)
          then length (keep (is_due i) i.commitments)
          else 0))
  unfolding eligible_committed_exits
  eligible_committed_exits-IsPromised =
      elim (Bool-cases (not (f.is_finite i.price) || i.price ≼ num 0)) [
        | inl e ↦ rw e (tt, tt, ground arith)
        | inr e ↦ rw e (
          All-map _ _ _ (
              All-sort_by _ _ _ (
                All-mono _ _ _ (λ x h. due-IsPromised x h.0 h.1)
                  (All-keep_with (λ x. Memᴰ x i.commitments) (is_due i) i.commitments
                    (All-Mem i.commitments)))),
          IsChain-map NotBelow (exit_signal i) _ (
              sort_by-IsChain (λ a b. (target b ≺ target a) ≡ false) (comes_before i) ahead in_place
                (keep (is_due i) i.commitments)),
          length-map _ _
              ∙ length-sort_by (comes_before i) (keep (is_due i) i.commitments)
              ∙ ground arith,
        )
      ]
