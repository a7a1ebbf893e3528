-- ===== src/LotExit.antt =====
-- packages/core/src/services/lot-exit-commitment-service.ts: the exits that lots have promised, and
-- which of them a price makes due.
pub mod Due
mod Tests
use Prim.Native.String
use grid_bot.Common.{
  ℕ, zero, suc, ◌+◌, ◌-◌, ◌*◌, ◌/◌, ◌%◌, ◌≤◌, ◌<◌, ◌≡◌, ◌≢◌, refl, sym, ap, subst, ◌∙◌, Bool, true,
  false, not, ◌&&◌, ◌||◌, Option, none, some, List, [], ◌∷◌, ◌++◌, String, arith, ◌⊎◌, ◌↔◌, inl,
  inr, Memᴰ, keep, find, any, all, first, sort_by, map, foldl, reverse, length, length-append,
  length-keep, length-sort_by, get_elem?, Bool-cases, Option-cases, All, All-Mem, All-keep,
  All-keep_of, All-append, All-mono, All-at, Mem-append_left, Mem-append_right, Mem-keep, foldl_inv,
  All-push_if, any-false, All-map, All-keep_both, length-map, All-sort_by, sort_by-IsChain, IsChain,
  Leads, first-All, find-All, find-Mem, find-holds, if◌then◌else◌, if-both, false≢true, if-true,
  if-false, ltb, leb, ◌==◌, leb→le, le→leb, or_else, or_option, none≢some, some-injective, max, min,
  is_some, is_none, str_eq, eq_iff, eq_refl, ℤ, pos, ◌+ℤ◌, ◌-ℤ◌, add_comm, add_zero, sum_assoc,
  swap_ends, under_sum, sub_of_sum, add_cancel, int_laws, and-left, and-right,
}
use grid_bot.Float.{Float, IsIeee, IsNumber, num, ◌⊕◌, ◌⊗◌, ◌⊖◌, ◌⊘◌, ◌≼◌, ◌≺◌, ◌≈◌}
use grid_bot.Host.{Host, IsRuntime, ◌===◌, ◌<>◌, same_text, precedes}
use grid_bot.Domain.{ExitTargetStatus, is_known, PositionLot, TriggerSignal, sell}
use grid_bot.LotAccounting.{is_trading_lot}

pub record AbsoluteExit (D : Type 0) : Type 0 where
  pub lot_id : String
  pub target_status : ExitTargetStatus
  pub sell_target_price : Option D
  pub sell_level_index : Option ℕ
  pub origin_revision_id : String
  pub max_adverse_drift_bps : D

-- the argument of `eligibleCommittedExits`; its date is valid
pub record ExitInput (D : Type 0) : Type 0 where
  pub bot_id : String
  pub price : D
  pub now : ℕ
  pub lots : List (PositionLot D)
  pub commitments : List (AbsoluteExit D)

module _ {D : Type 0} ⦃f : Float D⦄ where
  abbrev pub is_target : D → Option D → Bool
  is_target price none = false
  is_target price (some t) = f.is_finite t && (num 0 ≺ t && t ≼ price)

  abbrev pub has_trading_lot : List (PositionLot D) → String → Bool
  has_trading_lot lots id = any (λ l. l.id === id) (keep is_trading_lot lots)

  unfoldable pub is_due : ExitInput D → AbsoluteExit D → Bool
  unfolding is_trading_lot
  is_due i exit =
      is_known exit.target_status
      && (has_trading_lot i.lots exit.lot_id && is_target i.price exit.sell_target_price)

  -- `sellTargetPrice!`, of exits whose target is known
  abbrev pub target : AbsoluteExit D → D
  target exit = or_else exit.sell_target_price (num 0)

  abbrev pub opened_time : Option (PositionLot D) → ℕ
  opened_time none = 0
  opened_time (some l) = l.opened_at

  -- The `Map` keeps the last lot of an id.
  abbrev pub opened_at : List (PositionLot D) → AbsoluteExit D → ℕ
  opened_at lots exit =
      opened_time (find (λ l. l.id === exit.lot_id) (reverse (keep is_trading_lot lots)))

module _ {D : Type 0} ⦃f : Float D⦄ ⦃h : Host⦄ where
  -- the order of the targets, then of the lots' ages, then of their ids
  unfoldable pub comes_before : ExitInput D → AbsoluteExit D → AbsoluteExit D → Bool
  unfolding is_trading_lot
  comes_before i a b =
      (target a ≺ target b)
      || (not (target b ≺ target a)
          && (ltb (opened_at i.lots a) (opened_at i.lots b)
              || ((opened_at i.lots a == opened_at i.lots b) && precedes a.lot_id b.lot_id)))

  abbrev pub exit_signal : ExitInput D → AbsoluteExit D → TriggerSignal D
  exit_signal i exit = record {
    exit_lot_id = some exit.lot_id;
    grid_revision_id = some exit.origin_revision_id;
    max_adverse_drift_bps = some exit.max_adverse_drift_bps;
    level_index = or_else exit.sell_level_index 1;
    side = sell;
    level_price = target exit;
    observed_price = i.price;
    idempotency_key = i.bot_id <> (":exit:" <> (exit.lot_id <> (":" <> h.iso i.now)));
    triggered_at = i.now;
  }

  unfoldable pub eligible_committed_exits : ExitInput D → List (TriggerSignal D)
  unfolding is_due comes_before
  eligible_committed_exits i =
      if not (f.is_finite i.price) || i.price ≼ num 0
      then []
      else map (exit_signal i) (sort_by (comes_before i) (keep (is_due i) i.commitments))

-- A missing revision differs from every revision.
unfoldable pub previous_price_for_revision :
    {D : Type 0} → String → Option String → Option D → Option D
previous_price_for_revision active_id observed_id previous =
    if same_text observed_id active_id then previous else none
