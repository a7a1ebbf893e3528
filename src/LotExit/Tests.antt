-- ===== src/LotExit/Tests.antt =====
-- packages/core/src/services/lot-exit-commitment-service.ts: one exit that is due, and one that is not.
use grid_bot.Common.{ℕ, ◌≡◌, refl, some, [], ◌∷◌, map, length, All, IsChain}
use grid_bot.LotAccounting.{is_trading_lot}
use grid_bot.Float.Fixed.{Fixed, fixed_float}
use grid_bot.Host.Binary.{binary}
use grid_bot.Samples.{usd, lot}
use grid_bot.Domain.{known, unknown_target}
use grid_bot.LotExit.{AbsoluteExit, ExitInput, is_due, comes_before, eligible_committed_exits}
use grid_bot.LotExit.Due.{IsPromised, NotBelow, eligible_committed_exits-IsPromised}

abbrev exit_at : ℕ → AbsoluteExit Fixed
exit_at price = record {
  lot_id = "lot-1";
  target_status = known;
  sell_target_price = some (usd price);
  sell_level_index = some 2;
  origin_revision_id = "g1";
  max_adverse_drift_bps = usd 30;
}

abbrev promises : ExitInput Fixed
promises = record {
  bot_id = "b";
  price = usd 121;
  now = 7;
  lots = lot ∷ [];
  commitments =
      exit_at 130 ∷ exit_at 120 ∷ record (exit_at 110) { target_status = unknown_target } ∷ [];
}

one_is_due :
    map (λ s. s.level_price) (eligible_committed_exits ⦃h = binary⦄ promises) ≡ usd 120 ∷ []
unfolding eligible_committed_exits is_due comes_before is_trading_lot
one_is_due = refl

eligible_committed_exits-IsPromised_example :
    All (IsPromised ⦃h = binary⦄ promises) (eligible_committed_exits ⦃h = binary⦄ promises)
    × IsChain (NotBelow ⦃h = binary⦄ promises) (eligible_committed_exits ⦃h = binary⦄ promises)
    × (length (eligible_committed_exits ⦃h = binary⦄ promises) ≡ 1)
unfolding eligible_committed_exits is_due comes_before is_trading_lot
eligible_committed_exits-IsPromised_example =
    eligible_committed_exits-IsPromised ⦃h = binary⦄ promises
