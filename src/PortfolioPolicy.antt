-- ===== src/PortfolioPolicy.antt =====
-- packages/core/src/services/portfolio-policy-service.ts: the policy of the grid bands.
pub mod Inputs
pub mod Envelope
pub mod Validation
pub mod Decision
pub mod Initial
pub mod Justified
pub mod History
mod Tests
use grid_bot.Common.{Bool, ◌&&◌}
use grid_bot.Float.{Float, num, ◌⊖◌, ◌⊘◌, ◌≼◌, ◌≺◌}

-- `DuplicateExposureInput`
pub record DuplicateExposure (D : Type 0) : Type 0 where
  pub old_entry_price : D
  pub current_price : D
  pub wider_spacing : D
  pub open_trading_lot : Bool

module _ {D : Type 0} ⦃f : Float D⦄ where
  unfoldable pub blocks_duplicate_entry : DuplicateExposure D → Bool
  blocks_duplicate_entry e =
      e.open_trading_lot
      && (f.is_finite e.old_entry_price
          && (f.is_finite e.current_price
              && (f.is_finite e.wider_spacing
                  && (num 0 ≺ e.wider_spacing
                      && f.abs (e.current_price ⊖ e.old_entry_price) ≼ e.wider_spacing ⊘ num 2))))
