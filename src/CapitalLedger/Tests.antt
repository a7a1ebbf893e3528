-- ===== src/CapitalLedger/Tests.antt =====
-- packages/db/src/repositories/portfolio-repository.ts: the capital of one band, from its reservation
-- to the fill.
use grid_bot.Common.{ℕ, ◌≡◌, ◌≢◌, refl, none, some, [], ◌∷◌, ℤ, pos, ◌+ℤ◌, ◌-ℤ◌}
use grid_bot.Host.{◌===◌}
use grid_bot.Float.Fixed.{Fixed, fixed_float}
use grid_bot.Samples.{usd}
use grid_bot.Domain.{active}
use grid_bot.CapitalLedger.Audit.{IsAudited, IsExplained, allocated, available, held, deployed}
use grid_bot.CapitalLedger.Runs.{Run-IsAudited, allocating}
use grid_bot.CapitalLedger.Tables.{band_allocation}
use grid_bot.CapitalLedger.Allocation.{allocate_capital}
use grid_bot.CapitalLedger.Tables.{
  Database, Tables, Outcome, done, refused, reserved, reservation_entry, is_blocked, reconciliation,
  entry, BandRow, ReservationRow, require, found, post,
}
use grid_bot.CapitalLedger.Allocation.{CapitalInput}
use grid_bot.CapitalLedger.Reservations.{
  reserve_capital, mark_reservation_unknown, reconcile_reservation, restore_reserved,
}
use grid_bot.CapitalLedger.Held.{IsHeld}
use grid_bot.CapitalLedger.Runs.{start, then_step, reserving, Run-IsHeld}
use grid_bot.CapitalLedger.Guards.{Answer, reserve_capital-answers, mark_reservation_unknown-once}
use grid_bot.CapitalLedger.Rules.{Holds}

abbrev amount_of : Fixed → ℤ
amount_of none = pos 0
amount_of (some z) = z

abbrev columns : Database Fixed
columns = record { amount = amount_of; value = λ z. some z; is_blank = λ t. t === "" }

columns_stable : (x : Fixed) → columns.amount (columns.value (columns.amount x)) ≡ columns.amount x
columns_stable x = refl

abbrev atoms : ℕ → ℤ
atoms n = columns.amount (usd n)

abbrev band : ℤ → BandRow
band amount = record {
  id = "band";
  asset_strategy_id = "sol";
  status = active;
  allocated_quote_amount = atoms 300;
  available_quote_amount = atoms 300;
  reserved_quote_amount = amount;
  deployed_cost_quote = pos 0;
  realized_loss_quote = pos 0;
}

abbrev row : ReservationRow
row = record {
  id = "r1";
  portfolio_id = "p";
  band_id = "band";
  quote_amount = atoms 100;
  status = reserved;
  idempotency_key = "k1";
  execution_id = none;
  unknown_reason = none;
}

abbrev opening : Tables Fixed
opening = record {
  portfolios = record { id = "p"; free_quote_amount = atoms 700; version = 1 } ∷ [];
  strategies =
      record {
        id = "sol";
        portfolio_id = "p";
        allocated_quote_amount = atoms 300;
        retained_base_amount = pos 0;
      }
      ∷ [];
  bands = band (pos 0) ∷ [];
  reservations = [];
  entries = [];
  commitments = [];
}

abbrev request : CapitalInput Fixed
request = record {
  portfolio_id = "p";
  band_id = "band";
  quote_amount = usd 100;
  idempotency_key = "k1";
  reason = "buy";
}

abbrev granted : Tables Fixed
granted = record opening {
  portfolios = record { id = "p"; free_quote_amount = atoms 700; version = 2 } ∷ [];
  bands = band (atoms 100) ∷ [];
  reservations = row ∷ [];
  entries =
      record (entry reservation_entry "p" "band" (some "r1") "k1" "buy") {
        band_reserved_quote_delta = atoms 100;
      }
      ∷ [];
}

grants : reserve_capital columns opening request "r1" ≡ done row granted
unfolding reserve_capital require found post is_blocked ◌+ℤ◌
grants = refl

grants_again : reserve_capital columns granted request "r2" ≡ done row granted
unfolding reserve_capital require found
grants_again = refl

opening-IsHeld : IsHeld columns opening
opening-IsHeld = record { sums = (refl, tt); distinct = tt; stable = tt }

Run-IsHeld_example : IsHeld columns granted
Run-IsHeld_example =
    Run-IsHeld columns columns_stable opening granted opening-IsHeld
      (then_step start (reserving request "r1" row tt grants))

reserve_capital-answers_example :
    Holds (Answer columns opening request) (reserve_capital columns opening request "r1")
reserve_capital-answers_example = reserve_capital-answers columns opening request "r1"

-- The outcome was unknown once, and the reservation has been restored.
abbrev restored : Tables Fixed
restored = record granted {
  entries =
      entry reconciliation "p" "band" (some "r1") "k2" "not found on chain"
      ∷ entry reconciliation "p" "band" (some "r1") "reservation-unknown:r1" "timeout"
      ∷ granted.entries;
}

abbrev after_timeout : Outcome Fixed ReservationRow → Outcome Fixed ReservationRow
after_timeout (done r db) =
    reconcile_reservation columns db
      (record {
        portfolio_id = "p";
        reservation_id = "r1";
        idempotency_key = "k2";
        reason = "not found on chain";
      })
      restore_reserved
after_timeout (refused e) = refused e

restores :
    after_timeout (mark_reservation_unknown columns granted "p" "r1" "timeout")
    ≡ done row (record restored {
      portfolios = record { id = "p"; free_quote_amount = atoms 700; version = 4 } ∷ [];
    })
unfolding mark_reservation_unknown reconcile_reservation require found post
restores = refl

mark_reservation_unknown-once_example :
    mark_reservation_unknown columns restored "p" "r1" "timeout" ≢ done row restored
mark_reservation_unknown-once_example =
    mark_reservation_unknown-once columns restored "p" "r1" "timeout" row row restored refl refl
      refl

-- A band that has nothing yet is given the first 100.
abbrev empty_band : BandRow
empty_band = record (band (pos 0)) {
  allocated_quote_amount = pos 0;
  available_quote_amount = pos 0;
}

abbrev vacant : Tables Fixed
vacant = record opening { bands = empty_band ∷ [] }

abbrev funded : Tables Fixed
funded = record vacant {
  portfolios = record { id = "p"; free_quote_amount = atoms 600; version = 2 } ∷ [];
  strategies =
      record {
        id = "sol";
        portfolio_id = "p";
        allocated_quote_amount = atoms 400;
        retained_base_amount = pos 0;
      }
      ∷ [];
  bands =
      record empty_band { allocated_quote_amount = atoms 100; available_quote_amount = atoms 100 }
      ∷ [];
  entries =
      record (entry band_allocation "p" "band" none "k1" "buy") {
        portfolio_free_quote_delta = pos 0 -ℤ atoms 100;
        strategy_allocated_quote_delta = atoms 100;
        band_allocated_quote_delta = atoms 100;
        band_available_quote_delta = atoms 100;
      }
      ∷ [];
}

allocates : allocate_capital columns vacant request ≡ done tt funded
unfolding allocate_capital require found post is_blocked ◌+ℤ◌ ◌-ℤ◌
allocates = refl

vacant-IsAudited : IsAudited vacant
vacant-IsAudited = (nothing, tt)
  where
    nothing : IsExplained {D = Fixed} [] empty_band
    nothing allocated = refl
    nothing available = refl
    nothing held = refl
    nothing deployed = refl

Run-IsAudited_example : IsAudited funded
Run-IsAudited_example =
    Run-IsAudited columns vacant funded vacant-IsAudited
      (then_step start (allocating request allocates))
