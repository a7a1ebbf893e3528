-- ===== src/CapitalLedger/Fills.antt =====
-- packages/db/src/repositories/portfolio-repository.ts: the fill of a buy settles its reservation.
use grid_bot.Common.{Bool, true, not, Option, none, some, List, String, pos, ◌+ℤ◌, ◌-ℤ◌, or_else}
use grid_bot.Float.{Float, num, ◌⊕◌, ◌≺◌}
use grid_bot.Host.{◌===◌}
use grid_bot.CapitalLedger.Tables.{
  Database, Tables, Outcome, refused, invalid_number, foreign_reservation, outcome_unknown,
  terminal_reservation, debit_above_reservation, ReservationStatus, reserved, uncertain, settled,
  released, buy_settlement, EntryRow, BandRow, ReservationRow, CommitmentRow, SettlementResult,
  require, found, update_where, get_reservation, with_version, post, is_positive, entry,
}
use grid_bot.CapitalLedger.Allocation.{update_band}
use grid_bot.CapitalLedger.Commitments.{CommitmentInput, upsert_commitment}

-- the two members of `PortfolioFillSettlementInput`
pub record BuyFill (D : Type 0) : Type 0 where
  pub reservation_id : String
  pub cash_quote_debited : D
  pub acquired_cost_quote : D
  pub base_received : D
  pub exit_commitment : CommitmentInput D
  pub reconciles_unknown : Bool

pub record SellFill (D : Type 0) : Type 0 where
  pub lot_id : String
  pub cost_basis_released : D
  pub net_quote_received : D
  pub retained_base_amount : D
  pub lot_closed : Option Bool

pub data FillSide (D : Type 0) : Type 0 where
  bought : BuyFill D → FillSide D
  sold : SellFill D → FillSide D

pub record FillInput (D : Type 0) : Type 0 where
  pub portfolio_id : String
  pub band_id : String
  pub execution_id : String
  pub idempotency_key : String
  pub external_fee_quote : Option D
  pub side : FillSide D

module _ {D : Type 0} ⦃f : Float D⦄ (s : Database D) where
  abbrev pub bought_result : SettlementResult D
  bought_result = record {
    applied = true;
    principal_returned_quote = num 0;
    profit_swept_quote = num 0;
    portfolio_credit_quote = num 0;
    loss_realized_quote = num 0;
    retained_base_amount = num 0;
  }

  -- a reservation that a fill may settle
  abbrev pub can_settle :
      Bool → ReservationStatus → (Outcome D (SettlementResult D)) → Outcome D (SettlementResult D)
  can_settle explicit reserved next = next
  can_settle explicit uncertain next = require explicit outcome_unknown next
  can_settle explicit settled next = refused terminal_reservation
  can_settle explicit released next = refused terminal_reservation

  module _ (db : Tables D) (i : FillInput D) where
    abbrev pub external_fee : D
    external_fee = or_else i.external_fee_quote (num 0)

    abbrev pub settled_tables : BuyFill D → BandRow → ReservationRow → List CommitmentRow → Tables D
    settled_tables b band r commitments = record db {
      bands = update_band db band.id (λ a. record a {
        available_quote_amount = a.available_quote_amount -ℤ s.amount b.cash_quote_debited;
        reserved_quote_amount = a.reserved_quote_amount -ℤ s.amount (s.value r.quote_amount);
        deployed_cost_quote = a.deployed_cost_quote +ℤ s.amount b.acquired_cost_quote;
      });
      reservations =
          update_where (λ q. q.id === r.id)
            (λ q. record q {
              status = settled;
              execution_id = some i.execution_id;
              unknown_reason = none;
            })
            db.reservations;
      commitments = commitments;
      portfolios = with_version db i.portfolio_id;
    }

    abbrev pub buy_entry : BuyFill D → BandRow → ReservationRow → EntryRow D
    buy_entry b band r =
        record (entry buy_settlement i.portfolio_id band.id (some r.id) i.idempotency_key
          "Atomic buy fill settlement") {
            execution_id = some i.execution_id;
            band_available_quote_delta = pos 0 -ℤ s.amount b.cash_quote_debited;
            band_reserved_quote_delta = pos 0 -ℤ s.amount (s.value r.quote_amount);
            band_deployed_cost_delta = s.amount b.acquired_cost_quote;
            external_fee_quote_delta = s.amount external_fee;
            result = some bought_result;
          }

    abbrev pub settle_reservation :
        BuyFill D → BandRow → ReservationRow → Outcome D (SettlementResult D)
    settle_reservation b band r = require (r.band_id === band.id) foreign_reservation (
        can_settle b.reconciles_unknown r.status (
          require (not (s.value r.quote_amount ⊕ f.decimal 1 8 ≺ b.cash_quote_debited))
            debit_above_reservation
            (upsert_commitment s db.commitments band.id b.exit_commitment (λ commitments.
              post (settled_tables b band r commitments) (buy_entry b band r) bought_result))))

    abbrev pub settle_buy : BuyFill D → BandRow → Outcome D (SettlementResult D)
    settle_buy b band = require (is_positive b.cash_quote_debited) invalid_number (
        require (is_positive b.acquired_cost_quote) invalid_number (
          require (is_positive b.base_received) invalid_number (
            found (get_reservation db i.portfolio_id b.reservation_id) foreign_reservation
              (settle_reservation b band))))
