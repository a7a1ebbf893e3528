-- ===== src/CapitalLedger/Reservations.antt =====
-- packages/db/src/repositories/portfolio-repository.ts: capital is set aside for a buy, released,
-- and reconciled when the outcome of its execution is unknown.
use grid_bot.Common.{
  Bool, true, false, not, ◌&&◌, Option, none, some, List, ◌∷◌, String, pos, ◌+ℤ◌, ◌-ℤ◌,
}
use grid_bot.Float.{Float, ◌⊖◌, ◌≺◌, ◌≈◌}
use grid_bot.Host.{◌===◌, ◌<>◌, same_text}
use grid_bot.Domain.{is_active}
use grid_bot.CapitalLedger.Allocation.{CapitalInput, update_band}
use grid_bot.CapitalLedger.Tables.{
  Database, Tables, Outcome, done, refused, missing_text, invalid_number, no_band, no_portfolio,
  key_reused, portfolio_blocked, foreign_band, inactive_band, insufficient_band, no_reservation,
  foreign_reservation, outcome_unknown, already_settled, already_released, terminal_reservation,
  not_unknown, ReservationStatus, reserved, uncertain, settled, released, EntryType,
  reservation_entry, reservation_release, reconciliation, EntryRow, BandRow, ReservationRow,
  require, found, update_where, is_uncertain, has_band, has_portfolio, find_band_of,
  find_reservation, get_reservation, reservation_by_key, entry_by_key, is_blocked, with_version,
  post, is_positive, entry,
}

pub data Resolution : Type 0 where
  release_capital restore_reserved : Resolution

-- `ReleasePortfolioReservationInput`
pub record ReleaseInput : Type 0 where
  pub portfolio_id : String
  pub reservation_id : String
  pub idempotency_key : String
  pub reason : String

abbrev pub is_release : EntryType → Bool
is_release reservation_release = true
is_release _ = false

abbrev pub is_reconciliation : EntryType → Bool
is_reconciliation reconciliation = true
is_reconciliation _ = false

module _ {D : Type 0} where
  abbrev pub set_reservation :
      Tables D → String → ReservationStatus → Option String → List ReservationRow
  set_reservation db id status why =
      update_where (λ r. r.id === id) (λ r. record r { status = status; unknown_reason = why })
        db.reservations

  -- The reservation and the rows that its transaction locks.
  abbrev pub locate :
      Tables D
      → String
      → String
      → (ReservationRow → Outcome D ReservationRow)
      → Outcome D ReservationRow
  locate db portfolio_id id next = found (find_reservation db id) no_reservation (λ p.
      require (has_band db p.band_id) no_band (
        require (has_portfolio db portfolio_id) no_portfolio
          (found (get_reservation db portfolio_id id) foreign_reservation next)))

module _ {D : Type 0} ⦃f : Float D⦄ (s : Database D) (db : Tables D) where
  abbrev pub reserved_row : CapitalInput D → String → ReservationRow
  reserved_row i id = record {
    id = id;
    portfolio_id = i.portfolio_id;
    band_id = i.band_id;
    quote_amount = s.amount i.quote_amount;
    status = reserved;
    idempotency_key = i.idempotency_key;
    execution_id = none;
    unknown_reason = none;
  }

  abbrev pub reserve_in : CapitalInput D → String → BandRow → Outcome D ReservationRow
  reserve_in i id band = require (is_active band.status) inactive_band (
      require
        (not (
          s.value band.available_quote_amount ⊖ s.value band.reserved_quote_amount
          ≺ i.quote_amount))
        insufficient_band
        (post
          (record db {
            reservations = reserved_row i id ∷ db.reservations;
            bands = update_band db band.id (λ b. record b {
              reserved_quote_amount = b.reserved_quote_amount +ℤ s.amount i.quote_amount;
            });
            portfolios = with_version db i.portfolio_id;
          })
          (record (entry reservation_entry i.portfolio_id band.id (some id) i.idempotency_key
            i.reason) { band_reserved_quote_delta = s.amount i.quote_amount })
          (reserved_row i id)))

  abbrev pub reserve_once :
      CapitalInput D → String → Option ReservationRow → Outcome D ReservationRow
  reserve_once i id (some r) =
      require ((r.band_id === i.band_id) && (s.value r.quote_amount ≈ i.quote_amount)) key_reused
        (done r db)
  reserve_once i id none =
      require (not (is_blocked db i.portfolio_id)) portfolio_blocked
        (found (find_band_of db i.portfolio_id i.band_id) foreign_band (reserve_in i id))

  -- `id` is the one that the database gives to a new reservation
  unfoldable pub reserve_capital : CapitalInput D → String → Outcome D ReservationRow
  unfolding post is_blocked
  reserve_capital i id = require (not (s.is_blank i.idempotency_key)) missing_text (
      require (not (s.is_blank i.reason)) missing_text (
        require (is_positive i.quote_amount) invalid_number (
          require (has_band db i.band_id) no_band (
            require (has_portfolio db i.portfolio_id) no_portfolio
              (reserve_once i id (reservation_by_key db i.portfolio_id i.idempotency_key))))))

module _ {D : Type 0} (s : Database D) (db : Tables D) where
  abbrev pub release_open :
      ReleaseInput → ReservationRow → ReservationStatus → Outcome D ReservationRow
  release_open i r uncertain = refused outcome_unknown
  release_open i r settled = refused already_settled
  release_open i r released = refused already_released
  release_open i r reserved =
      post
        (record db {
          reservations =
              update_where (λ q. q.id === r.id) (λ q. record q { status = released })
                db.reservations;
          bands =
              update_band db r.band_id (λ b. record b {
                reserved_quote_amount = b.reserved_quote_amount -ℤ r.quote_amount;
              });
          portfolios = with_version db i.portfolio_id;
        })
        (record (entry reservation_release i.portfolio_id r.band_id (some r.id) i.idempotency_key
          i.reason) { band_reserved_quote_delta = pos 0 -ℤ r.quote_amount })
        (record r { status = released })

  abbrev pub release_once :
      ReleaseInput → ReservationRow → Option (EntryRow D) → Outcome D ReservationRow
  release_once i r (some e) =
      require (is_release e.entry_type && same_text e.reservation_id r.id) key_reused (done r db)
  release_once i r none = release_open i r r.status

  unfoldable pub release_reservation : ReleaseInput → Outcome D ReservationRow
  unfolding post
  release_reservation i = require (not (s.is_blank i.idempotency_key)) missing_text (
      require (not (s.is_blank i.reason)) missing_text (
        locate db i.portfolio_id i.reservation_id
          (λ r. release_once i r (entry_by_key db i.portfolio_id i.idempotency_key))))

  abbrev pub mark_at :
      String → String → ReservationRow → ReservationStatus → Outcome D ReservationRow
  mark_at portfolio_id reason r settled = refused terminal_reservation
  mark_at portfolio_id reason r released = refused terminal_reservation
  mark_at portfolio_id reason r uncertain = done r db
  mark_at portfolio_id reason r reserved =
      post
        (record db {
          reservations = set_reservation db r.id uncertain (some reason);
          portfolios = with_version db portfolio_id;
        })
        (entry reconciliation portfolio_id r.band_id (some r.id) ("reservation-unknown:" <> r.id)
          reason)
        (record r { status = uncertain; unknown_reason = some reason })

  unfoldable pub mark_reservation_unknown : String → String → String → Outcome D ReservationRow
  unfolding post
  mark_reservation_unknown portfolio_id id reason =
      require (not (s.is_blank reason)) missing_text
        (locate db portfolio_id id (λ r. mark_at portfolio_id reason r r.status))

  abbrev pub resolve_as : ReleaseInput → ReservationRow → Resolution → Outcome D ReservationRow
  resolve_as i r release_capital =
      post
        (record db {
          reservations = set_reservation db r.id released none;
          bands =
              update_band db r.band_id (λ b. record b {
                reserved_quote_amount = b.reserved_quote_amount -ℤ r.quote_amount;
              });
          portfolios = with_version db i.portfolio_id;
        })
        (record (entry reconciliation i.portfolio_id r.band_id (some r.id) i.idempotency_key
          i.reason) { band_reserved_quote_delta = pos 0 -ℤ r.quote_amount })
        (record r { status = released; unknown_reason = none })
  resolve_as i r restore_reserved =
      post
        (record db {
          reservations = set_reservation db r.id reserved none;
          portfolios = with_version db i.portfolio_id;
        })
        (entry reconciliation i.portfolio_id r.band_id (some r.id) i.idempotency_key i.reason)
        (record r { status = reserved; unknown_reason = none })

  abbrev pub reconcile_once :
      ReleaseInput → Resolution → ReservationRow → Option (EntryRow D) → Outcome D ReservationRow
  reconcile_once i how r (some e) =
      require (is_reconciliation e.entry_type && same_text e.reservation_id r.id) key_reused
        (done r db)
  reconcile_once i how r none = require (is_uncertain r.status) not_unknown (resolve_as i r how)

  -- `ReconcilePortfolioReservationInput` has a resolution besides the fields of a release
  unfoldable pub reconcile_reservation : ReleaseInput → Resolution → Outcome D ReservationRow
  unfolding post
  reconcile_reservation i how = require (not (s.is_blank i.idempotency_key)) missing_text (
      require (not (s.is_blank i.reason)) missing_text (
        locate db i.portfolio_id i.reservation_id
          (λ r. reconcile_once i how r (entry_by_key db i.portfolio_id i.idempotency_key))))
