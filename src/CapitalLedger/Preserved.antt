-- ===== src/CapitalLedger/Preserved.antt =====
-- packages/db/src/repositories/portfolio-repository.ts: the sums of the reserved amounts after a
-- reservation is made, marked, reconciled or settled.
use grid_bot.Common.{◌≡◌, refl, ap, true, false, Option, none, some, List, String, arith, Memᴰ, All}
use grid_bot.Float.{Float}
use grid_bot.Host.{◌===◌}
use grid_bot.CapitalLedger.Tables.{
  Database, Tables, ReservationStatus, reserved, uncertain, settled, released, EntryRow, BandRow,
  ReservationRow, PortfolioRow, reservation_by_key, entry_by_key, is_uncertain,
}
use grid_bot.CapitalLedger.Allocation.{CapitalInput, allocate_capital, allocate_once}
use grid_bot.CapitalLedger.Reservations.{
  reserve_capital, reserve_in, reserve_once, reserved_row, ReleaseInput, mark_at,
  mark_reservation_unknown, resolve_as, reconcile_once, reconcile_reservation, Resolution,
  release_capital, restore_reserved, set_reservation,
}
use grid_bot.CapitalLedger.Held.{IsHeld, held-new, is_open, update-IsDistinct}
use grid_bot.CapitalLedger.Rules.{Holds, require-Holds, found-Holds, post-Holds, All-update_where}
use grid_bot.CapitalLedger.Balance.{
  Kept, at_id, found_band_id, locate-Holds, same_reserved, closed-sums, open-sums, rows-IsStable,
  freed,
}

module _ {D : Type 0} (s : Database D) (db : Tables D) (h : IsHeld s db) where
  abbrev marked : ReservationStatus → Option String → ReservationRow → ReservationRow
  marked st why q = record q { status = st; unknown_reason = why }

  -- The tables after a change of status that leaves the reservation open.
  stays-IsHeld :
      (r : ReservationRow) (st : ReservationStatus) (why : Option String) (ps : List PortfolioRow)
      (es : List (EntryRow D))
      → Memᴰ r db.reservations
      → is_open r.status ≡ true
      → is_open st ≡ true
      → IsHeld s (record db {
        reservations = set_reservation db r.id st why;
        portfolios = ps;
        entries = es;
      })
  stays-IsHeld r st why ps es m o stays = record {
    sums = open-sums s db h r m o (marked st why) (λ q. refl) (λ q. refl) (λ q. refl) stays;
    distinct =
        update-IsDistinct (λ q. q.id === r.id) (marked st why) (λ q. refl) db.reservations
          h.distinct;
    stable = rows-IsStable s db h r m o (marked st why) (λ q. refl) (λ q. refl) (λ q. refl);
  }

  mark_at-IsHeld :
      (portfolio_id reason : String) (r : ReservationRow)
      → Memᴰ r db.reservations
      → (st : ReservationStatus) → r.status ≡ st
      → Holds (Kept s db) (mark_at s db portfolio_id reason r st)
  mark_at-IsHeld portfolio_id reason r m settled e = tt
  mark_at-IsHeld portfolio_id reason r m released e = tt
  mark_at-IsHeld portfolio_id reason r m uncertain e = h
  mark_at-IsHeld portfolio_id reason r m reserved e =
      post-Holds (Kept s db) _ _ _
        (λ _. stays-IsHeld r uncertain (some reason) _ _ m (ap is_open e) refl)

  pub mark_reservation_unknown-IsHeld :
      (portfolio_id id reason : String)
      → Holds (Kept s db) (mark_reservation_unknown s db portfolio_id id reason)
  unfolding mark_reservation_unknown
  mark_reservation_unknown-IsHeld portfolio_id id reason = require-Holds (Kept s db) _ _ _ (λ _.
      locate-Holds s db (Kept s db) _ _ _
        (λ r m. mark_at-IsHeld portfolio_id reason r m r.status refl))

  uncertain_open : (st : ReservationStatus) → is_uncertain st ≡ true → is_open st ≡ true
  uncertain_open st e = ground arith

  resolve_as-IsHeld :
      (i : ReleaseInput) (r : ReservationRow) (how : Resolution)
      → Memᴰ r db.reservations
      → is_uncertain r.status ≡ true
      → Holds (Kept s db) (resolve_as s db i r how)
  resolve_as-IsHeld i r restore_reserved m e =
      post-Holds (Kept s db) _ _ _
        (λ _. stays-IsHeld r reserved none _ _ m (uncertain_open r.status e) refl)
  resolve_as-IsHeld i r release_capital m e = post-Holds (Kept s db) _ _ _ (λ _. record {
    sums =
        closed-sums s db h r m (uncertain_open r.status e) (marked released none) (λ q. refl)
          (λ q. refl) (λ q. refl) (freed r) r.band_id refl (λ b. refl) (λ b. refl) refl;
    distinct =
        update-IsDistinct (λ q. q.id === r.id) (marked released none) (λ q. refl) db.reservations
          h.distinct;
    stable =
        rows-IsStable s db h r m (uncertain_open r.status e) (marked released none) (λ q. refl)
          (λ q. refl) (λ q. refl);
  })

  reconcile_once-IsHeld :
      (i : ReleaseInput) (how : Resolution) (r : ReservationRow) (o : Option (EntryRow D))
      → Memᴰ r db.reservations
      → Holds (Kept s db) (reconcile_once s db i how r o)
  reconcile_once-IsHeld i how r (some e) m = require-Holds (Kept s db) _ _ _ (λ _. h)
  reconcile_once-IsHeld i how r none m =
      require-Holds (Kept s db) _ _ _ (λ e. resolve_as-IsHeld i r how m e)

  pub reconcile_reservation-IsHeld :
      (i : ReleaseInput) (how : Resolution) → Holds (Kept s db) (reconcile_reservation s db i how)
  unfolding reconcile_reservation
  reconcile_reservation-IsHeld i how = require-Holds (Kept s db) _ _ _ (λ _.
      require-Holds (Kept s db) _ _ _ (λ _. locate-Holds s db (Kept s db) _ _ _ (λ r m.
        reconcile_once-IsHeld i how r (entry_by_key db i.portfolio_id i.idempotency_key) m)))

module _ {D : Type 0} ⦃f : Float D⦄ (s : Database D)
    (law : (x : D) → s.amount (s.value (s.amount x)) ≡ s.amount x) (db : Tables D)
    (h : IsHeld s db) where
  module _ (i : CapitalInput D) (id : String)
      (fresh : All (λ q. (q.id === id) ≡ false) db.reservations) where
    reserve_in-IsHeld :
        (band : BandRow) → band.id ≡ i.band_id → Holds (Kept s db) (reserve_in s db i id band)
    reserve_in-IsHeld band at = require-Holds (Kept s db) _ _ _ (λ _.
        require-Holds (Kept s db) _ _ _ (λ _. post-Holds (Kept s db) _ _ _ (λ _. record {
          sums =
              All-update_where _ _ (λ b. b.id === band.id) _ db.bands
                (λ b e p.
                  (held-new b.id b.reserved_quote_amount (reserved_row s db i id) db.reservations
                      refl p).0
                    (at_id band.id i.band_id b.id at true e))
                (λ b e p.
                  (held-new b.id b.reserved_quote_amount (reserved_row s db i id) db.reservations
                      refl p).1
                    (at_id band.id i.band_id b.id at false e))
                h.sums;
          distinct = (fresh, h.distinct);
          stable = (law i.quote_amount, h.stable);
        })))

    reserve_once-IsHeld : (o : Option ReservationRow) → Holds (Kept s db) (reserve_once s db i id o)
    reserve_once-IsHeld (some r) = require-Holds (Kept s db) _ _ _ (λ _. h)
    reserve_once-IsHeld none = require-Holds (Kept s db) _ _ _ (λ _.
        found-Holds (Kept s db) _ _ _
          (λ band e. reserve_in-IsHeld band (found_band_id s db i.portfolio_id i.band_id band e)))

    pub reserve_capital-IsHeld : Holds (Kept s db) (reserve_capital s db i id)
    unfolding reserve_capital
    reserve_capital-IsHeld = require-Holds (Kept s db) _ _ _ (λ _.
        require-Holds (Kept s db) _ _ _ (λ _. require-Holds (Kept s db) _ _ _ (λ _.
          require-Holds (Kept s db) _ _ _ (λ _.
            require-Holds (Kept s db) _ _ _ (λ _.
              reserve_once-IsHeld (reservation_by_key db i.portfolio_id i.idempotency_key))))))

  allocate_once-IsHeld :
      (i : CapitalInput D) (p : PortfolioRow) (o : Option (EntryRow D))
      → Holds (Kept s db) (allocate_once s db i p o)
  allocate_once-IsHeld i p (some e) = require-Holds (Kept s db) _ _ _ (λ _. h)
  allocate_once-IsHeld i p none = require-Holds (Kept s db) _ _ _ (λ _.
      require-Holds (Kept s db) _ _ _ (λ _. found-Holds (Kept s db) _ _ _ (λ band _.
        require-Holds (Kept s db) _ _ _ (λ _. post-Holds (Kept s db) _ _ _ (λ _. record {
          sums = same_reserved s db h band.id _ (λ b. refl) (λ b. refl);
          distinct = h.distinct;
          stable = h.stable;
        })))))

  pub allocate_capital-IsHeld : (i : CapitalInput D) → Holds (Kept s db) (allocate_capital s db i)
  unfolding allocate_capital
  allocate_capital-IsHeld i = require-Holds (Kept s db) _ _ _ (λ _.
      require-Holds (Kept s db) _ _ _ (λ _. require-Holds (Kept s db) _ _ _ (λ _.
        require-Holds (Kept s db) _ _ _ (λ _.
          found-Holds (Kept s db) _ _ _
            (λ p _. allocate_once-IsHeld i p (entry_by_key db i.portfolio_id i.idempotency_key))))))
