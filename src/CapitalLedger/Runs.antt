-- ===== src/CapitalLedger/Runs.antt =====
-- packages/db/src/repositories/portfolio-repository.ts: the transactions of all workers, one after
-- another, as the row locks order them.
use grid_bot.Common.{ℕ, ◌≡◌, false, String, All}
use grid_bot.Float.{Float}
use grid_bot.Host.{◌===◌}
use grid_bot.CapitalLedger.Tables.{Database, Tables, done, ReservationRow, SettlementResult}
use grid_bot.CapitalLedger.Allocation.{CapitalInput, allocate_capital}
use grid_bot.CapitalLedger.Reservations.{
  reserve_capital, ReleaseInput, release_reservation, mark_reservation_unknown,
  reconcile_reservation, Resolution,
}
use grid_bot.CapitalLedger.Fills.{FillInput}
use grid_bot.CapitalLedger.Settlement.{settle_fill}
use grid_bot.CapitalLedger.Audit.{IsAudited}
use grid_bot.CapitalLedger.Audited.{
  Audits, release_reservation-Audits, mark_reservation_unknown-Audits, reconcile_reservation-Audits,
}
use grid_bot.CapitalLedger.AuditedFills.{
  allocate_capital-Audits, reserve_capital-Audits, settle_fill-Audits,
}
use grid_bot.CapitalLedger.Held.{IsHeld}
use grid_bot.CapitalLedger.Rules.{Holds-at}
use grid_bot.CapitalLedger.Balance.{Kept, release_reservation-IsHeld}
use grid_bot.CapitalLedger.Preserved.{
  mark_reservation_unknown-IsHeld, reconcile_reservation-IsHeld, reserve_capital-IsHeld,
  allocate_capital-IsHeld,
}
use grid_bot.CapitalLedger.Settled.{settle_fill-IsHeld}

module _ {D : Type 0} ⦃f : Float D⦄ (s : Database D) where
  -- A transaction that commits. The database gives a new reservation an id that no other has.
  pub data Step (db : Tables D) (db' : Tables D) : Type 0 where
    allocating : (i : CapitalInput D) → allocate_capital s db i ≡ done tt db' → Step db db'
    reserving :
        (i : CapitalInput D) (id : String) (r : ReservationRow)
        → All (λ q. (q.id === id) ≡ false) db.reservations
        → reserve_capital s db i id ≡ done r db'
        → Step db db'
    releasing :
        (i : ReleaseInput) (r : ReservationRow)
        → release_reservation s db i ≡ done r db'
        → Step db db'
    marking :
        (portfolio_id id reason : String) (r : ReservationRow)
        → mark_reservation_unknown s db portfolio_id id reason ≡ done r db'
        → Step db db'
    reconciling :
        (i : ReleaseInput) (how : Resolution) (r : ReservationRow)
        → reconcile_reservation s db i how ≡ done r db'
        → Step db db'
    settling :
        (i : FillInput D) (now : ℕ) (r : SettlementResult D)
        → settle_fill s db i now ≡ done r db'
        → Step db db'

  pub data Run (db : Tables D) : Tables D → Type 0 where
    start : Run db db
    then_step : {db' db'' : Tables D} → Run db db' → Step db' db'' → Run db db''

  Step-IsAudited : (db db' : Tables D) → IsAudited db → Step db db' → IsAudited db'
  Step-IsAudited db db' h (allocating i e) =
      Holds-at (Audits s db h) _ tt db' (allocate_capital-Audits s db h i) e
  Step-IsAudited db db' h (reserving i id r fresh e) =
      Holds-at (Audits s db h) _ r db' (reserve_capital-Audits s db h i id) e
  Step-IsAudited db db' h (releasing i r e) =
      Holds-at (Audits s db h) _ r db' (release_reservation-Audits s db h i) e
  Step-IsAudited db db' h (marking p id why r e) =
      Holds-at (Audits s db h) _ r db' (mark_reservation_unknown-Audits s db h p id why) e
  Step-IsAudited db db' h (reconciling i how r e) =
      Holds-at (Audits s db h) _ r db' (reconcile_reservation-Audits s db h i how) e
  Step-IsAudited db db' h (settling i now r e) =
      Holds-at (Audits s db h) _ r db' (settle_fill-Audits s db h i now) e

  -- Whatever transactions commit, in whatever order: if at the start every band's allocated, available,
  -- reserved and deployed amounts are the sums of the deltas that the ledger has for that band, they
  -- are so at the end.
  pub Run-IsAudited : (db db' : Tables D) → IsAudited db → Run db db' → IsAudited db'
  Run-IsAudited db db' h start = h
  Run-IsAudited db db' h (then_step run step) = Step-IsAudited _ db' (Run-IsAudited db _ h run) step

  module _ (law : (x : D) → s.amount (s.value (s.amount x)) ≡ s.amount x) where
    pub Step-IsHeld : (db db' : Tables D) → IsHeld s db → Step db db' → IsHeld s db'
    Step-IsHeld db db' h (allocating i e) =
        Holds-at (Kept s db) _ tt db' (allocate_capital-IsHeld s law db h i) e
    Step-IsHeld db db' h (reserving i id r fresh e) =
        Holds-at (Kept s db) _ r db' (reserve_capital-IsHeld s law db h i id fresh) e
    Step-IsHeld db db' h (releasing i r e) =
        Holds-at (Kept s db) _ r db' (release_reservation-IsHeld s db h i) e
    Step-IsHeld db db' h (marking p id why r e) =
        Holds-at (Kept s db) _ r db' (mark_reservation_unknown-IsHeld s db h p id why) e
    Step-IsHeld db db' h (reconciling i how r e) =
        Holds-at (Kept s db) _ r db' (reconcile_reservation-IsHeld s db h i how) e
    Step-IsHeld db db' h (settling i now r e) =
        Holds-at (Kept s db) _ r db' (settle_fill-IsHeld s law db h i now) e

    -- Whatever transactions commit, in whatever order: if at the start every band's reserved amount is
    -- the sum of its open reservations, whose ids are distinct, it is so at the end. Amounts are
    -- stored so that reading one as a number and writing it back does not change it.
    pub Run-IsHeld : (db db' : Tables D) → IsHeld s db → Run db db' → IsHeld s db'
    Run-IsHeld db db' h start = h
    Run-IsHeld db db' h (then_step run step) = Step-IsHeld _ db' (Run-IsHeld db _ h run) step
