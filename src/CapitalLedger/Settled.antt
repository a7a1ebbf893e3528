-- ===== src/CapitalLedger/Settled.antt =====
-- packages/db/src/repositories/portfolio-repository.ts: the sums of the reserved amounts after a fill.
use grid_bot.Common.{
  ℕ, ◌≡◌, refl, sym, ap, Bool, true, false, Option, none, some, List, String, Memᴰ, All-at, eq_iff,
  ◌-ℤ◌,
}
use grid_bot.Float.{Float}
use grid_bot.Host.{◌===◌}
use grid_bot.CapitalLedger.Tables.{
  Database, Tables, Outcome, ReservationStatus, reserved, uncertain, settled, released, EntryRow,
  BandRow, ReservationRow, CommitmentRow, SettlementResult, entry_by_key,
}
use grid_bot.CapitalLedger.Fills.{
  BuyFill, SellFill, FillSide, bought, sold, FillInput, settle_buy, settle_reservation, can_settle,
}
use grid_bot.CapitalLedger.Settlement.{
  settle_fill, settle_once, settle_side, settle_lot, post_if, sold_tables,
}
use grid_bot.CapitalLedger.Commitments.{CommitmentInput, upsert_at}
use grid_bot.CapitalLedger.Held.{IsHeld, is_open, update-IsDistinct}
use grid_bot.CapitalLedger.Rules.{Holds, require-Holds, found-Holds, post-Holds}
use grid_bot.CapitalLedger.Balance.{
  Kept, found_reservation, same_reserved, closed-sums, rows-IsStable,
}

module _ {D : Type 0} ⦃f : Float D⦄ (s : Database D)
    (law : (x : D) → s.amount (s.value (s.amount x)) ≡ s.amount x) (db : Tables D)
    (h : IsHeld s db) where
  module _ (i : FillInput D) where
    abbrev settled_row : ReservationRow → ReservationRow
    settled_row q = record q {
      status = settled;
      execution_id = some i.execution_id;
      unknown_reason = none;
    }

    can_settle-IsHeld :
        (explicit : Bool) (st : ReservationStatus) (next : Outcome D (SettlementResult D))
        → (is_open st ≡ true → Holds (Kept s db) next)
        → Holds (Kept s db) (can_settle s explicit st next)
    can_settle-IsHeld explicit reserved next k = k refl
    can_settle-IsHeld explicit uncertain next k = require-Holds (Kept s db) _ _ _ (λ _. k refl)
    can_settle-IsHeld explicit settled next k = tt
    can_settle-IsHeld explicit released next k = tt

    upsert_at-IsHeld :
        (band_id : String) (c : CommitmentInput D) (o : Option CommitmentRow)
        (next : List CommitmentRow → Outcome D (SettlementResult D))
        → ((rows : List CommitmentRow) → Holds (Kept s db) (next rows))
        → Holds (Kept s db) (upsert_at s db.commitments band_id c o next)
    upsert_at-IsHeld band_id c none next k = k _
    upsert_at-IsHeld band_id c (some e) next k = require-Holds (Kept s db) _ _ _ (λ _. k _)

    settle_reservation-IsHeld :
        (b : BuyFill D) (band : BandRow) (r : ReservationRow)
        → Memᴰ r db.reservations
        → Holds (Kept s db) (settle_reservation s db i b band r)
    settle_reservation-IsHeld b band r m = require-Holds (Kept s db) _ _ _ (λ same.
        can_settle-IsHeld _ r.status _ (λ o. require-Holds (Kept s db) _ _ _ (λ _.
          require-Holds (Kept s db) _ _ _ (λ _.
            upsert_at-IsHeld band.id b.exit_commitment _ _ (λ rows.
              post-Holds (Kept s db) _ _ _ (λ _. record {
                sums =
                    closed-sums s db h r m o settled_row (λ q. refl) (λ q. refl) (λ q. refl) _
                      band.id (sym ((eq_iff r.band_id band.id).0 same)) (λ a. refl)
                      (λ a.
                        ap (λ x. a.reserved_quote_amount -ℤ x)
                          (All-at _ db.reservations r h.stable m))
                      refl;
                distinct =
                    update-IsDistinct (λ q. q.id === r.id) settled_row (λ q. refl) db.reservations
                      h.distinct;
                stable = rows-IsStable s db h r m o settled_row (λ q. refl) (λ q. refl) (λ q. refl);
              }))))))

    settle_buy-IsHeld :
        (b : BuyFill D) (band : BandRow) → Holds (Kept s db) (settle_buy s db i b band)
    settle_buy-IsHeld b band = require-Holds (Kept s db) _ _ _ (λ _.
        require-Holds (Kept s db) _ _ _ (λ _. require-Holds (Kept s db) _ _ _ (λ _.
          found-Holds (Kept s db) _ _ _ (λ r e.
            settle_reservation-IsHeld b band r
              (found_reservation s db i.portfolio_id b.reservation_id r e)))))

    post_if-IsHeld :
        (test : Bool) (t : Tables D) (e : EntryRow D)
        (next : Tables D → Outcome D (SettlementResult D))
        → IsHeld s t
        → ((t' : Tables D) → IsHeld s t' → Holds (Kept s db) (next t'))
        → Holds (Kept s db) (post_if s db i test t e next)
    unfolding post_if
    post_if-IsHeld false t e next ht k = k t ht
    post_if-IsHeld true t e next ht k =
        require-Holds (Kept s db) _ _ _
          (λ _. k _ (record { sums = ht.sums; distinct = ht.distinct; stable = ht.stable }))

    sold_tables-IsHeld :
        (x : SellFill D) (band : BandRow) (now : ℕ) → IsHeld s (sold_tables s db i x band now)
    sold_tables-IsHeld x band now = record {
      sums = same_reserved s db h band.id _ (λ b. refl) (λ b. refl);
      distinct = h.distinct;
      stable = h.stable;
    }

    settle_lot-IsHeld :
        (x : SellFill D) (band : BandRow) (now : ℕ) (c : CommitmentRow)
        → Holds (Kept s db) (settle_lot s db i x band now c)
    settle_lot-IsHeld x band now c = require-Holds (Kept s db) _ _ _ (λ _.
        require-Holds (Kept s db) _ _ _ (λ _.
          post_if-IsHeld _ _ _ _ (sold_tables-IsHeld x band now)
            (λ t ht. post_if-IsHeld _ _ _ _ ht (λ t ht. post_if-IsHeld _ _ _ _ ht (λ t ht. ht)))))

    settle_side-IsHeld :
        (side : FillSide D) (band : BandRow) (now : ℕ)
        → Holds (Kept s db) (settle_side s db i side band now)
    settle_side-IsHeld (bought b) band now = settle_buy-IsHeld b band
    settle_side-IsHeld (sold x) band now = require-Holds (Kept s db) _ _ _ (λ _.
        require-Holds (Kept s db) _ _ _ (λ _. require-Holds (Kept s db) _ _ _ (λ _.
          require-Holds (Kept s db) _ _ _
            (λ _. found-Holds (Kept s db) _ _ _ (λ c _. settle_lot-IsHeld x band now c)))))

    settle_once-IsHeld :
        (now : ℕ) (o : Option (EntryRow D)) → Holds (Kept s db) (settle_once s db i now o)
    settle_once-IsHeld now (some e) = require-Holds (Kept s db) _ _ _ (λ _. h)
    settle_once-IsHeld now none =
        found-Holds (Kept s db) _ _ _
          (λ band _. require-Holds (Kept s db) _ _ _ (λ _. settle_side-IsHeld i.side band now))

    pub settle_fill-IsHeld : (now : ℕ) → Holds (Kept s db) (settle_fill s db i now)
    unfolding settle_fill
    settle_fill-IsHeld now = require-Holds (Kept s db) _ _ _ (λ _.
        require-Holds (Kept s db) _ _ _ (λ _. require-Holds (Kept s db) _ _ _ (λ _.
          require-Holds (Kept s db) _ _ _
            (λ _. settle_once-IsHeld now (entry_by_key db i.portfolio_id i.idempotency_key)))))
