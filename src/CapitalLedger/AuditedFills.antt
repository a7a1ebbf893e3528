-- ===== src/CapitalLedger/AuditedFills.antt =====
-- packages/db/src/repositories/portfolio-repository.ts: the entries of allocations, reservations and
-- fills explain what these change.
use grid_bot.Common.{
  ℕ, ◌≡◌, refl, sym, Bool, true, false, Option, none, some, List, ◌∷◌, String, All, ℤ, pos, ◌+ℤ◌,
  add_zero,
}
use grid_bot.Float.{Float}
use grid_bot.CapitalLedger.Tables.{
  Database, Tables, Outcome, ReservationStatus, reserved, uncertain, settled, released, EntryRow,
  BandRow, ReservationRow, CommitmentRow, SettlementResult, PortfolioRow, reservation_by_key,
  entry_by_key,
}
use grid_bot.CapitalLedger.Allocation.{CapitalInput, update_band, allocate_capital, allocate_once}
use grid_bot.CapitalLedger.Reservations.{reserve_capital, reserve_in, reserve_once}
use grid_bot.CapitalLedger.Fills.{
  BuyFill, SellFill, FillSide, bought, sold, FillInput, settle_buy, settle_reservation, buy_entry,
  can_settle,
}
use grid_bot.CapitalLedger.Settlement.{
  settle_fill, settle_once, settle_side, settle_lot, post_if, sell_entry, profit_entry,
  retained_entry,
}
use grid_bot.CapitalLedger.Commitments.{CommitmentInput, upsert_at}
use grid_bot.CapitalLedger.Rules.{Holds, require-Holds, found-Holds, post-Holds}
use grid_bot.CapitalLedger.Audit.{
  Column, allocated, available, held, deployed, balance, delta, IsAudited, IsExplained, post-Audits,
  note-Audits, silent, sub_as_add,
}
use grid_bot.CapitalLedger.Audited.{Audits}

module _ {D : Type 0} ⦃f : Float D⦄ (s : Database D) (db : Tables D) (h : IsAudited db) where
  abbrev Told : {A : Type 0} → A → Tables D → Type 0
  Told = Audits s db h

  -- The change of one band, column by column.
  changed-Audits :
      (id : String) (g : BandRow → BandRow) (e : EntryRow D)
      → ((b : BandRow) → (g b).id ≡ b.id)
      → e.band_id ≡ id
      → ((b : BandRow)
          → (g b).allocated_quote_amount ≡ b.allocated_quote_amount +ℤ e.band_allocated_quote_delta)
      → ((b : BandRow)
          → (g b).available_quote_amount ≡ b.available_quote_amount +ℤ e.band_available_quote_delta)
      → ((b : BandRow)
          → (g b).reserved_quote_amount ≡ b.reserved_quote_amount +ℤ e.band_reserved_quote_delta)
      → ((b : BandRow)
          → (g b).deployed_cost_quote ≡ b.deployed_cost_quote +ℤ e.band_deployed_cost_delta)
      → All (IsExplained (e ∷ db.entries)) (update_band db id g)
  changed-Audits id g e ids at a v q d = post-Audits db.bands db.entries id g e ids at change h
    where
      change : (c : Column) (b : BandRow) → balance c (g b) ≡ balance c b +ℤ delta c e
      change allocated b = a b
      change available b = v b
      change held b = q b
      change deployed b = d b

  same : (x : ℤ) → x ≡ x +ℤ pos 0
  same x = sym (add_zero x)

  reserve_in-Audits :
      (i : CapitalInput D) (id : String) (band : BandRow) → Holds Told (reserve_in s db i id band)
  reserve_in-Audits i id band = require-Holds Told _ _ _ (λ _. require-Holds Told _ _ _ (λ _.
      post-Holds Told _ _ _ (λ _.
        changed-Audits band.id _ _ (λ b. refl) refl (λ b. same _) (λ b. same _) (λ b. refl)
          (λ b. same _))))

  reserve_once-Audits :
      (i : CapitalInput D) (id : String) (o : Option ReservationRow)
      → Holds Told (reserve_once s db i id o)
  reserve_once-Audits i id (some r) = require-Holds Told _ _ _ (λ _. h)
  reserve_once-Audits i id none =
      require-Holds Told _ _ _ (λ _. found-Holds Told _ _ _ (λ band _. reserve_in-Audits i id band))

  pub reserve_capital-Audits :
      (i : CapitalInput D) (id : String) → Holds Told (reserve_capital s db i id)
  unfolding reserve_capital
  reserve_capital-Audits i id = require-Holds Told _ _ _ (λ _. require-Holds Told _ _ _ (λ _.
      require-Holds Told _ _ _ (λ _. require-Holds Told _ _ _ (λ _.
        require-Holds Told _ _ _ (λ _.
          reserve_once-Audits i id (reservation_by_key db i.portfolio_id i.idempotency_key))))))

  allocate_once-Audits :
      (i : CapitalInput D) (p : PortfolioRow) (o : Option (EntryRow D))
      → Holds Told (allocate_once s db i p o)
  allocate_once-Audits i p (some e) = require-Holds Told _ _ _ (λ _. h)
  allocate_once-Audits i p none = require-Holds Told _ _ _ (λ _. require-Holds Told _ _ _ (λ _.
      found-Holds Told _ _ _ (λ band _. require-Holds Told _ _ _ (λ _. post-Holds Told _ _ _ (λ _.
        changed-Audits band.id _ _ (λ b. refl) refl (λ b. refl) (λ b. refl) (λ b. same _)
          (λ b. same _))))))

  pub allocate_capital-Audits : (i : CapitalInput D) → Holds Told (allocate_capital s db i)
  unfolding allocate_capital
  allocate_capital-Audits i = require-Holds Told _ _ _ (λ _. require-Holds Told _ _ _ (λ _.
      require-Holds Told _ _ _ (λ _. require-Holds Told _ _ _ (λ _.
        found-Holds Told _ _ _
          (λ p _. allocate_once-Audits i p (entry_by_key db i.portfolio_id i.idempotency_key))))))

  module _ (i : FillInput D) where
    can_settle-Audits :
        (explicit : Bool) (st : ReservationStatus) (next : Outcome D (SettlementResult D))
        → Holds Told next
        → Holds Told (can_settle s explicit st next)
    can_settle-Audits explicit reserved next k = k
    can_settle-Audits explicit uncertain next k = require-Holds Told _ _ _ (λ _. k)
    can_settle-Audits explicit settled next k = tt
    can_settle-Audits explicit released next k = tt

    upsert_at-Audits :
        (band_id : String) (c : CommitmentInput D) (o : Option CommitmentRow)
        (next : List CommitmentRow → Outcome D (SettlementResult D))
        → ((rows : List CommitmentRow) → Holds Told (next rows))
        → Holds Told (upsert_at s db.commitments band_id c o next)
    upsert_at-Audits band_id c none next k = k _
    upsert_at-Audits band_id c (some e) next k = require-Holds Told _ _ _ (λ _. k _)

    settle_reservation-Audits :
        (b : BuyFill D) (band : BandRow) (r : ReservationRow)
        → Holds Told (settle_reservation s db i b band r)
    settle_reservation-Audits b band r = require-Holds Told _ _ _ (λ _.
        can_settle-Audits _ r.status _ (
          require-Holds Told _ _ _ (λ _. require-Holds Told _ _ _ (λ _.
            upsert_at-Audits band.id b.exit_commitment _ _ (λ rows. post-Holds Told _ _ _ (λ _.
              changed-Audits band.id _ (buy_entry s db i b band r) (λ b. refl) refl (λ b. same _)
                (λ a. sub_as_add _ _) (λ a. sub_as_add _ _) (λ a. refl)))))))

    settle_buy-Audits : (b : BuyFill D) (band : BandRow) → Holds Told (settle_buy s db i b band)
    settle_buy-Audits b band = require-Holds Told _ _ _ (λ _. require-Holds Told _ _ _ (λ _.
        require-Holds Told _ _ _
          (λ _. found-Holds Told _ _ _ (λ r _. settle_reservation-Audits b band r))))

    note_if-Audits :
        (test : Bool) (t : Tables D) (e : EntryRow D)
        (next : Tables D → Outcome D (SettlementResult D))
        → ((c : Column) → delta c e ≡ pos 0)
        → IsAudited t
        → ((t' : Tables D) → IsAudited t' → Holds Told (next t'))
        → Holds Told (post_if s db i test t e next)
    unfolding post_if
    note_if-Audits false t e next z ht k = k t ht
    note_if-Audits true t e next z ht k =
        require-Holds Told _ _ _ (λ _. k _ (note-Audits t.bands t.entries e z ht))

    first_entry-Audits :
        (t : Tables D) (e : EntryRow D) (next : Tables D → Outcome D (SettlementResult D))
        → All (IsExplained (e ∷ t.entries)) t.bands
        → ((t' : Tables D) → IsAudited t' → Holds Told (next t'))
        → Holds Told (post_if s db i true t e next)
    unfolding post_if
    first_entry-Audits t e next ht k = require-Holds Told _ _ _ (λ _. k _ ht)

    settle_lot-Audits :
        (x : SellFill D) (band : BandRow) (now : ℕ) (c : CommitmentRow)
        → Holds Told (settle_lot s db i x band now c)
    settle_lot-Audits x band now c = require-Holds Told _ _ _ (λ _. require-Holds Told _ _ _ (λ _.
        first_entry-Audits _ (sell_entry s db i x band) _
          (changed-Audits band.id _ (sell_entry s db i x band) (λ b. refl) refl (λ b. same _)
            (λ b. refl) (λ b. same _) (λ b. sub_as_add _ _))
          (λ t ht.
            note_if-Audits _ t (profit_entry s db i x band) _ (silent _ refl refl refl refl) ht
              (λ t ht.
                note_if-Audits _ t (retained_entry s db i x band) _ (silent _ refl refl refl refl)
                  ht (λ t ht. ht)))))

    settle_side-Audits :
        (side : FillSide D) (band : BandRow) (now : ℕ)
        → Holds Told (settle_side s db i side band now)
    settle_side-Audits (bought b) band now = settle_buy-Audits b band
    settle_side-Audits (sold x) band now = require-Holds Told _ _ _ (λ _.
        require-Holds Told _ _ _ (λ _. require-Holds Told _ _ _ (λ _.
          require-Holds Told _ _ _
            (λ _. found-Holds Told _ _ _ (λ c _. settle_lot-Audits x band now c)))))

    settle_once-Audits : (now : ℕ) (o : Option (EntryRow D)) → Holds Told (settle_once s db i now o)
    settle_once-Audits now (some e) = require-Holds Told _ _ _ (λ _. h)
    settle_once-Audits now none =
        found-Holds Told _ _ _
          (λ band _. require-Holds Told _ _ _ (λ _. settle_side-Audits i.side band now))

    pub settle_fill-Audits : (now : ℕ) → Holds Told (settle_fill s db i now)
    unfolding settle_fill
    settle_fill-Audits now = require-Holds Told _ _ _ (λ _. require-Holds Told _ _ _ (λ _.
        require-Holds Told _ _ _ (λ _.
          require-Holds Told _ _ _
            (λ _. settle_once-Audits now (entry_by_key db i.portfolio_id i.idempotency_key)))))
