-- ===== src/CapitalLedger/Balance.antt =====
-- packages/db/src/repositories/portfolio-repository.ts: no transaction breaks the sums of what is
-- reserved at the bands.
use grid_bot.Common.{
  ◌≡◌, refl, sym, ap, subst, ◌∙◌, Bool, true, false, Option, none, some, List, String, Memᴰ, All,
  All-mono, find-Mem, find-holds, eq_iff, ◌-ℤ◌, and-left,
}
use grid_bot.Host.{◌===◌}
use grid_bot.CapitalLedger.Tables.{
  Database, Tables, Outcome, ReservationStatus, reserved, uncertain, settled, released, EntryRow,
  BandRow, ReservationRow, update_where, find_band_of, is_band_of, get_reservation, entry_by_key,
}
use grid_bot.CapitalLedger.Allocation.{update_band}
use grid_bot.CapitalLedger.Reservations.{
  ReleaseInput, release_open, release_once, release_reservation, locate,
}
use grid_bot.CapitalLedger.Held.{held, IsHeld, held-close, held-stay, is_open, update-IsDistinct}
use grid_bot.CapitalLedger.Rules.{Holds, require-Holds, found-Holds, post-Holds, All-update_where}

abbrev pub freed : ReservationRow → BandRow → BandRow
freed r b = record b { reserved_quote_amount = b.reserved_quote_amount -ℤ r.quote_amount }

-- The ids of two rows that one test finds.
pub at_id : (a b c : String) → a ≡ b → (test : Bool) → (c === a) ≡ test → (c === b) ≡ test
at_id a b c e test h = subst (λ x. (c === x) ≡ test) e h

module _ {D : Type 0} (s : Database D) (db : Tables D) where
  pub found_band_id :
      (portfolio_id id : String) (band : BandRow)
      → find_band_of db portfolio_id id ≡ some band
      → band.id ≡ id
  found_band_id portfolio_id id band e =
      (eq_iff band.id id).0
        (and-left _ _ (find-holds (is_band_of db portfolio_id id) db.bands band e))

  pub found_reservation :
      (portfolio_id id : String) (r : ReservationRow)
      → get_reservation db portfolio_id id ≡ some r
      → Memᴰ r db.reservations
  found_reservation portfolio_id id r e = find-Mem _ db.reservations r e

  abbrev pub Kept : {A : Type 0} → A → Tables D → Type 0
  Kept a db' = IsHeld s db'

  pub locate-Holds :
      (P : ReservationRow → Tables D → Type 0) (portfolio_id id : String)
      (next : ReservationRow → Outcome D ReservationRow)
      → ((r : ReservationRow) → Memᴰ r db.reservations → Holds P (next r))
      → Holds P (locate db portfolio_id id next)
  locate-Holds P portfolio_id id next h = found-Holds P _ _ _ (λ _ _. require-Holds P _ _ _ (λ _.
      require-Holds P _ _ _
        (λ _. found-Holds P _ _ _ (λ r e. h r (found_reservation portfolio_id id r e)))))

  module _ (h : IsHeld s db) where
    -- A transaction that only changes what a band has besides its reserved amount.
    pub same_reserved :
        (id : String) (g : BandRow → BandRow)
        → ((b : BandRow) → (g b).id ≡ b.id)
        → ((b : BandRow) → (g b).reserved_quote_amount ≡ b.reserved_quote_amount)
        → All (λ b. b.reserved_quote_amount ≡ held b.id db.reservations) (update_band db id g)
    same_reserved id g ids amounts =
        All-update_where _ _ (λ b. b.id === id) g db.bands
          (λ b e p. amounts b ∙ p ∙ ap (λ x. held x db.reservations) (sym (ids b))) (λ b e p. p)
          h.sums

    module _ (r : ReservationRow) (m : Memᴰ r db.reservations) (o : is_open r.status ≡ true)
        (g : ReservationRow → ReservationRow) (ids : (q : ReservationRow) → (g q).id ≡ q.id)
        (bands : (q : ReservationRow) → (g q).band_id ≡ q.band_id)
        (amounts : (q : ReservationRow) → (g q).quote_amount ≡ q.quote_amount) where
      abbrev pub rows : List ReservationRow
      rows = update_where (λ q. q.id === r.id) g db.reservations

      pub rows-IsStable : All (λ q. s.amount (s.value q.quote_amount) ≡ q.quote_amount) rows
      rows-IsStable =
          All-update_where _ _ _ g db.reservations
            (λ q e p. ap (λ x. s.amount (s.value x)) (amounts q) ∙ p ∙ sym (amounts q)) (λ q e p. p)
            h.stable

      -- Closing a reservation takes its amount off the band.
      pub closed-sums :
          (u : BandRow → BandRow) (id : String)
          → id ≡ r.band_id
          → ((b : BandRow) → (u b).id ≡ b.id)
          → ((b : BandRow)
              → (u b).reserved_quote_amount ≡ b.reserved_quote_amount -ℤ r.quote_amount)
          → is_open (g r).status ≡ false
          → All (λ b. b.reserved_quote_amount ≡ held b.id rows) (update_band db id u)
      closed-sums u id at band_ids falls closes =
          All-update_where _ _ (λ b. b.id === id) u db.bands
            (λ b e p.
              falls b
              ∙ (held-close r g db.reservations h.distinct m o (bands r) b.id
                    b.reserved_quote_amount closes p).0
                  (at_id id r.band_id b.id at true e)
              ∙ ap (λ x. held x rows) (sym (band_ids b)))
            (λ b e p.
              (held-close r g db.reservations h.distinct m o (bands r) b.id b.reserved_quote_amount
                  closes p).1
                (at_id id r.band_id b.id at false e))
            h.sums

      -- Keeping it open keeps the sums.
      pub open-sums :
          is_open (g r).status ≡ true → All (λ b. b.reserved_quote_amount ≡ held b.id rows) db.bands
      open-sums stays =
          All-mono _ _ db.bands
            (λ b p.
              p
              ∙ sym (held-stay r g db.reservations h.distinct m o (bands r) b.id stays (amounts r)))
            h.sums

    release_open-IsHeld :
        (i : ReleaseInput) (r : ReservationRow)
        → Memᴰ r db.reservations
        → (st : ReservationStatus) → r.status ≡ st
        → Holds Kept (release_open s db i r st)
    release_open-IsHeld i r m uncertain e = tt
    release_open-IsHeld i r m settled e = tt
    release_open-IsHeld i r m released e = tt
    release_open-IsHeld i r m reserved e = post-Holds Kept _ _ _ (λ _. record {
      sums =
          closed-sums r m (ap is_open e) (λ q. record q { status = released }) (λ q. refl)
            (λ q. refl) (λ q. refl) (freed r) r.band_id refl (λ b. refl) (λ b. refl) refl;
      distinct =
          update-IsDistinct (λ q. q.id === r.id) (λ q. record q { status = released }) (λ q. refl)
            db.reservations h.distinct;
      stable =
          rows-IsStable r m (ap is_open e) (λ q. record q { status = released }) (λ q. refl)
            (λ q. refl) (λ q. refl);
    })

    release_once-IsHeld :
        (i : ReleaseInput) (r : ReservationRow)
        → Memᴰ r db.reservations
        → (o : Option (EntryRow D)) → Holds Kept (release_once s db i r o)
    release_once-IsHeld i r m (some e) = require-Holds Kept _ _ _ (λ _. h)
    release_once-IsHeld i r m none = release_open-IsHeld i r m r.status refl

    pub release_reservation-IsHeld : (i : ReleaseInput) → Holds Kept (release_reservation s db i)
    unfolding release_reservation
    release_reservation-IsHeld i = require-Holds Kept _ _ _ (λ _. require-Holds Kept _ _ _ (λ _.
        locate-Holds Kept _ _ _
          (λ r m. release_once-IsHeld i r m (entry_by_key db i.portfolio_id i.idempotency_key))))
