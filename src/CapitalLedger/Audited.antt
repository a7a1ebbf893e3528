-- ===== src/CapitalLedger/Audited.antt =====
-- packages/db/src/repositories/portfolio-repository.ts: no transaction changes a balance of a band
-- without an entry for it.
use grid_bot.Common.{
  ◌≡◌, refl, sym, ap, ◌∙◌, Option, none, some, ◌∷◌, String, All, pos, ◌+ℤ◌, ◌-ℤ◌, add_zero,
}
use grid_bot.CapitalLedger.Tables.{
  Database, Tables, ReservationStatus, reserved, uncertain, settled, released, EntryRow, BandRow,
  ReservationRow, entry_by_key,
}
use grid_bot.CapitalLedger.Allocation.{update_band}
use grid_bot.CapitalLedger.Reservations.{
  ReleaseInput, release_open, release_once, release_reservation, mark_at, mark_reservation_unknown,
  resolve_as, reconcile_once, reconcile_reservation, Resolution, release_capital, restore_reserved,
}
use grid_bot.CapitalLedger.Rules.{Holds, require-Holds, post-Holds}
use grid_bot.CapitalLedger.Balance.{locate-Holds, freed}
use grid_bot.CapitalLedger.Audit.{
  Column, allocated, available, held, deployed, balance, delta, IsAudited, IsExplained, post-Audits,
  note-Audits, silent, sub_as_add,
}

module _ {D : Type 0} (s : Database D) (db : Tables D) (h : IsAudited db) where
  abbrev pub Audits : {A : Type 0} → A → Tables D → Type 0
  Audits a db' = IsAudited db'

  freed-Audits :
      (r : ReservationRow) (e : EntryRow D)
      → e.band_id ≡ r.band_id
      → delta allocated e ≡ pos 0
      → delta available e ≡ pos 0
      → delta held e ≡ pos 0 -ℤ r.quote_amount
      → delta deployed e ≡ pos 0
      → All (IsExplained (e ∷ db.entries)) (update_band db r.band_id (freed r))
  freed-Audits r e at a v q d =
      post-Audits db.bands db.entries r.band_id (freed r) e (λ b. refl) at (λ c b. change c b) h
    where
      change : (c : Column) (b : BandRow) → balance c (freed r b) ≡ balance c b +ℤ delta c e
      change allocated b =
          sym (ap (λ x. b.allocated_quote_amount +ℤ x) a ∙ add_zero b.allocated_quote_amount)
      change available b =
          sym (ap (λ x. b.available_quote_amount +ℤ x) v ∙ add_zero b.available_quote_amount)
      change held b =
          sub_as_add b.reserved_quote_amount r.quote_amount
          ∙ sym (ap (λ x. b.reserved_quote_amount +ℤ x) q)
      change deployed b =
          sym (ap (λ x. b.deployed_cost_quote +ℤ x) d ∙ add_zero b.deployed_cost_quote)

  release_open-Audits :
      (i : ReleaseInput) (r : ReservationRow) (st : ReservationStatus)
      → Holds Audits (release_open s db i r st)
  release_open-Audits i r uncertain = tt
  release_open-Audits i r settled = tt
  release_open-Audits i r released = tt
  release_open-Audits i r reserved =
      post-Holds Audits _ _ _ (λ _. freed-Audits r _ refl refl refl refl refl)

  release_once-Audits :
      (i : ReleaseInput) (r : ReservationRow) (o : Option (EntryRow D))
      → Holds Audits (release_once s db i r o)
  release_once-Audits i r (some e) = require-Holds Audits _ _ _ (λ _. h)
  release_once-Audits i r none = release_open-Audits i r r.status

  pub release_reservation-Audits : (i : ReleaseInput) → Holds Audits (release_reservation s db i)
  unfolding release_reservation
  release_reservation-Audits i = require-Holds Audits _ _ _ (λ _. require-Holds Audits _ _ _ (λ _.
      locate-Holds s db Audits _ _ _
        (λ r m. release_once-Audits i r (entry_by_key db i.portfolio_id i.idempotency_key))))

  mark_at-Audits :
      (portfolio_id reason : String) (r : ReservationRow) (st : ReservationStatus)
      → Holds Audits (mark_at s db portfolio_id reason r st)
  mark_at-Audits portfolio_id reason r settled = tt
  mark_at-Audits portfolio_id reason r released = tt
  mark_at-Audits portfolio_id reason r uncertain = h
  mark_at-Audits portfolio_id reason r reserved =
      post-Holds Audits _ _ _
        (λ _. note-Audits db.bands db.entries _ (silent _ refl refl refl refl) h)

  pub mark_reservation_unknown-Audits :
      (portfolio_id id reason : String)
      → Holds Audits (mark_reservation_unknown s db portfolio_id id reason)
  unfolding mark_reservation_unknown
  mark_reservation_unknown-Audits portfolio_id id reason =
      require-Holds Audits _ _ _
        (λ _. locate-Holds s db Audits _ _ _ (λ r m. mark_at-Audits portfolio_id reason r r.status))

  resolve_as-Audits :
      (i : ReleaseInput) (r : ReservationRow) (how : Resolution)
      → Holds Audits (resolve_as s db i r how)
  resolve_as-Audits i r restore_reserved =
      post-Holds Audits _ _ _
        (λ _. note-Audits db.bands db.entries _ (silent _ refl refl refl refl) h)
  resolve_as-Audits i r release_capital =
      post-Holds Audits _ _ _ (λ _. freed-Audits r _ refl refl refl refl refl)

  reconcile_once-Audits :
      (i : ReleaseInput) (how : Resolution) (r : ReservationRow) (o : Option (EntryRow D))
      → Holds Audits (reconcile_once s db i how r o)
  reconcile_once-Audits i how r (some e) = require-Holds Audits _ _ _ (λ _. h)
  reconcile_once-Audits i how r none = require-Holds Audits _ _ _ (λ _. resolve_as-Audits i r how)

  pub reconcile_reservation-Audits :
      (i : ReleaseInput) (how : Resolution) → Holds Audits (reconcile_reservation s db i how)
  unfolding reconcile_reservation
  reconcile_reservation-Audits i how = require-Holds Audits _ _ _ (λ _.
      require-Holds Audits _ _ _ (λ _.
        locate-Holds s db Audits _ _ _ (λ r m.
          reconcile_once-Audits i how r (entry_by_key db i.portfolio_id i.idempotency_key))))
