-- ===== src/CapitalLedger/Guards.antt =====
-- packages/db/src/repositories/portfolio-repository.ts: what a reservation that is granted says, and
-- which transactions never commit.
use grid_bot.Common.{
  false≢true, ◌≡◌, ◌≢◌, refl, sym, ap, subst, ◌∙◌, true, false, Option, none, some, ◌∷◌, String,
  arith, ◌⊎◌, inl, inr, some-injective, is_some, eq_iff, and-left, and-right,
}
use grid_bot.Float.{Float, ◌⊖◌, ◌≺◌, ◌≈◌}
use grid_bot.Host.{◌<>◌}
use grid_bot.Domain.{is_active}
use grid_bot.CapitalLedger.Tables.{
  Database, Tables, Outcome, done, ReservationStatus, reserved, uncertain, settled, released,
  BandRow, ReservationRow, is_blocked, find_band_of, get_reservation, reservation_by_key,
  entry_by_key, is_uncertain,
}
use grid_bot.CapitalLedger.Allocation.{CapitalInput}
use grid_bot.CapitalLedger.Reservations.{
  reserve_capital, reserve_once, mark_at, mark_reservation_unknown, locate,
}
use grid_bot.CapitalLedger.Rules.{Holds, Holds-at, require-Holds, found-Holds, post-Holds}

module _ {D : Type 0} ⦃f : Float D⦄ (s : Database D) (db : Tables D) (i : CapitalInput D) where
  -- A reservation that is made now.
  pub record IsGranted (r : ReservationRow) (db' : Tables D) : Type 0 where
    pub band : BandRow
    pub in_portfolio : find_band_of db i.portfolio_id i.band_id ≡ some band
    pub active : is_active band.status ≡ true
    pub unblocked : is_blocked db i.portfolio_id ≡ false
    pub covered :
        (s.value band.available_quote_amount ⊖ s.value band.reserved_quote_amount ≺ i.quote_amount)
        ≡ false
    pub is_new : reservation_by_key db i.portfolio_id i.idempotency_key ≡ none
    pub posted : is_some (entry_by_key db i.portfolio_id i.idempotency_key) ≡ false
    pub rows : db'.reservations ≡ r ∷ db.reservations
    pub waits : r.status ≡ reserved

  -- A reservation that an earlier request with the same key has made.
  pub record IsReplayed (r : ReservationRow) (db' : Tables D) : Type 0 where
    pub earlier : reservation_by_key db i.portfolio_id i.idempotency_key ≡ some r
    pub same_band : r.band_id ≡ i.band_id
    pub same_amount : (s.value r.quote_amount ≈ i.quote_amount) ≡ true
    pub untouched : db' ≡ db

  abbrev pub Answer : ReservationRow → Tables D → Type 0
  Answer r db' = IsGranted r db' ⊎ IsReplayed r db'

  reserve_once-answers :
      (id : String) (o : Option ReservationRow)
      → reservation_by_key db i.portfolio_id i.idempotency_key ≡ o
      → Holds Answer (reserve_once s db i id o)
  reserve_once-answers id (some r) e = require-Holds Answer _ _ _ (λ t. inr (record {
    earlier = e;
    same_band = (eq_iff r.band_id i.band_id).0 (and-left _ _ t);
    same_amount = and-right _ _ t;
    untouched = refl;
  }))
  reserve_once-answers id none e = require-Holds Answer _ _ _ (λ b.
      found-Holds Answer _ _ _ (λ band at. require-Holds Answer _ _ _ (λ a.
        require-Holds Answer _ _ _ (λ c. post-Holds Answer _ _ _ (λ p. inl (record {
          band = band;
          in_portfolio = at;
          active = a;
          unblocked = ground arith;
          covered = ground arith;
          is_new = e;
          posted = p;
          rows = refl;
          waits = refl;
        }))))))

  -- A request for capital that commits either makes a reservation, and then its band is an active one
  -- of the portfolio, no reservation of the portfolio is unknown, the key is new and the band's
  -- available amount less its reserved amount covers the request; or it returns the reservation that
  -- the same request has made before, and changes nothing.
  pub reserve_capital-answers : (id : String) → Holds Answer (reserve_capital s db i id)
  unfolding reserve_capital
  reserve_capital-answers id = require-Holds Answer _ _ _ (λ _. require-Holds Answer _ _ _ (λ _.
      require-Holds Answer _ _ _ (λ _. require-Holds Answer _ _ _ (λ _.
        require-Holds Answer _ _ _ (λ _.
          reserve_once-answers id (reservation_by_key db i.portfolio_id i.idempotency_key) refl)))))

module _ {D : Type 0} (s : Database D) (db : Tables D) where
  abbrev Never : ReservationRow → Tables D → Type 0
  Never r db' = false ≡ true

  mark_at-Never :
      (portfolio_id reason : String) (r : ReservationRow) (st : ReservationStatus)
      → st ≡ reserved
      → is_some (entry_by_key db portfolio_id ("reservation-unknown:" <> r.id)) ≡ true
      → Holds Never (mark_at s db portfolio_id reason r st)
  mark_at-Never portfolio_id reason r uncertain e t = sym (ap is_uncertain e)
  mark_at-Never portfolio_id reason r settled e t = tt
  mark_at-Never portfolio_id reason r released e t = tt
  mark_at-Never portfolio_id reason r reserved e t = post-Holds Never _ _ _ (λ p. sym p ∙ t)

  locate-Never :
      (portfolio_id id : String) (r : ReservationRow)
      (next : ReservationRow → Outcome D ReservationRow)
      → get_reservation db portfolio_id id ≡ some r
      → Holds Never (next r)
      → Holds Never (locate db portfolio_id id next)
  locate-Never portfolio_id id r next at h = found-Holds Never _ _ _ (λ _ _.
      require-Holds Never _ _ _ (λ _. require-Holds Never _ _ _ (λ _.
        found-Holds Never _ _ _
          (λ q e. subst (λ y. Holds Never (next y)) (some-injective _ _ (sym at ∙ e)) h))))

  -- A reservation is marked unknown at most once: when it is reserved and the ledger has the entry of
  -- an earlier marking, as after a reconciliation that restored it, marking it never commits.
  pub mark_reservation_unknown-once :
      (portfolio_id id reason : String) (r x : ReservationRow) (db' : Tables D)
      → get_reservation db portfolio_id id ≡ some r
      → r.status ≡ reserved
      → is_some (entry_by_key db portfolio_id ("reservation-unknown:" <> r.id)) ≡ true
      → mark_reservation_unknown s db portfolio_id id reason ≢ done x db'
  unfolding mark_reservation_unknown
  mark_reservation_unknown-once portfolio_id id reason r x db' at st posted e = false≢true (
      Holds-at Never _ x db'
        (require-Holds Never _ _ _ (λ _.
          locate-Never portfolio_id id r _ at
            (mark_at-Never portfolio_id reason r r.status st posted)))
        e)
