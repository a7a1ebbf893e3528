-- ===== src/CapitalLedger/Allocation.antt =====
-- packages/db/src/repositories/portfolio-repository.ts: free capital is given to a band.
use grid_bot.Common.{
  suc, suc, Bool, true, false, not, ◌&&◌, Option, none, some, List, String, pos, ◌+ℤ◌, ◌-ℤ◌,
}
use grid_bot.Float.{Float, ◌≺◌, ◌≈◌}
use grid_bot.Host.{◌===◌}
use grid_bot.CapitalLedger.Tables.{
  Database, Tables, Outcome, done, missing_text, invalid_number, no_band, no_portfolio, key_reused,
  portfolio_blocked, insufficient_pool, foreign_band, closed_band, EntryType, band_allocation,
  EntryRow, BandRow, PortfolioRow, require, found, update_where, is_closed, has_band,
  find_portfolio, find_band_of, entry_by_key, is_blocked, post, is_positive, entry,
}

-- `ReservePortfolioCapitalInput` and `AllocatePortfolioCapitalInput`
pub record CapitalInput (D : Type 0) : Type 0 where
  pub portfolio_id : String
  pub band_id : String
  pub quote_amount : D
  pub idempotency_key : String
  pub reason : String

abbrev pub is_allocation : EntryType → Bool
is_allocation band_allocation = true
is_allocation _ = false

module _ {D : Type 0} where
  abbrev pub update_band : Tables D → String → (BandRow → BandRow) → List BandRow
  update_band db id g = update_where (λ b. b.id === id) g db.bands

module _ {D : Type 0} ⦃f : Float D⦄ (s : Database D) (db : Tables D) where
  abbrev pub allocate_in : CapitalInput D → BandRow → Outcome D Unit
  allocate_in i band =
      let q = s.amount i.quote_amount in
      require (not (is_closed band.status)) closed_band (
        post
          (record db {
            portfolios =
                update_where (λ p. p.id === i.portfolio_id)
                  (λ p. record p {
                    free_quote_amount = p.free_quote_amount -ℤ q;
                    version = suc p.version;
                  })
                  db.portfolios;
            strategies =
                update_where (λ a. a.id === band.asset_strategy_id)
                  (λ a. record a { allocated_quote_amount = a.allocated_quote_amount +ℤ q })
                  db.strategies;
            bands = update_band db band.id (λ b. record b {
              allocated_quote_amount = b.allocated_quote_amount +ℤ q;
              available_quote_amount = b.available_quote_amount +ℤ q;
            });
          })
          (record (entry band_allocation i.portfolio_id band.id none i.idempotency_key i.reason) {
            portfolio_free_quote_delta = pos 0 -ℤ q;
            strategy_allocated_quote_delta = q;
            band_allocated_quote_delta = q;
            band_available_quote_delta = q;
          })
          tt)

  abbrev pub allocate_once : CapitalInput D → PortfolioRow → Option (EntryRow D) → Outcome D Unit
  allocate_once i p (some e) =
      require
        (is_allocation e.entry_type
          && ((e.band_id === i.band_id) && (s.value e.band_allocated_quote_delta ≈ i.quote_amount)))
        key_reused (done tt db)
  allocate_once i p none = require (not (is_blocked db i.portfolio_id)) portfolio_blocked (
      require (not (s.value p.free_quote_amount ≺ i.quote_amount)) insufficient_pool
        (found (find_band_of db i.portfolio_id i.band_id) foreign_band (allocate_in i)))

  unfoldable pub allocate_capital : CapitalInput D → Outcome D Unit
  unfolding post is_blocked
  allocate_capital i = require (not (s.is_blank i.idempotency_key)) missing_text (
      require (not (s.is_blank i.reason)) missing_text (
        require (is_positive i.quote_amount) invalid_number (
          require (has_band db i.band_id) no_band (
            found (find_portfolio db i.portfolio_id) no_portfolio
              (λ p. allocate_once i p (entry_by_key db i.portfolio_id i.idempotency_key))))))
