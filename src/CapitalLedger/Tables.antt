-- ===== src/CapitalLedger/Tables.antt =====
-- packages/db/src/repositories/portfolio-repository.ts and the tables that it writes: rows, lookups
-- and the checks that throw. A transaction runs alone, under its row locks, so it is a function of the
-- tables; what it throws rolls it back, so a refusal has no tables. The rows have the columns that the
-- transactions read or write; a band's bot exists by its foreign key, and the strategy of an entry is
-- that of its band.
use grid_bot.Common.{
  Bool, true, false, not, ◌&&◌, Option, none, some, List, ◌∷◌, String, ℕ, map, find, any, ℤ, pos,
  if◌then◌else◌, is_some, suc,
}
use grid_bot.Float.{Float, num, ◌≼◌, ◌≺◌}
use grid_bot.Host.{◌===◌}
use grid_bot.Domain.{GridBandStatus, ExitTargetStatus, StrategyMode}

-- `Decimal(30, 10)` columns, in units of 10^-10: what a column keeps of a number that is written to
-- it, and the number that is read from it; and `!text.trim()`.
pub record Database (D : Type 0) : Type 0 where
  pub amount : D → ℤ
  pub value : ℤ → D
  pub is_blank : String → Bool

pub data ReservationStatus : Type 0 where
  reserved uncertain settled released : ReservationStatus

pub data EntryType : Type 0 where
  portfolio_funding band_allocation reservation_entry reservation_release : EntryType
  buy_settlement sell_settlement profit_sweep retained_base reconciliation : EntryType

-- what the repository throws
pub data LedgerError : Type 0 where
  missing_text invalid_number no_band no_portfolio key_reused duplicate_key : LedgerError
  portfolio_blocked insufficient_pool foreign_band closed_band inactive_band : LedgerError
  insufficient_band no_reservation foreign_reservation outcome_unknown already_settled : LedgerError
  already_released terminal_reservation not_unknown debit_above_reservation : LedgerError
  cost_above_deployed no_commitment already_fulfilled other_commitment invalid_commitment :
      LedgerError

pub record PortfolioRow : Type 0 where
  pub id : String
  pub free_quote_amount : ℤ
  pub version : ℕ

pub record StrategyRow : Type 0 where
  pub id : String
  pub portfolio_id : String
  pub allocated_quote_amount : ℤ
  pub retained_base_amount : ℤ

pub record BandRow : Type 0 where
  pub id : String
  pub asset_strategy_id : String
  pub status : GridBandStatus
  pub allocated_quote_amount : ℤ
  pub available_quote_amount : ℤ
  pub reserved_quote_amount : ℤ
  pub deployed_cost_quote : ℤ
  pub realized_loss_quote : ℤ

pub record ReservationRow : Type 0 where
  pub id : String
  pub portfolio_id : String
  pub band_id : String
  pub quote_amount : ℤ
  pub status : ReservationStatus
  pub idempotency_key : String
  pub execution_id : Option String
  pub unknown_reason : Option String

-- `metadata` of a settlement entry
pub record SettlementResult (D : Type 0) : Type 0 where
  pub applied : Bool
  pub principal_returned_quote : D
  pub profit_swept_quote : D
  pub portfolio_credit_quote : D
  pub loss_realized_quote : D
  pub retained_base_amount : D

pub record EntryRow (D : Type 0) : Type 0 where
  pub portfolio_id : String
  pub band_id : String
  pub reservation_id : Option String
  pub entry_type : EntryType
  pub idempotency_key : String
  pub execution_id : Option String
  pub portfolio_free_quote_delta : ℤ
  pub strategy_allocated_quote_delta : ℤ
  pub band_allocated_quote_delta : ℤ
  pub band_available_quote_delta : ℤ
  pub band_reserved_quote_delta : ℤ
  pub band_deployed_cost_delta : ℤ
  pub strategy_retained_base_delta : ℤ
  pub external_fee_quote_delta : ℤ
  pub reason : String
  pub result : Option (SettlementResult D)

pub record CommitmentRow : Type 0 where
  pub band_id : String
  pub lot_id : String
  pub target_status : ExitTargetStatus
  pub buy_level_index : Option ℕ
  pub sell_level_index : Option ℕ
  pub buy_target_price : Option ℤ
  pub sell_target_price : Option ℤ
  pub economic_rule : StrategyMode
  pub origin_revision_id : String
  pub max_adverse_drift_bps : ℕ
  pub fulfilled_at : Option ℕ

-- A table is the list of its rows, the latest first.
pub record Tables (D : Type 0) : Type 0 where
  pub portfolios : List PortfolioRow
  pub strategies : List StrategyRow
  pub bands : List BandRow
  pub reservations : List ReservationRow
  pub entries : List (EntryRow D)
  pub commitments : List CommitmentRow

pub data Outcome (D : Type 0) (A : Type 0) : Type 0 where
  done : A → Tables D → Outcome D A
  refused : LedgerError → Outcome D A

module _ {D : Type 0} {A : Type 0} where
  -- `if (!test) throw error`
  unfoldable pub require : Bool → LedgerError → Outcome D A → Outcome D A
  require true error next = next
  require false error next = refused error

  -- a row that must exist
  unfoldable pub found : {B : Type 0} → Option B → LedgerError → (B → Outcome D A) → Outcome D A
  found none error next = refused error
  found (some b) error next = next b

-- `update({ where, data })`
abbrev pub update_where : {A : Type 0} → (A → Bool) → (A → A) → List A → List A
update_where p g rows = map (λ a. if p a then g a else a) rows

abbrev pub is_closed : GridBandStatus → Bool
is_closed GridBandStatus.closed = true
is_closed _ = false

abbrev pub is_uncertain : ReservationStatus → Bool
is_uncertain uncertain = true
is_uncertain _ = false

module _ {D : Type 0} (db : Tables D) where
  abbrev pub has_band : String → Bool
  has_band id = any (λ b. b.id === id) db.bands

  -- `lockBandBot` and `lockPortfolio`: the rows that they lock must exist
  abbrev pub has_portfolio : String → Bool
  has_portfolio id = any (λ p. p.id === id) db.portfolios

  abbrev pub find_portfolio : String → Option PortfolioRow
  find_portfolio id = find (λ p. p.id === id) db.portfolios

  -- `{ id, assetStrategy: { portfolioId } }`
  abbrev pub is_band_of : String → String → BandRow → Bool
  is_band_of portfolio_id id b =
      (b.id === id)
      && any (λ s. (s.id === b.asset_strategy_id) && (s.portfolio_id === portfolio_id))
          db.strategies

  abbrev pub find_band_of : String → String → Option BandRow
  find_band_of portfolio_id id = find (is_band_of portfolio_id id) db.bands

  abbrev pub find_reservation : String → Option ReservationRow
  find_reservation id = find (λ r. r.id === id) db.reservations

  abbrev pub get_reservation : String → String → Option ReservationRow
  get_reservation portfolio_id id =
      find (λ r. (r.id === id) && (r.portfolio_id === portfolio_id)) db.reservations

  abbrev pub reservation_by_key : String → String → Option ReservationRow
  reservation_by_key portfolio_id key =
      find (λ r. (r.portfolio_id === portfolio_id) && (r.idempotency_key === key)) db.reservations

  abbrev pub entry_by_key : String → String → Option (EntryRow D)
  entry_by_key portfolio_id key =
      find (λ e. (e.portfolio_id === portfolio_id) && (e.idempotency_key === key)) db.entries

  -- `assertPortfolioUnblocked`
  unfoldable pub is_blocked : String → Bool
  is_blocked portfolio_id =
      any (λ r. (r.portfolio_id === portfolio_id) && is_uncertain r.status) db.reservations

  abbrev pub with_version : String → List PortfolioRow
  with_version id =
      update_where (λ p. p.id === id) (λ p. record p { version = suc p.version }) db.portfolios

-- The ledger's `create`, at the end of its transaction: its key is unique in the portfolio.
unfoldable pub post : {D A : Type 0} → Tables D → EntryRow D → A → Outcome D A
post db e a =
    if is_some (entry_by_key db e.portfolio_id e.idempotency_key)
    then refused duplicate_key
    else done a (record db { entries = e ∷ db.entries })

module _ {D : Type 0} ⦃f : Float D⦄ where
  abbrev pub is_positive : D → Bool
  is_positive x = f.is_finite x && not (x ≼ num 0)

  abbrev pub is_nonnegative : D → Bool
  is_nonnegative x = f.is_finite x && not (x ≺ num 0)

-- An entry without amounts.
abbrev pub entry :
    {D : Type 0} → EntryType → String → String → Option String → String → String → EntryRow D
entry kind portfolio_id band_id reservation_id key reason = record {
  portfolio_id = portfolio_id;
  band_id = band_id;
  reservation_id = reservation_id;
  entry_type = kind;
  idempotency_key = key;
  execution_id = none;
  portfolio_free_quote_delta = pos 0;
  strategy_allocated_quote_delta = pos 0;
  band_allocated_quote_delta = pos 0;
  band_available_quote_delta = pos 0;
  band_reserved_quote_delta = pos 0;
  band_deployed_cost_delta = pos 0;
  strategy_retained_base_delta = pos 0;
  external_fee_quote_delta = pos 0;
  reason = reason;
  result = none;
}
