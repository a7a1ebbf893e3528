-- ===== src/CapitalLedger/Settlement.antt =====
-- packages/db/src/repositories/portfolio-repository.ts: what a fill does to the capital. The fill of a
-- sale returns the principal to the band and sweeps the profit to the portfolio.
use grid_bot.Common.{
  ℕ, suc, Bool, true, false, not, ◌&&◌, Option, none, some, ◌∷◌, pos, ◌+ℤ◌, ◌-ℤ◌, if◌then◌else◌,
  or_else, is_none,
}
use grid_bot.Float.{Float, num, ◌⊕◌, ◌⊖◌, ◌≺◌}
use grid_bot.Host.{◌===◌, ◌<>◌, same_text}
use grid_bot.CapitalLedger.Tables.{
  Database, Tables, Outcome, done, missing_text, invalid_number, no_band, no_portfolio, key_reused,
  duplicate_key, foreign_band, cost_above_deployed, no_commitment, already_fulfilled, EntryType,
  buy_settlement, sell_settlement, profit_sweep, retained_base, EntryRow, BandRow, CommitmentRow,
  SettlementResult, require, found, update_where, has_band, has_portfolio, find_band_of,
  entry_by_key, post, is_positive, is_nonnegative, entry,
}
use grid_bot.CapitalLedger.Allocation.{update_band}
use grid_bot.CapitalLedger.Commitments.{commitment_of}
use grid_bot.CapitalLedger.Fills.{
  SellFill, FillSide, bought, sold, FillInput, external_fee, bought_result, settle_buy,
}

abbrev pub is_settlement : {D : Type 0} → FillSide D → EntryType → Bool
is_settlement (bought _) buy_settlement = true
is_settlement (sold _) sell_settlement = true
is_settlement _ _ = false

module _ {D : Type 0} ⦃f : Float D⦄ (s : Database D) (db : Tables D) (i : FillInput D) where
  abbrev pub gross_excess : SellFill D → D
  gross_excess x = f.max (num 0) (x.net_quote_received ⊖ x.cost_basis_released)

  -- `principalReturnedQuote`, `profitSweptQuote` and `lossRealizedQuote`
  abbrev pub sold_result : SellFill D → SettlementResult D
  sold_result x =
      let profit = f.max (num 0) (gross_excess x ⊖ external_fee s db i) in
      record {
        applied = true;
        principal_returned_quote = f.min x.net_quote_received x.cost_basis_released;
        profit_swept_quote = profit;
        portfolio_credit_quote = profit;
        loss_realized_quote = f.max (num 0) (x.cost_basis_released ⊖ x.net_quote_received);
        retained_base_amount = x.retained_base_amount;
      }

  -- what the sale returns to the band: the principal, and the excess that paid for the fee
  abbrev pub returned : SellFill D → D
  returned x =
      let r = sold_result x in r.principal_returned_quote ⊕ (gross_excess x ⊖ r.profit_swept_quote)

  abbrev pub sold_tables : SellFill D → BandRow → ℕ → Tables D
  sold_tables x band now =
      let r = sold_result x in
      record db {
        bands = update_band db band.id (λ a. record a {
          available_quote_amount = a.available_quote_amount +ℤ s.amount (returned x);
          deployed_cost_quote = a.deployed_cost_quote -ℤ s.amount x.cost_basis_released;
          realized_loss_quote = a.realized_loss_quote +ℤ s.amount r.loss_realized_quote;
        });
        portfolios =
            update_where (λ p. p.id === i.portfolio_id)
              (λ p. record p {
                free_quote_amount = p.free_quote_amount +ℤ s.amount r.profit_swept_quote;
                version = suc p.version;
              })
              db.portfolios;
        strategies =
            if num 0 ≺ x.retained_base_amount
            then update_where (λ a. a.id === band.asset_strategy_id)
                (λ a. record a {
                  retained_base_amount = a.retained_base_amount +ℤ s.amount x.retained_base_amount;
                })
                db.strategies
            else db.strategies;
        commitments =
            if or_else x.lot_closed true
            then update_where (λ c. c.lot_id === x.lot_id)
                (λ c. record c { fulfilled_at = some now }) db.commitments
            else db.commitments;
      }

  abbrev pub sell_entry : SellFill D → BandRow → EntryRow D
  sell_entry x band =
      record (entry sell_settlement i.portfolio_id band.id none i.idempotency_key
        "Atomic sell fill settlement and net profit sweep") {
          execution_id = some i.execution_id;
          band_available_quote_delta = s.amount (returned x);
          band_deployed_cost_delta = pos 0 -ℤ s.amount x.cost_basis_released;
          external_fee_quote_delta = s.amount (external_fee s db i);
          result = some (sold_result x);
        }

  abbrev pub profit_entry : SellFill D → BandRow → EntryRow D
  profit_entry x band =
      record (entry profit_sweep i.portfolio_id band.id none (i.idempotency_key <> ":profit")
        "Net USDC profit attribution (informational split; balance applied by settlement)") {
          execution_id = some i.execution_id;
          portfolio_free_quote_delta = s.amount ((sold_result x).profit_swept_quote);
        }

  abbrev pub retained_entry : SellFill D → BandRow → EntryRow D
  retained_entry x band =
      record (entry retained_base i.portfolio_id band.id none (i.idempotency_key <> ":retained")
        "Base retained separately from trading lots (informational split; balance applied by settlement)") {
          execution_id = some i.execution_id;
          strategy_retained_base_delta = s.amount x.retained_base_amount;
        }

  -- the entries that a sale adds if a test passes
  unfoldable pub post_if :
      Bool
      → Tables D
      → EntryRow D
      → (Tables D → Outcome D (SettlementResult D))
      → Outcome D (SettlementResult D)
  post_if false tables e next = next tables
  post_if true tables e next =
      require (is_none (entry_by_key tables e.portfolio_id e.idempotency_key)) duplicate_key
        (next (record tables { entries = e ∷ tables.entries }))

  abbrev pub settle_lot : SellFill D → BandRow → ℕ → CommitmentRow → Outcome D (SettlementResult D)
  settle_lot x band now c = require (c.band_id === band.id) no_commitment (
      require (is_none c.fulfilled_at) already_fulfilled (
        post_if true (sold_tables x band now) (sell_entry x band) (λ t.
          post_if (num 0 ≺ (sold_result x).profit_swept_quote) t (profit_entry x band) (λ t.
            post_if (num 0 ≺ x.retained_base_amount) t (retained_entry x band)
              (λ t. done (sold_result x) t)))))

  abbrev pub settle_sell : SellFill D → BandRow → ℕ → Outcome D (SettlementResult D)
  settle_sell x band now = require (is_positive x.cost_basis_released) invalid_number (
      require (is_nonnegative x.net_quote_received) invalid_number (
        require (is_nonnegative x.retained_base_amount) invalid_number (
          require (not (s.value band.deployed_cost_quote ⊕ f.decimal 1 8 ≺ x.cost_basis_released))
            cost_above_deployed
            (found (commitment_of db.commitments x.lot_id) no_commitment (settle_lot x band now)))))

  abbrev pub settle_side : FillSide D → BandRow → ℕ → Outcome D (SettlementResult D)
  settle_side (bought b) band now = settle_buy s db i b band
  settle_side (sold x) band now = settle_sell x band now

  -- `settlementResult(prior.metadata, false)`; an entry without metadata reads as zeros
  abbrev pub replayed : Option (SettlementResult D) → SettlementResult D
  replayed (some r) = record r { applied = false }
  replayed none = record (bought_result s) { applied = false }

  abbrev pub settle_once : ℕ → Option (EntryRow D) → Outcome D (SettlementResult D)
  settle_once now (some e) =
      require
        (is_settlement i.side e.entry_type
          && ((e.band_id === i.band_id) && same_text e.execution_id i.execution_id))
        key_reused (done (replayed e.result) db)
  settle_once now none = found (find_band_of db i.portfolio_id i.band_id) foreign_band (λ band.
      require (is_nonnegative (external_fee s db i)) invalid_number (settle_side i.side band now))

  unfoldable pub settle_fill : ℕ → Outcome D (SettlementResult D)
  unfolding post
  settle_fill now = require (not (s.is_blank i.execution_id)) missing_text (
      require (not (s.is_blank i.idempotency_key)) missing_text (
        require (has_band db i.band_id) no_band (
          require (has_portfolio db i.portfolio_id) no_portfolio
            (settle_once now (entry_by_key db i.portfolio_id i.idempotency_key)))))
