-- ===== src/CapitalLedger/Commitments.antt =====
-- packages/db/src/repositories/portfolio-repository.ts: the exit that a bought lot promises. It is
-- written once, and a second write must name the same terms.
use grid_bot.Common.{
  ℕ, Bool, true, false, not, ◌&&◌, ◌||◌, Option, none, some, List, ◌∷◌, String, ℤ, if◌then◌else◌,
  find, is_some, ◌==◌,
}
use grid_bot.Float.{Float, ◌≈◌}
use grid_bot.Host.{◌===◌}
use grid_bot.Domain.{ExitTargetStatus, is_known, same_strategy, StrategyMode}
use grid_bot.CapitalLedger.Tables.{
  Database, Outcome, other_commitment, invalid_commitment, CommitmentRow, SettlementResult, require,
  is_positive,
}

-- `ExitCommitmentInput`; level indices and the drift are whole numbers here
pub record CommitmentInput (D : Type 0) : Type 0 where
  pub lot_id : String
  pub target_status : ExitTargetStatus
  pub buy_level_index : Option ℕ
  pub sell_level_index : Option ℕ
  pub buy_target_price : Option D
  pub sell_target_price : Option D
  pub economic_rule : StrategyMode
  pub origin_revision_id : String
  pub max_adverse_drift_bps : ℕ

abbrev pub same_index : Option ℕ → Option ℕ → Bool
same_index none none = true
same_index (some a) (some b) = a == b
same_index _ _ = false

abbrev pub same_target : ExitTargetStatus → ExitTargetStatus → Bool
same_target a b = if is_known a then is_known b else not (is_known b)

abbrev pub commitment_of : List CommitmentRow → String → Option CommitmentRow
commitment_of rows lot_id = find (λ c. c.lot_id === lot_id) rows

module _ {D : Type 0} ⦃f : Float D⦄ (s : Database D) where
  -- a price against the column that holds it
  abbrev pub same_price : Option ℤ → Option D → Bool
  same_price none none = true
  same_price (some a) (some b) = s.value a ≈ b
  same_price _ _ = false

  abbrev pub is_price : Option D → Bool
  is_price none = false
  is_price (some x) = is_positive x

  abbrev pub is_valid_commitment : CommitmentInput D → Bool
  is_valid_commitment c =
      not (s.is_blank c.lot_id)
      && (not (is_known c.target_status)
          || ((is_some c.buy_level_index && is_some c.sell_level_index)
              && (is_price c.buy_target_price && is_price c.sell_target_price)))

  abbrev pub price_column : Option D → Option ℤ
  price_column none = none
  price_column (some x) = some (s.amount x)

  abbrev pub committed_row : String → CommitmentInput D → CommitmentRow
  committed_row band_id c = record {
    band_id = band_id;
    lot_id = c.lot_id;
    target_status = c.target_status;
    buy_level_index = c.buy_level_index;
    sell_level_index = c.sell_level_index;
    buy_target_price = price_column c.buy_target_price;
    sell_target_price = price_column c.sell_target_price;
    economic_rule = c.economic_rule;
    origin_revision_id = c.origin_revision_id;
    max_adverse_drift_bps = c.max_adverse_drift_bps;
    fulfilled_at = none;
  }

  abbrev pub is_same_commitment : String → CommitmentInput D → CommitmentRow → Bool
  is_same_commitment band_id c e =
      (e.band_id === band_id)
      && (same_target e.target_status c.target_status
          && (same_index e.buy_level_index c.buy_level_index
              && (same_index e.sell_level_index c.sell_level_index
                  && (same_price e.buy_target_price c.buy_target_price
                      && (same_price e.sell_target_price c.sell_target_price
                          && (same_strategy e.economic_rule c.economic_rule
                              && ((e.origin_revision_id === c.origin_revision_id)
                                  && (e.max_adverse_drift_bps == c.max_adverse_drift_bps))))))))

  abbrev pub upsert_at :
      List CommitmentRow
      → String
      → CommitmentInput D
      → Option CommitmentRow
      → (List CommitmentRow → Outcome D (SettlementResult D))
      → Outcome D (SettlementResult D)
  upsert_at rows band_id c none next = next (committed_row band_id c ∷ rows)
  upsert_at rows band_id c (some e) next =
      require (is_same_commitment band_id c e) other_commitment (next rows)

  -- `upsertLotExitCommitmentInTransaction`: the table that the rest of the transaction sees
  abbrev pub upsert_commitment :
      List CommitmentRow
      → String
      → CommitmentInput D
      → (List CommitmentRow → Outcome D (SettlementResult D))
      → Outcome D (SettlementResult D)
  upsert_commitment rows band_id c next =
      require (is_valid_commitment c) invalid_commitment
        (upsert_at rows band_id c (commitment_of rows c.lot_id) next)
