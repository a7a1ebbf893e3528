-- ===== src/Execution/Records.antt =====
-- packages/core/src/adapters/paper-execution-adapter.ts: an order, its estimate and its report.
use grid_bot.Common.{◌≡◌, refl, false, Option, none, some, String, ◌⊎◌, inl, inr, eq_refl}
use grid_bot.Float.{Float}
use grid_bot.Host.{◌===◌}
use grid_bot.Domain.{ExecutionEstimate, ExecutionReport, ExecuteSwapParams}
use grid_bot.Execution.Adapter.{ExecutionError, resolved, rejected}
use grid_bot.Execution.Paper.{
  Reports, PaperFill, calculate_execution, execute_swap, estimate_execution, get_execution_report,
  execution_id_of, estimate_of, report_of, lookup_report, answer_swap, answer_estimate,
}

module _ {D : Type 0} ⦃f : Float D⦄ where
  -- A paper order that is executed can be looked up by the id of its report, whatever orders are
  -- executed before it, and every other report stays as it was. An order that is not executed changes
  -- no report.
  pub execute_swap-recorded :
      (at : String) (p : ExecuteSwapParams D) (w : Reports D)
      → ((r : ExecutionReport D) × (w' : Reports D) × (execute_swap at p w ≡ resolved r w')
          × (get_execution_report r.execution_id w' ≡ resolved (some r) w')
          × ((id : String)
              → (r.execution_id === id) ≡ false
              → lookup_report id w' ≡ lookup_report id w))
        ⊎ ((e : ExecutionError) × (execute_swap at p w ≡ rejected e w))
  unfolding execute_swap get_execution_report
  execute_swap-recorded at p w = by_fill (calculate_execution p p.reference_price)
    where
      by_fill :
          (o : Option (PaperFill D))
          → ((r : ExecutionReport D) × (w' : Reports D) × (answer_swap at p o w ≡ resolved r w')
              × (resolved (lookup_report r.execution_id w') w' ≡ resolved (some r) w')
              × ((id : String)
                  → (r.execution_id === id) ≡ false
                  → lookup_report id w' ≡ lookup_report id w))
            ⊎ ((e : ExecutionError) × (answer_swap at p o w ≡ rejected e w))
      by_fill none = inr (_, refl)
      by_fill (some x) =
          inl (report_of at p x, _, refl, rw (eq_refl (execution_id_of p)) refl, λ id e. rw e refl)

  -- What the paper adapter estimates of an order is what its execution then reports: the amount that
  -- comes out, the fee and the price. Both fail for the same orders.
  pub estimate_execution-agrees :
      (at : String) (p : ExecuteSwapParams D) (w : Reports D)
      → ((e : ExecutionEstimate D) × (r : ExecutionReport D) × (w' : Reports D)
          × (estimate_execution p w ≡ resolved e w)
          × (execute_swap at p w ≡ resolved r w')
          × (e.quote.expected_output_amount ≡ r.output_amount)
          × (e.quote.estimated_fee_amount ≡ r.fee_amount)
          × (e.expected_price ≡ r.effective_price))
        ⊎ ((x : ExecutionError) × (estimate_execution p w ≡ rejected x w)
            × (execute_swap at p w ≡ rejected x w))
  unfolding execute_swap estimate_execution
  estimate_execution-agrees at p w = by_fill (calculate_execution p p.reference_price)
    where
      by_fill :
          (o : Option (PaperFill D))
          → ((e : ExecutionEstimate D) × (r : ExecutionReport D) × (w' : Reports D)
              × (answer_estimate p o w ≡ resolved e w)
              × (answer_swap at p o w ≡ resolved r w')
              × (e.quote.expected_output_amount ≡ r.output_amount)
              × (e.quote.estimated_fee_amount ≡ r.fee_amount)
              × (e.expected_price ≡ r.effective_price))
            ⊎ ((x : ExecutionError) × (answer_estimate p o w ≡ rejected x w)
                × (answer_swap at p o w ≡ rejected x w))
      by_fill none = inr (_, refl, refl)
      by_fill (some x) = inl (estimate_of p x, report_of at p x, _, refl, refl, refl, refl, refl)
