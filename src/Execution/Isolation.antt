-- ===== src/Execution/Isolation.antt =====
-- packages/core/src/services/execution-service.ts: a paper bot does not trade on an exchange, and no
-- bot does while live trading is disabled.
use grid_bot.Common.{◌≡◌, refl, ap, true, false, Option, some, String}
use grid_bot.Domain.{
  Bot, ExecutionEstimate, ExecutionReport, ExecuteSwapParams, paper_provider, is_live,
}
use grid_bot.Execution.Adapter.{rejected, live_disabled}
use grid_bot.Execution.Service.{
  ExecutionService, get_adapter, service_quote, service_estimate, service_prepare, service_swap,
  service_prepared_swap,
}

-- The five operations of the service, for one bot.
pub record AreSame {D W : Type 0} (s t : ExecutionService D W) (bot : Bot D) : Type 0 where
  pub quotes :
      (input output : String) (amount slippage : D) (w : W)
      → service_quote s bot input output amount slippage w
        ≡ service_quote t bot input output amount slippage w
  pub estimates :
      (p : ExecuteSwapParams D) (w : W) → service_estimate s bot p w ≡ service_estimate t bot p w
  pub prepares :
      (p : ExecuteSwapParams D) (w : W) → service_prepare s bot p w ≡ service_prepare t bot p w
  pub swaps : (p : ExecuteSwapParams D) (w : W) → service_swap s bot p w ≡ service_swap t bot p w
  pub prepared_swaps :
      (p : ExecuteSwapParams D) (e : Option (ExecutionEstimate D)) (r : Option (ExecutionReport D))
      (w : W)
      → service_prepared_swap s bot p e r w ≡ service_prepared_swap t bot p e r w

module _ {D W : Type 0} (s t : ExecutionService D W) (bot : Bot D) where
  same_adapter : get_adapter s bot ≡ get_adapter t bot → AreSame s t bot
  unfolding service_quote service_estimate service_prepare service_swap service_prepared_swap
  same_adapter e = record {
    quotes = λ input output amount slippage w. rw e refl;
    estimates = λ p w. rw e refl;
    prepares = λ p w. rw e refl;
    swaps = λ p w. rw e refl;
    prepared_swaps = λ p x r w. rw e refl;
  }

  -- What the service does for a paper bot depends on the paper adapter alone: with other adapters for
  -- the exchanges, and whether live trading is enabled or not, every operation gives the same answer
  -- and the same changes.
  pub paper-isolated :
      is_live bot.mode ≡ false
      → s.adapters paper_provider ≡ t.adapters paper_provider
      → AreSame s t bot
  unfolding get_adapter
  paper-isolated p e = same_adapter (rw p (ap some e))

module _ {D W : Type 0} (s : ExecutionService D W) (bot : Bot D) where
  -- While live trading is disabled, every operation for a live bot is refused and changes nothing.
  pub live-refused :
      is_live bot.mode ≡ true
      → s.live_trading_enabled ≡ false
      → ((input output : String) (amount slippage : D) (w : W)
          → service_quote s bot input output amount slippage w ≡ rejected live_disabled w)
        × ((p : ExecuteSwapParams D) (w : W)
            → service_estimate s bot p w ≡ rejected live_disabled w)
        × ((p : ExecuteSwapParams D) (w : W) → service_prepare s bot p w ≡ rejected live_disabled w)
        × ((p : ExecuteSwapParams D) (w : W) → service_swap s bot p w ≡ rejected live_disabled w)
        × ((p : ExecuteSwapParams D) (e : Option (ExecutionEstimate D))
              (r : Option (ExecutionReport D)) (w : W)
            → service_prepared_swap s bot p e r w ≡ rejected live_disabled w)
  unfolding get_adapter service_quote service_estimate service_prepare service_swap
      service_prepared_swap
  live-refused p e = (
    λ input output amount slippage w. rw (p, e) refl,
    λ x w. rw (p, e) refl,
    λ x w. rw (p, e) refl,
    λ x w. rw (p, e) refl,
    λ x y r w. rw (p, e) refl,
  )
