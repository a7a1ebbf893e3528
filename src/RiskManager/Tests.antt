-- ===== src/RiskManager/Tests.antt =====
-- packages/core/src/services/risk-manager-service.ts: runs, and the theorems there.
use grid_bot.Common.{◌≡◌, ◌≢◌, refl, true, false, none, some, [], ◌⊎◌, ◌↔◌}
use grid_bot.Float.Fixed.{fixed_float}
use grid_bot.Host.Binary.{binary, read, write}
use grid_bot.Domain.{buy, error}
use grid_bot.Samples.{usd, bot, signal, buy_order, market}
use grid_bot.RiskManager.{
  evaluate, reached_failure_limit, is_valid_price, reached_drawdown, exceeds_budget,
  is_out_of_range_buy, is_level_locked, is_cooling_down, reached_hourly_limit,
}
use grid_bot.RiskManager.Admission.{evaluate-allowed_iff, evaluate-reasons, IsAdmitted}

buy_passes : (evaluate binary bot (signal buy 0 100 99) buy_order (market 99) 400).allowed ≡ true
unfolding evaluate reached_failure_limit is_valid_price reached_drawdown exceeds_budget
    is_out_of_range_buy is_level_locked is_cooling_down reached_hourly_limit read write
buy_passes = refl

evaluate-allowed_iff_example :
    ((evaluate binary bot (signal buy 0 100 99) buy_order (market 99) 400).allowed ≡ true)
    ↔ IsAdmitted binary bot (signal buy 0 100 99) buy_order (market 99) 400
evaluate-allowed_iff_example =
    evaluate-allowed_iff binary bot (signal buy 0 100 99) buy_order (market 99) 400

evaluate-reasons_example :
    let r = evaluate binary bot (signal buy 0 100 99) buy_order (market 0) 400 in
    (r.allowed ≡ true → (r.reasons ≡ []) × (r.next_status ≡ none) × (r.alert_type ≡ none))
    × (r.allowed ≡ false → r.reasons ≢ [])
    × (r.next_status ≢ none
        → (r.next_status ≡ some error)
          × ((reached_failure_limit bot.config bot.latest_state ≡ true)
              ⊎ (is_valid_price (usd 0) ≡ false)))
evaluate-reasons_example =
    evaluate-reasons binary bot (signal buy 0 100 99) buy_order (market 0) 400
