-- ===== src/Execution.antt =====
-- packages/core/src/adapters/execution-adapter.ts, services/execution-service.ts and
-- services/execution-cost-model-service.ts: who executes an order, and at which price it fills.
pub mod Adapter
pub mod Paper
pub mod Service
pub mod CostModel
pub mod Isolation
pub mod Records
mod Tests
