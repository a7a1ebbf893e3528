-- ===== src/SymbolRunScheduler.antt =====
-- apps/worker/src/symbol-run-scheduler.ts: one run of a symbol at a time, and no price lost.
pub mod Slots
pub mod Order
pub mod Exclusion
mod Tests
