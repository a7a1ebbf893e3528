-- ===== src/CapitalLedger.antt =====
-- packages/db/src/repositories/portfolio-repository.ts: the capital of the portfolios.
pub mod Tables
pub mod Allocation
pub mod Reservations
pub mod Commitments
pub mod Fills
pub mod Settlement
pub mod Rules
pub mod Held
pub mod Balance
pub mod Preserved
pub mod Settled
pub mod Runs
pub mod Guards
pub mod Audit
pub mod Audited
pub mod AuditedFills
mod Tests
