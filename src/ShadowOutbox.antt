-- ===== src/ShadowOutbox.antt =====
-- packages/db/src/repositories/shadow-jev-outbox-repository.ts: the queue of judgments, from which
-- workers claim jobs under a lease. The rows have the columns that the queue reads or writes; what a
-- job says of its observation is read from other tables, which nothing changes.
pub mod Rows
pub mod Claim
pub mod Report
pub mod Numbers
pub mod Steps
pub mod Leases
pub mod Sound
pub mod Runs
pub mod Machine
pub mod Moved
pub mod Refinement
pub mod Progress
mod Tests
