-- ===== src/ExecutionRecoveryPoller.antt =====
-- apps/worker/src/execution-recovery-poller.ts: the poller that retries unresolved executions.
pub mod Polling
pub mod Activity
pub mod Rounds
mod Tests
