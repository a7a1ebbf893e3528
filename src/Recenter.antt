-- ===== src/Recenter.antt =====
-- packages/core/src/services/recenter-policy-service.ts and flat-recenter-service.ts: when the range of
-- a bot may move, and where to.
pub mod Policy
pub mod Flat
pub mod Defence
pub mod Safety
mod Tests
