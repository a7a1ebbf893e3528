-- ===== src/GridStrategy.antt =====
-- packages/core/src/services/grid-strategy-service.ts: the class `GridStrategyService`.
mod Levels
mod Lots
mod Sizing
mod Intent
pub mod Rails
pub mod Profit
pub mod Entry
mod Tests
unfoldable pub use Levels.*
unfoldable pub use Lots.*
unfoldable pub use Sizing.*
unfoldable pub use Intent.*
