-- ===== src/Domain.antt =====
-- packages/core/src/domain: the types that the services exchange. `D` is the type of a `number`
-- that can hold a fraction; counts, indices and durations are whole numbers.
mod Enums
mod Config
mod State
mod Orders
mod Portfolio
mod Execution
pub use Enums.*
pub use Config.*
pub use State.*
pub use Orders.*
pub use Portfolio.*
pub use Execution.*
