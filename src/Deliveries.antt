-- ===== src/Deliveries.antt =====
-- The delivery half of internal/core/outbox.go: the propagation report, retention, and one pass
-- over the outbox (collect under the lock, send without it, book the results under it again).
mod Reports
mod Marks
mod Passes
mod Booking
pub mod Accounting
pub mod EndToEnd
pub mod Retention
pub mod Selection
pub mod Balance
pub mod Outcomes
pub mod Standing
unfoldable pub use Reports.*
unfoldable pub use Marks.*
unfoldable pub use Passes.*
unfoldable pub use Booking.*
