-- ===== src/Scheduler.antt =====
-- The confirmation cycle of internal/core/outbox.go: reminders, nudges and the deadline pass with
-- its dead-man-switch.
mod Reach
mod Asks
mod Deadlines
mod Problems
pub mod Spared
pub mod OptIn
unfoldable pub use Reach.*
unfoldable pub use Asks.*
unfoldable pub use Deadlines.*
unfoldable pub use Problems.*
