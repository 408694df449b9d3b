-- ===== src/Ticks.antt =====
-- Tick of internal/core/outbox.go: the scheduler's passes and the delivery in one round.
mod Defs
mod Asking
mod Sending
pub mod Willing
unfoldable pub use Defs.*
