-- ===== src/Poller.antt =====
-- The telegram poller of internal/channel/telegram_poller.go, wired to the service as in cmd_serve.go.
mod Defs
pub mod Once
pub mod Presses
unfoldable pub use Defs.*
