-- ===== src/Registry.antt =====
-- The registrations of internal/core/service.go: people, broadcast targets and webhooks.

mod Defs
mod Updates
pub mod Registering
pub mod Patching
unfoldable pub use Defs.*
unfoldable pub use Updates.*
