-- ===== src/Onboarding.antt =====
-- The telegram onboarding of internal/core/telegram_onboard.go.
mod Defs
pub mod Binding
unfoldable pub use Defs.*
