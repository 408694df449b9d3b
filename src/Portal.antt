-- ===== src/Portal.antt =====
-- The portal of internal/core/portal.go and the proposals that it and the action links file.

mod Filing
mod Changing
mod Deciding
mod Page
pub mod Unchanged
pub mod Budget
pub mod Requests
unfoldable pub use Filing.*
unfoldable pub use Changing.*
unfoldable pub use Deciding.*
unfoldable pub use Page.*
