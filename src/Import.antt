-- ===== src/Import.antt =====
-- Reconciling the source calendar with the store: internal/core/import.go.
mod Asking
mod Occurrences
mod Sync
mod Bookkeeping
mod Fetch
pub mod Standing
pub mod Held
pub mod Merging
pub mod Untouched
pub mod Fetching
unfoldable pub use Asking.*
unfoldable pub use Occurrences.*
unfoldable pub use Sync.*
unfoldable pub use Bookkeeping.*
unfoldable pub use Fetch.*
