-- ===== src/Feed.antt =====
-- The outbound calendar of internal/ics/ics.go.
mod Defs
pub mod Reader
pub mod Folding
pub mod Escaping
pub mod Lines
unfoldable pub use Defs.*
