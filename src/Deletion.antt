-- ===== src/Deletion.antt =====
-- The deletions of internal/core/delete.go.
mod Defs
pub mod Erasure
pub mod Persons
unfoldable pub use Defs.*
