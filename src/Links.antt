-- ===== src/Links.antt =====
-- The action links of internal/core/links.go: minting, revoking and resolving them, who may
-- press a button, and the one POST that acts.
mod Defs
mod Actions
mod Actors
pub mod Minting
pub mod Revocation
pub mod Applying
pub mod Authority
unfoldable pub use Defs.*
unfoldable pub use Actors.*
unfoldable pub use Actions.*
