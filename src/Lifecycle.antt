-- ===== src/Lifecycle.antt =====
-- The event lifecycle of internal/core/service.go: create, confirm, cancel, move and reinstate, and
-- the propagation transaction that the last three end in.
mod FanOut
mod Creation
mod Changes
mod Moves
mod Operations
pub mod Recipients
pub mod Delivery
pub mod Counts
pub mod Propagation
pub mod Tail
pub mod Transactions
pub mod Fields
pub mod Flips
pub mod Branches
pub mod Reinstatement
pub mod Answers
pub mod Letters
unfoldable pub use FanOut.*
unfoldable pub use Creation.*
unfoldable pub use Changes.*
unfoldable pub use Moves.*
unfoldable pub use Operations.*
