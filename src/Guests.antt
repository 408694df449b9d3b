-- ===== src/Guests.antt =====
-- Party invitations: internal/core/invite.go.
mod Invites
mod Rsvp
mod Views
pub mod Cap
pub mod Kept
pub mod Closing
unfoldable pub use Invites.*
unfoldable pub use Rsvp.*
unfoldable pub use Views.*
