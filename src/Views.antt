-- ===== src/Views.antt =====
-- The read access of internal/core/views.go, and its test messages.
mod Lists
mod Glance
mod Testing
unfoldable pub use Lists.*
unfoldable pub use Glance.*
unfoldable pub use Testing.*
