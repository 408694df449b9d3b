-- ===== src/Service.antt =====
-- The service of internal/core/service.go: its state, and the helpers of service.go and outbox.go
-- that every operation ends in (audit, persist, page the admin, enqueue, fire webhooks).
mod Defs
mod Store
mod Outbox
pub mod Frame
pub mod Health
unfoldable pub use Defs.*
unfoldable pub use Store.*
unfoldable pub use Outbox.*
