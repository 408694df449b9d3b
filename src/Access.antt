-- ===== src/Access.antt =====
-- Who may call the HTTP layer, and how often: internal/httpapi/limiter.go and adminsession.go.
pub mod Keyed
pub mod Limiter
pub mod Sessions
pub mod Room
pub mod Rounding
pub mod Sweep
pub mod Agreement
pub mod Expiry
