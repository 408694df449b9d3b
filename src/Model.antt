-- ===== src/Model.antt =====
-- The domain model of internal/core/core.go, with the rows that import.go, invite.go and
-- telegram_onboard.go add to the state. A time is the number of its units since the zero time, so
-- 0 is the zero `time.Time`. The tables of `State` other than the outbox are one record, because
-- the code that only sends or records leaves all of them alone.
mod Kinds
mod Rows
mod Lookups
pub use Kinds.*
pub use Rows.*
unfoldable pub use Lookups.*
